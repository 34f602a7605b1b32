-- ===== src/PolicyService/Loop/Answers.antt =====
-- What each event of a policy service's life does to the replies and the waiting tasks.
use chromiumos_platform_logi.Prelude.{
  ℕ, ◌+◌, ◌≡◌, refl, inl, inr, Bool, true, false, some, none, List, [], ◌∷◌, ◌++◌, Text, arith,
  done, >>=-eq-done,
}
use chromiumos_platform_logi.Platform.Files.{FileSystem}
use chromiumos_platform_logi.Platform.Crypto.{NssLibrary}
use chromiumos_platform_logi.Platform.Messages.{PolicyFetchResponse, Codec}
use chromiumos_platform_logi.PolicyKey.{PolicyKey, Beyond}
use chromiumos_platform_logi.PolicyKey
use chromiumos_platform_logi.PolicyService.{
  State, Task, persist_key, persist_policy, Reply, success, failure, store, run_task,
  persist_key_on_loop, persist_policy_on_loop, on_key_persisted, on_policy_persisted, complete,
  notify, persist_error, parse_error, install_error, signature_error,
}
use chromiumos_platform_logi.PolicyService.Storing.{
  Accepted, Refused, store-Accepted, store-Refused,
}
use chromiumos_platform_logi.PolicyService.Loop.{
  Event, call, turn, turn_by, step, one_for, replied, pending, called,
}

pub replied-append :
    (k : ℕ) (xs ys : List Reply) → replied k (xs ++ ys) ≡ replied k xs + replied k ys
unfolding replied
replied-append k [] ys = omega arith
replied-append k (success n ∷ xs) ys = ground (arith, replied-append k xs ys)
replied-append k (failure n e ∷ xs) ys = ground (arith, replied-append k xs ys)

pub pending-append :
    (k : ℕ) (xs ys : List Task) → pending k (xs ++ ys) ≡ pending k xs + pending k ys
unfolding pending
pending-append k [] ys = omega arith
pending-append k (persist_key ∷ xs) ys = ground (arith, pending-append k xs ys)
pending-append k (persist_policy none ∷ xs) ys = ground (arith, pending-append k xs ys)
pending-append k (persist_policy (some n) ∷ xs) ys = ground (arith, pending-append k xs ys)

-- The completion's share in a state: what it was told and what it still waits for.
abbrev pub share : {Disk : Type 0} → ℕ → State Disk → ℕ
share k s = replied k s.replies + pending k s.posted

module _ {Disk : Type 0} (fs : FileSystem Disk) (c : Codec) where
  pub key_task_kept :
      (s s' : State Disk)
      → run_task fs c s persist_key ≡ done s'
      → (s'.posted ≡ s.posted) × (s'.replies ≡ s.replies) × (s'.key ≡ s.key) × (s'.store ≡ s.store)
  unfolding run_task persist_key_on_loop on_key_persisted notify
  key_task_kept s s' h =
      let ((d, b), e, e') =
        >>=-eq-done (PolicyKey.persist fs s.key s.disk)
          (λ r. done (on_key_persisted (record s { disk = r.0 }) r.1)) h in
      ground arith

module _ {Disk : Type 0} (fs : FileSystem Disk) (c : Codec) (k : ℕ) where
  run_task_share :
      (s s' : State Disk) (t : Task)
      → run_task fs c s t ≡ done s'
      → (s'.posted ≡ s.posted) × (replied k s'.replies ≡ replied k s.replies + pending k (t ∷ []))
  unfolding run_task persist_policy_on_loop on_policy_persisted complete notify pending replied
  run_task_share s s' persist_key h = ground (arith, key_task_kept fs c s s' h)
  run_task_share s s' (persist_policy none) h = ground arith
  run_task_share s s' (persist_policy (some n)) h = ground (
    arith,
    replied-append k s.replies (success n ∷ []),
    replied-append k s.replies (failure n persist_error ∷ []),
  )

  turn_by-share :
      (s s' : State Disk) (ts : List Task)
      → s.posted ≡ ts
      → turn_by fs c s ts ≡ done s'
      → share k s' ≡ share k s
  unfolding turn_by pending
  turn_by-share s s' [] e h = ground arith
  turn_by-share s s' (t ∷ ts) e h =
      let kept = run_task_share (record s { posted = ts }) s' t h in
      let split = pending-append k (t ∷ []) ts in ground (arith, kept, split)

module _ {Disk : Type 0} (fs : FileSystem Disk) (lib : NssLibrary) (beyond : Beyond) (c : Codec)
    (k : ℕ) where
  Accepted-share :
      (policy : PolicyFetchResponse) (completion flags : ℕ) (s s' : State Disk)
      → Accepted lib beyond policy completion flags s s'
      → share k s' ≡ one_for k completion + share k s
  unfolding pending
  Accepted-share policy completion flags s s' (_, _, _, _, kept, inl (_, _, e), _, _) =
      ground (arith, pending-append k s.posted (persist_policy (some completion) ∷ []))
  Accepted-share policy completion flags s s' (_, _, _, _, kept, inr (_, _, _, e), _, _) = ground (
    arith,
    pending-append k s.posted (persist_key ∷ []),
    pending-append k (s.posted ++ persist_key ∷ []) (persist_policy (some completion) ∷ []),
  )

  Refused-share :
      (policy : PolicyFetchResponse) (completion flags : ℕ) (s s' : State Disk)
      → Refused lib beyond policy completion flags s s'
      → share k s' ≡ one_for k completion + share k s
  unfolding pending replied
  Refused-share policy completion flags s s' (_, _, _, posted, told) = ground (
    arith,
    pending-append k s.posted (persist_key ∷ []),
    replied-append k s.replies (failure completion parse_error ∷ []),
    replied-append k s.replies (failure completion install_error ∷ []),
    replied-append k s.replies (failure completion signature_error ∷ []),
  )

  store_share :
      (blob : Text) (completion flags : ℕ) (s s' : State Disk) (accepted : Bool)
      → store lib beyond c blob completion flags s ≡ done (s', accepted)
      → share k s' ≡ one_for k completion + share k s
  store_share blob completion flags s s' true h =
      Accepted-share (c.parse_response blob).0 completion flags s s'
        (store-Accepted lib beyond c blob completion flags s s' h).3
  store_share blob completion flags s s' false h =
      Refused-share (c.parse_response blob).0 completion flags s s'
        (store-Refused lib beyond c blob completion flags s s' h)

  pub step-share :
      (s s' : State Disk) (e : Event)
      → step fs lib beyond c s e ≡ done s'
      → share k s' ≡ called k (e ∷ []) + share k s
  unfolding step called
  step-share s s' (call blob completion flags) h =
      let ((t, accepted), e, e') =
        >>=-eq-done (store lib beyond c blob completion flags s) (λ r. done r.0) h in
      let same : t ≡ s' = cc in
      let counted = store_share blob completion flags s t accepted e in
      ground (arith, same, counted)
  step-share s s' turn h = omega (arith, turn_by-share fs c k s s' s.posted refl h)

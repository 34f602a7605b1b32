-- ===== src/PolicyService/Replies.antt =====
-- The life of one `Store` call of policy_service.cc: from the call over the posted tasks to the
-- reply, and what is then retrieved.
use chromiumos_platform_logi.Prelude.{
  ℕ, ◌≡◌, refl, ◌∙◌, ap, ◌⊎◌, inl, inr, subst, Bool, true, false, some, List, [], ◌∷◌, ◌++◌, Text,
  arith, done, >>=-eq-done,
}
use mathlib.Core.List.{append_assoc}
use chromiumos_platform_logi.Platform.Files.{FileSystem}
use chromiumos_platform_logi.Platform.Crypto.{NssLibrary}
use chromiumos_platform_logi.Platform.Messages.{PolicyFetchResponse, Codec, CodecLaws}
use chromiumos_platform_logi.PolicyKey.{Beyond}
use chromiumos_platform_logi.PolicyStore
use chromiumos_platform_logi.PolicyStore.{PolicyStore}
use chromiumos_platform_logi.PolicyService.{
  State, Task, persist_key, persist_policy, Reply, success, failure, Error, persist_error, store,
  retrieve, run_task, run_tasks, persist_key_on_loop, persist_policy_on_loop, on_key_persisted,
  on_policy_persisted, parse_error, install_error, signature_error,
}
use chromiumos_platform_logi.PolicyService.Storing.{
  Accepted, Refused, store-Accepted, store-Refused,
}

module _ {Disk : Type 0} (fs : FileSystem Disk) (c : Codec) where
  key_task_replies :
      (s s' : State Disk) → run_task fs c s persist_key ≡ done s' → (s'.replies ≡ s.replies)
  unfolding run_task persist_key_on_loop on_key_persisted
  key_task_replies s s' h = ground arith

  -- What a completion of a policy write is told.
  abbrev pub Outcomes : ℕ → Reply → Type 0
  Outcomes completion r = (r ≡ success completion) ⊎ (r ≡ failure completion persist_error)

  policy_task_replies :
      (s : State Disk) (completion : ℕ)
      → let s' = persist_policy_on_loop fs c s (some completion) in
        (s'.replies ≡ s.replies ++ success completion ∷ [])
        ⊎ (s'.replies ≡ s.replies ++ failure completion persist_error ∷ [])
  unfolding persist_policy_on_loop on_policy_persisted
  policy_task_replies s completion = ground arith

  tasks_replies :
      (s s' : State Disk) (completion : ℕ)
      → (run_tasks fs c s (persist_policy (some completion) ∷ []) ≡ done s')
        ⊎ (run_tasks fs c s (persist_key ∷ persist_policy (some completion) ∷ []) ≡ done s')
      → (s'.replies ≡ s.replies ++ success completion ∷ [])
        ⊎ (s'.replies ≡ s.replies ++ failure completion persist_error ∷ [])
  unfolding run_tasks run_task
  tasks_replies s s' completion (inl h) = ground (arith, policy_task_replies s completion)
  tasks_replies s s' completion (inr h) =
      let (t, e, _) =
        >>=-eq-done (persist_key_on_loop fs c s)
          (λ t. run_tasks fs c t (persist_policy (some completion) ∷ [])) h in
      ground (arith, key_task_replies s t e, policy_task_replies t completion)

  key_tasks_replies :
      (s s' : State Disk)
      → (run_tasks fs c s [] ≡ done s') ⊎ (run_tasks fs c s (persist_key ∷ []) ≡ done s')
      → s'.replies ≡ s.replies
  unfolding run_tasks run_task
  key_tasks_replies s s' (inl h) = ground arith
  key_tasks_replies s s' (inr h) =
      let (t, e, _) = >>=-eq-done (persist_key_on_loop fs c s) (λ t. run_tasks fs c t []) h in
      ground (arith, key_task_replies s t e)

  at_posted :
      (s s' : State Disk) (before ts : List Task)
      → before ≡ []
      → s.posted ≡ before ++ ts
      → run_tasks fs c s s.posted ≡ done s'
      → run_tasks fs c s ts ≡ done s'
  at_posted s s' before ts idle e h =
      let same : s.posted ≡ ts = e ∙ ap (λ (q : List Task). q ++ ts) idle in
      subst (λ (q : List Task). run_tasks fs c s q ≡ done s') same h

module _ {Disk : Type 0} (fs : FileSystem Disk) (lib : NssLibrary) (beyond : Beyond)
    (c : Codec) where
  Accepted-reply :
      (policy : PolicyFetchResponse) (completion flags : ℕ) (s s' s'' : State Disk)
      → s.posted ≡ []
      → Accepted lib beyond policy completion flags s s'
      → run_tasks fs c s' s'.posted ≡ done s''
      → (s''.replies ≡ s.replies ++ success completion ∷ [])
        ⊎ (s''.replies ≡ s.replies ++ failure completion persist_error ∷ [])
  Accepted-reply policy completion flags s s' s'' idle (_, _, _, _, kept, inl (_, _, e), _, _) h =
      rw kept at
        (tasks_replies fs c s' s'' completion (inl (at_posted fs c s' s'' s.posted _ idle e h)))
  Accepted-reply policy completion flags s s' s'' idle (_, _, _, _, kept, inr (_, _, _, e), _, _)
        h =
      rw kept at (
        tasks_replies fs c s' s'' completion
          (inr (at_posted fs c s' s'' s.posted _ idle (e ∙ append_assoc s.posted _ _) h)))

  Refused-reply :
      (policy : PolicyFetchResponse) (completion flags : ℕ) (s s' s'' : State Disk)
      → s.posted ≡ []
      → Refused lib beyond policy completion flags s s'
      → run_tasks fs c s' s'.posted ≡ done s''
      → s''.replies ≡ s'.replies
  Refused-reply policy completion flags s s' s'' idle (_, _, _, inl e, _) h =
      key_tasks_replies fs c s' s'' (inl (at_posted fs c s' s'' [] [] refl (e ∙ idle) h))
  Refused-reply policy completion flags s s' s'' idle (_, _, _, inr e, _) h =
      key_tasks_replies fs c s' s'' (inr (at_posted fs c s' s'' s.posted _ idle e h))

  -- A completion gets exactly one reply, once the tasks that its call has posted have run on an idle
  -- loop. Success is only reported for a call that returned true.
  pub store_replies_once :
      (blob : Text) (completion flags : ℕ) (s s' s'' : State Disk) (accepted : Bool)
      → s.posted ≡ []
      → store lib beyond c blob completion flags s ≡ done (s', accepted)
      → run_tasks fs c s' s'.posted ≡ done s''
      → (r : Reply) × (s''.replies ≡ s.replies ++ r ∷ [])
        × (((r ≡ success completion) × (accepted ≡ true))
            ⊎ ((e : Error) × (r ≡ failure completion e)))
  store_replies_once blob completion flags s s' s'' true idle h h' =
      elim (Accepted-reply (c.parse_response blob).0 completion flags s s' s'' idle
        (store-Accepted lib beyond c blob completion flags s s' h).3 h') [
          | inl e ↦ (success completion, e, inl (refl, refl))
          | inr e ↦ (failure completion persist_error, e, inr (persist_error, refl))
        ]
  store_replies_once blob completion flags s s' s'' false idle h h' =
      let refused = store-Refused lib beyond c blob completion flags s s' h in
      let kept =
        Refused-reply (c.parse_response blob).0 completion flags s s' s'' idle refused h' in
      elim refused.4 [
        | inl e ↦ (failure completion parse_error, kept ∙ e, inr (parse_error, refl))
        | inr (inl e) ↦ (failure completion install_error, kept ∙ e, inr (install_error, refl))
        | inr (inr e) ↦ (failure completion signature_error, kept ∙ e, inr (signature_error, refl))
      ]

module _ {Disk : Type 0} (lib : NssLibrary) (beyond : Beyond) (c : Codec) (laws : CodecLaws c) where
  -- What an accepted call has stored is retrieved as bytes that parse to the same policy.
  pub retrieve-store :
      (blob b : Text) (completion flags : ℕ) (s s' : State Disk)
      → store lib beyond c blob completion flags s ≡ done (s', true)
      → c.serialize_response (c.parse_response blob).0 ≡ some b
      → ((retrieve c s').1 ≡ true)
        × (c.parse_response (retrieve c s').0 ≡ ((c.parse_response blob).0, true))
  unfolding retrieve PolicyStore.set
  retrieve-store blob b completion flags s s' h e =
      let policy = (c.parse_response blob).0 in
      let kept = (store-Accepted lib beyond c blob completion flags s s' h).3.2 in
      let same : s'.store.policy ≡ policy = ap (λ (t : PolicyStore). t.policy) kept in
      ground (
        arith,
        same,
        laws.sized policy,
        laws.same_bytes policy b e,
        laws.parse_serialized policy b e,
      )

-- ===== src/PolicyService/Loop/Completion.antt =====
-- Over any schedule of calls and turns: the service lives, and each call has one answer in the end.
use chromiumos_platform_logi.Prelude.{
  ℕ, zero, suc, ◌+◌, ◌≡◌, ◌≢◌, refl, ◌∙◌, ap, inl, inr, Bool, true, false, some, none, List, [],
  ◌∷◌, Text, arith, done, died, Outcome, ◌>>=◌, survives-eq-done, List-cases, Option, >>=-eq-done,
  length, replicate, Bool-cases,
}
use chromiumos_platform_logi.Platform.Files.{FileSystem}
use chromiumos_platform_logi.Platform.Crypto.{NssLibrary}
use chromiumos_platform_logi.Platform.Messages.{PolicyFetchResponse, Codec}
use chromiumos_platform_logi.PolicyKey.{PolicyKey, Beyond}
use chromiumos_platform_logi.PolicyKey
use chromiumos_platform_logi.PolicyService.{
  State, Task, persist_key, persist_policy, has_flag, key_clobber, key_install_new, store,
  store_policy, after_install, verify_and_store, install_key, rotate_or_install, clobber_if_allowed,
  has_other_key, run_task, persist_key_on_loop, persist_policy_on_loop, on_policy_persisted,
  complete, notify, reply,
}
use chromiumos_platform_logi.PolicyService.Storing.{store_policy_survives}
use chromiumos_platform_logi.PolicyService.Loop.{
  Event, call, turn, turn_by, step, run, replied, pending, called, IsSane,
}
use chromiumos_platform_logi.PolicyService.Loop.Answers.{key_task_kept, share, step-share}

-- The key was looked for on disk, as every service that a client reaches has done.
abbrev pub IsChecked : {Disk : Type 0} → State Disk → Type 0
IsChecked s = s.key.have_checked_disk ≡ true

-- What no call changes in a key: its file, and whether that was looked for.
abbrev pub IsSamePlace : PolicyKey → PolicyKey → Type 0
IsSamePlace k k' = (k'.have_checked_disk ≡ k.have_checked_disk) × (k'.key_file ≡ k.key_file)

install_key_place :
    (lib : NssLibrary) (flags : ℕ) (k k' : PolicyKey) (policy : PolicyFetchResponse) (der : Text)
    (installed : Bool)
    → install_key lib flags k policy der ≡ done (k', installed)
    → IsSamePlace k k'
unfolding install_key rotate_or_install clobber_if_allowed PolicyKey.rotate
    PolicyKey.populate_from_buffer PolicyKey.clobber_compromised_key PolicyKey.is_populated
install_key_place lib flags k k' policy der installed h = ground arith

module _ {Disk : Type 0} (lib : NssLibrary) (beyond : Beyond) (c : Codec) where
  after_install_key :
      (policy : PolicyFetchResponse) (completion : ℕ) (s : State Disk) (k : PolicyKey)
      (installed : Bool)
      → (after_install lib beyond policy completion s (k, installed)).0.key ≡ k
  unfolding after_install verify_and_store
  after_install_key policy completion s k true = ground arith
  after_install_key policy completion s k false = refl

  verify_and_store_key :
      (policy : PolicyFetchResponse) (completion : ℕ) (s : State Disk)
      → (verify_and_store lib beyond policy completion s).0.key ≡ s.key
  unfolding verify_and_store
  verify_and_store_key policy completion s = ground arith

  installed_place :
      (policy : PolicyFetchResponse) (completion flags : ℕ) (s s' : State Disk) (accepted : Bool)
      (der : Text)
      → (install_key lib flags s.key policy der >>= λ r.
          done (after_install lib beyond policy completion s r))
        ≡ done (s', accepted)
      → IsSamePlace s.key s'.key
  installed_place policy completion flags s s' accepted der h =
      let ((k, installed), e, e') =
        >>=-eq-done (install_key lib flags s.key policy der)
          (λ r. done (after_install lib beyond policy completion s r)) h in
      let same = install_key_place lib flags s.key k policy der installed e in
      let kept = after_install_key policy completion s k installed in ground arith

  store_policy_place :
      (policy : PolicyFetchResponse) (completion flags : ℕ) (s s' : State Disk) (accepted : Bool)
      → store_policy lib beyond policy completion flags s ≡ done (s', accepted)
      → IsSamePlace s.key s'.key
  unfolding store_policy
  store_policy_place policy completion flags s s' accepted h =
      elim (Bool-cases (has_other_key beyond s.key policy)) [
        | inl other ↦
            installed_place policy completion flags s s' accepted _ (rw (other, store_policy) at h)
        | inr same ↦
            ground (arith, (rw (same, store_policy) at h), verify_and_store_key policy completion s)
      ]

  pub store_place :
      (blob : Text) (completion flags : ℕ) (s s' : State Disk) (accepted : Bool)
      → store lib beyond c blob completion flags s ≡ done (s', accepted)
      → IsSamePlace s.key s'.key
  unfolding store reply
  store_place blob completion flags s s' accepted h =
      ground (arith, store_policy_place (c.parse_response blob).0 completion flags s s' accepted)

  store_survives :
      (blob : Text) (completion flags : ℕ) (s : State Disk)
      → IsChecked s
      → (has_flag flags key_clobber ≡ true → has_flag flags key_install_new ≡ true)
      → store lib beyond c blob completion flags s ≢ died
  unfolding store
  store_survives blob completion flags s checked sane = ground (
    arith,
    store_policy_survives lib beyond (c.parse_response blob).0 completion flags s checked sane,
  )

module _ {Disk : Type 0} (fs : FileSystem Disk) (c : Codec) where
  pub policy_task_kept :
      (s : State Disk) (completion : Option ℕ)
      → let s' = persist_policy_on_loop fs c s completion in
        (s'.posted ≡ s.posted) × (s'.key ≡ s.key) × (s'.store ≡ s.store)
  unfolding persist_policy_on_loop on_policy_persisted complete notify reply
  policy_task_kept s none = ground arith
  policy_task_kept s (some completion) = ground arith

  pub task_kept :
      (s s' : State Disk) (t : Task)
      → run_task fs c s t ≡ done s'
      → (s'.posted ≡ s.posted) × (s'.key ≡ s.key) × (s'.store ≡ s.store)
  unfolding run_task
  task_kept s s' persist_key h =
      let (posted, _, key, store) = key_task_kept fs c s s' h in (posted, key, store)
  task_kept s s' (persist_policy completion) h =
      let kept = policy_task_kept s completion in ground arith

  task_survives : (s : State Disk) (t : Task) → IsChecked s → run_task fs c s t ≢ died
  unfolding run_task persist_key_on_loop PolicyKey.persist
  task_survives s persist_key checked = ground arith
  task_survives s (persist_policy completion) checked = ground arith

module _ {Disk : Type 0} (fs : FileSystem Disk) (lib : NssLibrary) (beyond : Beyond)
    (c : Codec) where
  -- A turn takes the oldest task off, and the service lives.
  turn_goes_on :
      (s : State Disk) (t : Task) (ts : List Task)
      → s.posted ≡ t ∷ ts
      → IsChecked s
      → (s' : State Disk) × (step fs lib beyond c s turn ≡ done s')
        × IsChecked s'
        × (s'.posted ≡ ts)
  unfolding step turn_by
  turn_goes_on s t ts e checked =
      let (s', runs) =
        survives-eq-done (run_task fs c (record s { posted = ts }) t)
          (task_survives fs c (record s { posted = ts }) t checked) in
      let kept = task_kept fs c (record s { posted = ts }) s' t runs in
      (s', ground arith, ground arith, ground arith)

  step_goes_on :
      (s : State Disk) (e : Event)
      → IsSane (e ∷ [])
      → IsChecked s
      → (s' : State Disk) × (step fs lib beyond c s e ≡ done s') × IsChecked s'
  unfolding step turn_by IsSane
  step_goes_on s (call blob completion flags) sane checked =
      let ((s', accepted), stored) =
        survives-eq-done (store lib beyond c blob completion flags s)
          (store_survives lib beyond c blob completion flags s checked sane.0) in
      (
        s',
        ap (λ (r : Outcome (State Disk × Bool)). r >>= λ q. done q.0) stored,
        (store_place lib beyond c blob completion flags s s' accepted stored).0 ∙ checked,
      )
  step_goes_on s turn sane checked = elim (List-cases s.posted) [
    | inl e ↦ (s, ap (λ (ts : List Task). turn_by fs c s ts) e, checked)
    | inr (t, ts, e) ↦
        let (s', runs, checked', _) = turn_goes_on s t ts e checked in (s', runs, checked')
  ]

  run_goes_on :
      (s : State Disk) (es : List Event)
      → IsSane es
      → IsChecked s
      → (s' : State Disk) × (run fs lib beyond c s es ≡ done s') × IsChecked s'
  unfolding run IsSane
  run_goes_on s [] sane checked = (s, refl, checked)
  run_goes_on s (call blob completion flags ∷ es) sane checked =
      let (t, now, there) = step_goes_on s (call blob completion flags) (sane.0, tt) checked in
      let (s', later, at_end) = run_goes_on t es sane.1 there in (s', rw (now, later) refl, at_end)
  run_goes_on s (turn ∷ es) sane checked =
      let (t, now, there) = step_goes_on s turn tt checked in
      let (s', later, at_end) = run_goes_on t es sane there in (s', rw (now, later) refl, at_end)

  drain :
      (s : State Disk) (ts : List Task)
      → s.posted ≡ ts
      → IsChecked s
      → (s' : State Disk) × (run fs lib beyond c s (replicate (length ts) turn) ≡ done s')
        × (s'.posted ≡ [])
  unfolding run
  drain s [] e checked = (s, refl, e)
  drain s (t ∷ ts) e checked =
      let (s₁, now, checked₁, left) = turn_goes_on s t ts e checked in
      let (s', later, empty) = drain s₁ ts left checked₁ in (s', rw (now, later) refl, empty)

  called_turns : (k n : ℕ) → called k (replicate n turn) ≡ 0
  unfolding called
  called_turns k zero = refl
  called_turns k (suc n) = called_turns k n

  called_cons :
      (k : ℕ) (e : Event) (es : List Event) → called k (e ∷ es) ≡ called k (e ∷ []) + called k es
  unfolding called
  called_cons k (call blob completion flags) es = omega arith
  called_cons k turn es = omega arith

  run-share :
      (k : ℕ) (s s' : State Disk) (es : List Event)
      → run fs lib beyond c s es ≡ done s'
      → share k s' ≡ called k es + share k s
  unfolding run called
  run-share k s s' [] h = ground arith
  run-share k s s' (e ∷ es) h =
      let (t, now, later) =
        >>=-eq-done (step fs lib beyond c s e) (λ t. run fs lib beyond c t es) h in
      let first = step-share fs lib beyond c k s t e now in
      let rest = run-share k t s' es later in omega (arith, first, rest, called_cons k e es)

  -- Calls and turns of the loop in any order, of which no call allows clobbering without a first
  -- installation, leave a service that looked for its key on disk alive; as many further turns as
  -- tasks then wait run all of them, and after these each completion has one reply for every call
  -- that carried it, besides those it had and those that waited before.
  pub calls_answered_once :
      (s : State Disk) (es : List Event)
      → IsSane es
      → IsChecked s
      → (s' s'' : State Disk) × (run fs lib beyond c s es ≡ done s')
        × (run fs lib beyond c s' (replicate (length s'.posted) turn) ≡ done s'')
        × (s''.posted ≡ [])
        × ((k : ℕ) → replied k s''.replies ≡ replied k s.replies + pending k s.posted + called k es)
  unfolding pending
  calls_answered_once s es sane checked =
      let (s', runs, checked') = run_goes_on s es sane checked in
      let (s'', drains, empty) = drain s' s'.posted refl checked' in
      (
        s',
        s'',
        runs,
        drains,
        empty,
        λ k.
            let first = run-share k s s' es runs in
            let second = run-share k s' s'' (replicate (length s'.posted) turn) drains in
            let no_call = called_turns k (length s'.posted) in
            ground (arith, first, second, no_call),
      )

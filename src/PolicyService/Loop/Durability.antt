-- ===== src/PolicyService/Loop/Durability.antt =====
-- The service implements its register: whatever order calls and tasks come in, the disk holds what
-- the register says.
use chromiumos_platform_logi.Prelude.{
  ℕ, ◌≡◌, ◌≢◌, refl, ap, ◌⊎◌, inl, inr, subst, Bool, true, false, some, none, Option, List, [], ◌∷◌,
  Text, arith, done, >>=-eq-done, Option-cases,
}
use chromiumos_platform_logi.Platform.Files.{FileSystem, FileLaws}
use chromiumos_platform_logi.Platform.Crypto.{NssLibrary}
use chromiumos_platform_logi.Platform.Messages.{PolicyFetchResponse, Codec}
use chromiumos_platform_logi.SystemUtils.{remove_file}
use chromiumos_platform_logi.SystemUtils.Atomic.{atomic_file_write_lem, atomic_file_write_apart}
use chromiumos_platform_logi.PolicyKey.{PolicyKey, Beyond}
use chromiumos_platform_logi.PolicyKey
use chromiumos_platform_logi.PolicyStore.{PolicyStore}
use chromiumos_platform_logi.PolicyStore
use chromiumos_platform_logi.PolicyService.{
  State, Task, persist_key, persist_policy, run_task, persist_key_on_loop, persist_policy_on_loop,
  on_key_persisted, on_policy_persisted, complete, notify, reply, store,
}
use chromiumos_platform_logi.PolicyService.Storing.{store-Accepted, store-Refused}
use chromiumos_platform_logi.PolicyService.Loop.{Event, call, turn, turn_by, step, run}
use chromiumos_platform_logi.PolicyService.Loop.Completion.{
  store_place, task_kept, policy_task_kept,
}
use chromiumos_platform_logi.PolicyService.Loop.Register.{
  Register, Move, accept, rekey, save, Moves, stay, onward, Moves-trans, Moves-Holds, first_key,
  Holds,
}

module _ {Disk : Type 0} (fs : FileSystem Disk) (laws : FileLaws fs) where
  persist_key_apart :
      (k : PolicyKey) (d d' : Disk) (status : Bool) (other old : Text)
      → other ≢ k.key_file
      → PolicyKey.persist fs k d ≡ done (d', status)
      → fs.read_file_to_string d other ≡ some old
      → fs.read_file_to_string d' other ≡ some old
  unfolding PolicyKey.persist remove_file
  persist_key_apart k d d' status other old ne h there = ground (
    arith,
    atomic_file_write_apart fs laws d k.key_file other old k.key ne there,
    laws.delete_keeps d k.key_file other ne,
  )

  persist_policy_contents :
      (c : Codec) (p : PolicyStore) (d : Disk) (old : Text)
      → fs.read_file_to_string d p.policy_path ≡ some old
      → let d' = (PolicyStore.persist fs c p d).0 in
        (fs.read_file_to_string d' p.policy_path ≡ some old)
        ⊎ ((new : Text) × (c.serialize_response p.policy ≡ some new)
            × (fs.read_file_to_string d' p.policy_path ≡ some new))
  unfolding PolicyStore.persist
  persist_policy_contents c p d old there = elim (Option-cases (c.serialize_response p.policy)) [
    | inl e ↦ inl (rw (e, PolicyStore.persist) there)
    | inr (new, e) ↦ elim (atomic_file_write_lem fs laws d p.policy_path old new there) [
      | inl h ↦ inr (new, e, rw (e, PolicyStore.persist) h)
      | inr (h, _) ↦ inl (rw (e, PolicyStore.persist) h)
    ]
  ]

-- The register that a service with these bytes on disk stands for.
abbrev pub view : {Disk : Type 0} → State Disk → Text → Register
view s saved = record { key = s.key; memory = s.store.policy; saved = saved }

module _ {Disk : Type 0} (fs : FileSystem Disk) where
  abbrev pub IsSaved : State Disk → Text → Type 0
  IsSaved s b = fs.read_file_to_string s.disk s.store.policy_path ≡ some b

-- The files stay where they are.
abbrev IsSameHome : {Disk : Type 0} → State Disk → State Disk → Type 0
IsSameHome s s' = (s'.key.key_file ≡ s.key.key_file) × (s'.store.policy_path ≡ s.store.policy_path)

-- A call among the events hands the policy in with the flags.
abbrev pub Called : Codec → List Event → PolicyFetchResponse → ℕ → Type 0
Called c [] policy flags = ⊥
Called c (call blob completion given ∷ es) policy flags =
    ((policy ≡ (c.parse_response blob).0) × (flags ≡ given)) ⊎ Called c es policy flags
Called c (turn ∷ es) policy flags = Called c es policy flags

module _ {Disk : Type 0} (fs : FileSystem Disk) (laws : FileLaws fs) (lib : NssLibrary)
    (beyond : Beyond) (c : Codec) (Offered : PolicyFetchResponse → ℕ → Type 0) where
  -- One event moves the register on, or leaves it.
  abbrev Follows : State Disk → Text → State Disk → Type 0
  Follows s b s' =
      (b' : Text) × IsSaved fs s' b'
      × Moves lib beyond c Offered (view s b) (view s' b')
      × IsSameHome s s'

  key_task_disk :
      (s s' : State Disk) (b : Text)
      → run_task fs c s persist_key ≡ done s'
      → s.store.policy_path ≢ s.key.key_file
      → IsSaved fs s b
      → fs.read_file_to_string s'.disk s.store.policy_path ≡ some b
  unfolding run_task persist_key_on_loop on_key_persisted notify
  key_task_disk s s' b h ne there =
      let ((d, status), e, e') =
        >>=-eq-done (PolicyKey.persist fs s.key s.disk)
          (λ r. done (on_key_persisted (record s { disk = r.0 }) r.1)) h in
      let apart =
        persist_key_apart fs laws s.key s.disk d status s.store.policy_path b ne e there in
      ground arith

  policy_task_disk :
      (s : State Disk) (completion : Option ℕ)
      → (persist_policy_on_loop fs c s completion).disk
        ≡ (PolicyStore.persist fs c s.store s.disk).0
  unfolding persist_policy_on_loop on_policy_persisted complete notify reply
  policy_task_disk s none = ground arith
  policy_task_disk s (some completion) = ground arith

  key_task-Follows :
      (s s' : State Disk) (b : Text)
      → run_task fs c s persist_key ≡ done s'
      → s.store.policy_path ≢ s.key.key_file
      → IsSaved fs s b
      → Follows s b s'
  key_task-Follows s s' b h ne there =
      let (_, key, store) = task_kept fs c s s' persist_key h in
      let apart = key_task_disk s s' b h ne there in
      (b, rw store apart, stay (rw (key, store) refl), rw (key, store) (refl, refl))

  policy_task-Follows :
      (s : State Disk) (completion : Option ℕ) (b : Text)
      → IsSaved fs s b
      → Follows s b (persist_policy_on_loop fs c s completion)
  policy_task-Follows s completion b there =
      let (_, key, store) = policy_task_kept fs c s completion in
      let disk = policy_task_disk s completion in
      elim (persist_policy_contents fs laws c s.store s.disk b there) [
        | inl old ↦
            (b, rw (store, disk) old, stay (rw (key, store) refl), rw (key, store) (refl, refl))
        | inr (new, written, e) ↦
            let saving : Move lib beyond c Offered (view s b)
                (view (persist_policy_on_loop fs c s completion) new) =
              save key (ap (λ (p : PolicyStore). p.policy) store) written in
            (new, rw (store, disk) e, onward saving (stay refl), rw (key, store) (refl, refl))
      ]

  turn-Follows :
      (s s' : State Disk) (b : Text) (ts : List Task)
      → turn_by fs c s ts ≡ done s'
      → s.store.policy_path ≢ s.key.key_file
      → IsSaved fs s b
      → Follows s b s'
  unfolding turn_by run_task
  turn-Follows s s' b [] h ne there =
      let same : s ≡ s' = cc in
      subst (λ (t : State Disk). Follows s b t) same (b, there, stay refl, (refl, refl))
  turn-Follows s s' b (persist_key ∷ ts) h ne there =
      key_task-Follows (record s { posted = ts }) s' b h ne there
  turn-Follows s s' b (persist_policy completion ∷ ts) h ne there =
      let same : persist_policy_on_loop fs c (record s { posted = ts }) completion ≡ s' = cc in
      subst (λ (t : State Disk). Follows s b t) same
        (policy_task-Follows (record s { posted = ts }) completion b there)

  store-Follows :
      (blob : Text) (completion flags : ℕ) (s s' : State Disk) (accepted : Bool) (b : Text)
      → Offered (c.parse_response blob).0 flags
      → store lib beyond c blob completion flags s ≡ done (s', accepted)
      → IsSaved fs s b
      → Follows s b s'
  unfolding PolicyStore.set
  store-Follows blob completion flags s s' true b offered h there =
      let (signed, key, store, disk, _, _, _, _) =
        (store-Accepted lib beyond c blob completion flags s s' h).3 in
      let accepting : Move lib beyond c Offered (view s b) (view s' b) =
        accept (c.parse_response blob).0 flags offered key signed
          (ap (λ (p : PolicyStore). p.policy) store) refl in
      (
        b,
        rw (store, disk) there,
        onward accepting (stay refl),
        ((store_place lib beyond c blob completion flags s s' true h).1, rw store refl),
      )
  store-Follows blob completion flags s s' false b offered h there =
      let (store, disk, key, _, _) = store-Refused lib beyond c blob completion flags s s' h in
      let rekeying : Move lib beyond c Offered (view s b) (view s' b) =
        rekey (c.parse_response blob).0 flags offered key (ap (λ (p : PolicyStore). p.policy) store)
          refl in
      (
        b,
        rw (store, disk) there,
        onward rekeying (stay refl),
        ((store_place lib beyond c blob completion flags s s' false h).1, rw store refl),
      )

  step-Follows :
      (s s' : State Disk) (b : Text) (e : Event)
      → ((policy : PolicyFetchResponse) (flags : ℕ)
          → Called c (e ∷ []) policy flags
          → Offered policy flags)
      → step fs lib beyond c s e ≡ done s'
      → s.store.policy_path ≢ s.key.key_file
      → IsSaved fs s b
      → Follows s b s'
  unfolding step
  step-Follows s s' b (call blob completion flags) offers h ne there =
      let ((t, accepted), e, e') =
        >>=-eq-done (store lib beyond c blob completion flags s) (λ r. done r.0) h in
      let same : t ≡ s' = cc in
      subst (λ (t : State Disk). Follows s b t) same
        (store-Follows blob completion flags s t accepted b
          (offers (c.parse_response blob).0 flags (inl (refl, refl))) e there)
  step-Follows s s' b turn offers h ne there = turn-Follows s s' b s.posted h ne there

  first-Called :
      (e : Event) (es : List Event) (policy : PolicyFetchResponse) (flags : ℕ)
      → Called c (e ∷ []) policy flags
      → Called c (e ∷ es) policy flags
  first-Called (call blob completion given) es policy flags (inl h) = inl h
  first-Called (call blob completion given) es policy flags (inr h) = absurd h
  first-Called turn es policy flags h = absurd h

  later-Called :
      (e : Event) (es : List Event) (policy : PolicyFetchResponse) (flags : ℕ)
      → Called c es policy flags
      → Called c (e ∷ es) policy flags
  later-Called (call blob completion given) es policy flags h = inr h
  later-Called turn es policy flags h = h

  run_offered :
      (s s' : State Disk) (b : Text) (es : List Event)
      → ((policy : PolicyFetchResponse) (flags : ℕ)
          → Called c es policy flags
          → Offered policy flags)
      → run fs lib beyond c s es ≡ done s'
      → s.store.policy_path ≢ s.key.key_file
      → IsSaved fs s b
      → (b' : Text) × IsSaved fs s' b' × Moves lib beyond c Offered (view s b) (view s' b')
  unfolding run
  run_offered s s' b [] offers h ne there =
      let same : s ≡ s' = cc in
      subst
        (λ (t : State Disk).
          (b' : Text) × IsSaved fs t b' × Moves lib beyond c Offered (view s b) (view t b'))
        same (b, there, stay refl)
  run_offered s s' b (e ∷ es) offers h ne there =
      let (t, now, later) =
        >>=-eq-done (step fs lib beyond c s e) (λ t. run fs lib beyond c t es) h in
      let (b₁, there₁, first, (key, store)) =
        step-Follows s t b e (λ p f o. offers p f (first-Called e es p f o)) now ne there in
      let (b', there', rest) =
        run_offered t s' b₁ es (λ p f o. offers p f (later-Called e es p f o)) later
          (rw (key, store) ne) there₁ in
      (b', there', Moves-trans lib beyond c Offered first rest)

module _ {Disk : Type 0} (fs : FileSystem Disk) (laws : FileLaws fs) (lib : NssLibrary)
    (beyond : Beyond) (c : Codec) where
  -- By the laws of the file system: where the policy file is there and is not the key file, a run of
  -- calls and turns in any order that comes to its end leaves on disk and in memory what some moves
  -- of the register, by the messages of these calls and their flags, lead to from what was there
  -- before.
  pub run-Moves :
      (s s' : State Disk) (b : Text) (es : List Event)
      → run fs lib beyond c s es ≡ done s'
      → s.store.policy_path ≢ s.key.key_file
      → IsSaved fs s b
      → (b' : Text) × IsSaved fs s' b' × Moves lib beyond c (Called c es) (view s b) (view s' b')
  run-Moves s s' b es h ne there =
      run_offered fs laws lib beyond c (Called c es) s s' b es (λ p f o. o) h ne there

  -- By the same laws and in the same runs: the policy in memory at the end is the first one, or was
  -- handed in by one of these calls and is signed under the first key or one that leads on from it by
  -- changes which the messages of these calls and their flags allow: rotations that the key before
  -- has signed, first keys, and clobberings. The policy file has its old bytes or all the bytes of
  -- such a policy.
  pub run-saves-genuine :
      (s s' : State Disk) (b : Text) (es : List Event)
      → run fs lib beyond c s es ≡ done s'
      → s.store.policy_path ≢ s.key.key_file
      → IsSaved fs s b
      → (b' : Text) × IsSaved fs s' b'
        × Holds lib beyond c (Called c es) s.key s.store.policy b (view s' b')
  run-saves-genuine s s' b es h ne there =
      let (b', there', moves) = run-Moves s s' b es h ne there in
      (
        b',
        there',
        Moves-Holds lib beyond c (Called c es) s.key s.store.policy b moves
            (first_key refl, inl refl, inl refl),
      )

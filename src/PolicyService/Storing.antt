-- ===== src/PolicyService/Storing.antt =====
-- What a call of `Store` of policy_service.cc does on every path.
use chromiumos_platform_logi.Prelude.{
  ℕ, ◌≡◌, ◌≢◌, refl, ◌⊎◌, inl, inr, subst, Bool, true, false, some, [], ◌∷◌, ◌++◌, Text, arith,
  done, died, Bool-cases, >>=-eq-done, ◌>>=◌, is_some,
}
use chromiumos_platform_logi.Platform.Crypto.{NssLibrary}
use chromiumos_platform_logi.Platform.Messages.{PolicyFetchResponse, Codec, string_of}
use chromiumos_platform_logi.NssUtil.{blob_from_buffer}
use chromiumos_platform_logi.PolicyKey.{PolicyKey, Beyond, verify}
use chromiumos_platform_logi.PolicyStore
use chromiumos_platform_logi.PolicyService.{
  State, persist_key, persist_policy, failure, has_flag, key_install_new, key_clobber, install_key,
  has_other_key, verify_and_store, after_install, store_policy, store, parse_error, signature_error,
  install_error, reply,
}
use chromiumos_platform_logi.PolicyService.KeyInstall.{
  Allowed, install_key_lem, install_key_survives,
}

module _ (lib : NssLibrary) (policy : PolicyFetchResponse) where
  -- The signature over the policy holds under the key that the service now has.
  abbrev pub IsVerified : PolicyKey → Type 0
  IsVerified k =
      verify lib k (string_of policy.policy_data) (string_of policy.policy_data_signature) ≡ true

module _ (lib : NssLibrary) (beyond : Beyond) (policy : PolicyFetchResponse) where
  -- What a call does with a key that it does or does not change.
  abbrev pub KeyStep : ℕ → PolicyKey → PolicyKey → Type 0
  KeyStep flags k k' =
      (k' ≡ k)
      ⊎ ((has_other_key beyond k policy ≡ true)
          × (k'.key ≡ string_of policy.new_public_key)
          × Allowed lib flags k policy (string_of policy.new_public_key))

module _ {Disk : Type 0} (lib : NssLibrary) (beyond : Beyond) (policy : PolicyFetchResponse)
    (completion : ℕ) where
  -- Which writes are posted: the policy's alone where the key stays, and the key's before it where
  -- the message has brought another.
  abbrev pub Posts : State Disk → State Disk → Type 0
  Posts s s' =
      ((has_other_key beyond s.key policy ≡ false)
        × (s'.key ≡ s.key)
        × (s'.posted ≡ s.posted ++ persist_policy (some completion) ∷ []))
      ⊎ ((has_other_key beyond s.key policy ≡ true)
          × (s'.key.key ≡ string_of policy.new_public_key)
          × (s'.key.key_file ≡ s.key.key_file)
          × (s'.posted ≡ (s.posted ++ persist_key ∷ []) ++ persist_policy (some completion) ∷ []))

  -- The policy is in memory, its writes are posted, and disk, replies and notices are as they were.
  abbrev pub Accepted : ℕ → State Disk → State Disk → Type 0
  Accepted flags s s' =
      IsVerified lib policy s'.key
      × KeyStep lib beyond policy flags s.key s'.key
      × (s'.store ≡ PolicyStore.set s.store policy)
      × (s'.disk ≡ s.disk)
      × (s'.replies ≡ s.replies)
      × Posts s s'
      × (s'.notices ≡ s.notices)
      × (s'.has_delegate ≡ s.has_delegate)

  -- The policy stays, nothing of it is to be written, and the caller has its one reply.
  abbrev pub Refused : ℕ → State Disk → State Disk → Type 0
  Refused flags s s' =
      (s'.store ≡ s.store)
      × (s'.disk ≡ s.disk)
      × KeyStep lib beyond policy flags s.key s'.key
      × ((s'.posted ≡ s.posted) ⊎ (s'.posted ≡ s.posted ++ persist_key ∷ []))
      × ((s'.replies ≡ s.replies ++ failure completion parse_error ∷ [])
          ⊎ ((s'.replies ≡ s.replies ++ failure completion install_error ∷ [])
              ⊎ (s'.replies ≡ s.replies ++ failure completion signature_error ∷ [])))

  abbrev pub Stored : ℕ → State Disk → State Disk → Bool → Type 0
  Stored flags s s' true = Accepted flags s s'
  Stored flags s s' false = Refused flags s s'

  verify_and_store-Stored :
      (flags : ℕ) (s : State Disk)
      → has_other_key beyond s.key policy ≡ false
      → let r = verify_and_store lib beyond policy completion s in Stored flags s r.0 r.1
  unfolding verify_and_store
  verify_and_store-Stored flags s same = ground arith

  after_install-Stored :
      (flags : ℕ) (s : State Disk) (k : PolicyKey) (installed : Bool)
      → has_other_key beyond s.key policy ≡ true
      → install_key lib flags s.key policy (string_of policy.new_public_key) ≡ done (k, installed)
      → let r = after_install lib beyond policy completion s (k, installed) in
        Stored flags s r.0 r.1
  unfolding after_install
  after_install-Stored flags s k true other e =
      let (new, _) =
        install_key_lem lib flags s.key policy (string_of policy.new_public_key) k true e in
      let step : KeyStep lib beyond policy flags s.key k =
        inr (other, (new refl).0, (new refl).2) in
      let placed : k.key_file ≡ s.key.key_file = (new refl).1 in ground arith
  after_install-Stored flags s k false other e =
      let (_, old) =
        install_key_lem lib flags s.key policy (string_of policy.new_public_key) k false e in
      let step : KeyStep lib beyond policy flags s.key k = inl (old refl) in ground arith

  transfer :
      (flags : ℕ) (s s' : State Disk) (accepted : Bool) (r : State Disk × Bool)
      → done r ≡ done (s', accepted)
      → Stored flags s r.0 r.1
      → Stored flags s s' accepted
  transfer flags s s' accepted r e st =
      let same : r ≡ (s', accepted) = cc in
      subst (λ (q : State Disk × Bool). Stored flags s q.0 q.1) same st

  with_new_key :
      (flags : ℕ) (s s' : State Disk) (accepted : Bool)
      → has_other_key beyond s.key policy ≡ true
      → (install_key lib flags s.key policy (string_of policy.new_public_key) >>= λ r.
          done (after_install lib beyond policy completion s r))
        ≡ done (s', accepted)
      → Stored flags s s' accepted
  with_new_key flags s s' accepted other h =
      let ((k, installed), e, e') =
        >>=-eq-done (install_key lib flags s.key policy (string_of policy.new_public_key))
          (λ r. done (after_install lib beyond policy completion s r)) h in
      transfer flags s s' accepted _ e' (after_install-Stored flags s k installed other e)

  -- Every run of `StorePolicy` to its end is accepted or refused as above.
  pub store_policy-Stored :
      (flags : ℕ) (s s' : State Disk) (accepted : Bool)
      → store_policy lib beyond policy completion flags s ≡ done (s', accepted)
      → Stored flags s s' accepted
  unfolding store_policy blob_from_buffer
  store_policy-Stored flags s s' accepted h =
      elim (Bool-cases (has_other_key beyond s.key policy)) [
        | inl other ↦ with_new_key flags s s' accepted other (rw (other, store_policy) at h)
        | inr same ↦
            transfer flags s s' accepted _ (rw (same, store_policy) at h)
              (verify_and_store-Stored flags s same)
      ]

  -- It comes to its end once the key's disk was checked, if clobbering is not allowed without a
  -- first installation.
  pub store_policy_survives :
      (flags : ℕ) (s : State Disk)
      → s.key.have_checked_disk ≡ true
      → (has_flag flags key_clobber ≡ true → has_flag flags key_install_new ≡ true)
      → store_policy lib beyond policy completion flags s ≢ died
  unfolding store_policy blob_from_buffer
  store_policy_survives flags s checked sane = ground (
    arith,
    install_key_survives lib flags s.key policy (string_of policy.new_public_key) checked sane,
  )

module _ {Disk : Type 0} (lib : NssLibrary) (beyond : Beyond) (c : Codec) where
  -- A call of `Store` that returns true had a parsable policy with its two required fields, whose
  -- signature holds under the key that the service then has: the old one, or another that the message
  -- brought in a way that key and flags allow. The policy is in memory. Where the message brought no
  -- other key, its write alone is posted; where it did, that of the key comes before it. Disk, replies
  -- and notices are as before.
  pub store-Accepted :
      (blob : Text) (completion flags : ℕ) (s s' : State Disk)
      → store lib beyond c blob completion flags s ≡ done (s', true)
      → let policy = (c.parse_response blob).0 in
        ((c.parse_response blob).1 ≡ true)
        × (is_some policy.policy_data ≡ true)
        × (is_some policy.policy_data_signature ≡ true)
        × Accepted lib beyond policy completion flags s s'
  unfolding store
  store-Accepted blob completion flags s s' h =
      ground
        (arith, store_policy-Stored lib beyond (c.parse_response blob).0 completion flags s s' true)

  -- A call that returns false leaves policy and disk alone, posts no write of a policy, and gives its
  -- completion exactly one reply, a failure.
  pub store-Refused :
      (blob : Text) (completion flags : ℕ) (s s' : State Disk)
      → store lib beyond c blob completion flags s ≡ done (s', false)
      → Refused lib beyond (c.parse_response blob).0 completion flags s s'
  unfolding store reply
  store-Refused blob completion flags s s' h =
      ground (
        arith,
        store_policy-Stored lib beyond (c.parse_response blob).0 completion flags s s' false,
      )

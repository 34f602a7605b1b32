-- ===== src/UserPolicyService/Unmanaged.antt =====
-- What `Store` of user_policy_service.cc accepts.
use chromiumos_platform_logi.Prelude.{
  ℕ, ◌≡◌, ◌≢◌, ◌⊎◌, Bool, true, false, some, [], ◌∷◌, ◌++◌, Text, arith, done, died, is_some,
}
use chromiumos_platform_logi.Platform.Crypto.{NssLibrary}
use chromiumos_platform_logi.Platform.Messages.{PolicyFetchResponse, Codec, string_of}
use chromiumos_platform_logi.PolicyKey.{Beyond, is_populated, clobber_compromised_key}
use chromiumos_platform_logi.PolicyStore
use chromiumos_platform_logi.PolicyService.{
  State, persist_key, persist_policy, post_persist_key, post_persist_policy, has_flag, key_clobber,
  key_install_new,
}
use chromiumos_platform_logi.PolicyService.Storing.{
  Accepted, store_policy-Stored, store_policy_survives,
}
use chromiumos_platform_logi.UserPolicyService.{clear_key, store_unmanaged, store}

module _ {Disk : Type 0} where
  -- The service has no key any more; a removal of the key is posted if there was one.
  abbrev pub Released : PolicyFetchResponse → ℕ → State Disk → State Disk → Type 0
  Released policy completion s s' =
      (s'.key.key ≡ [])
      × (s'.store ≡ PolicyStore.set s.store policy)
      × (s'.disk ≡ s.disk)
      × (s'.replies ≡ s.replies)
      × (((is_populated s.key ≡ true)
            × (s'.posted ≡ (s.posted ++ persist_key ∷ []) ++ persist_policy (some completion) ∷ []))
          ⊎ ((is_populated s.key ≡ false)
              × (s'.posted ≡ s.posted ++ persist_policy (some completion) ∷ [])))

  module _ (lib : NssLibrary) (beyond : Beyond) (c : Codec) where
    unmanaged_Released :
        (policy : PolicyFetchResponse) (completion : ℕ) (s s' : State Disk) (accepted : Bool)
        → store_unmanaged lib beyond c policy completion s ≡ done (s', accepted)
        → Released policy completion s s' × (accepted ≡ true)
    unfolding store_unmanaged clear_key clobber_compromised_key post_persist_key post_persist_policy
    unmanaged_Released policy completion s s' accepted h = ground arith

    -- An accepted call parsed, and it either was the unsigned message that a user is not managed any
    -- more, which drops the key, or it was verified like any other policy.
    pub user_store-Accepted :
        (blob : Text) (completion flags : ℕ) (s s' : State Disk)
        → store lib beyond c blob completion flags s ≡ done (s', true)
        → let policy = (c.parse_response blob).0 in
          let policy_data = (c.parse_policy_data (string_of policy.policy_data)).0 in
          ((c.parse_response blob).1 ≡ true)
          × (is_some policy.policy_data ≡ true)
          × (((policy_data.unmanaged ≡ true)
                × (is_some policy.policy_data_signature ≡ false)
                × Released policy completion s s')
              ⊎ Accepted lib beyond policy completion flags s s')
    unfolding store
    user_store-Accepted blob completion flags s s' h = ground (
      arith,
      unmanaged_Released (c.parse_response blob).0 completion s s' true,
      store_policy-Stored lib beyond (c.parse_response blob).0 completion flags s s' true,
    )

    unmanaged_survives :
        (policy : PolicyFetchResponse) (completion : ℕ) (s : State Disk)
        → s.key.have_checked_disk ≡ true
        → store_unmanaged lib beyond c policy completion s ≢ died
    unfolding store_unmanaged clear_key clobber_compromised_key
    unmanaged_survives policy completion s checked = ground arith

    -- No blob ends the process, once the key's disk was checked and if clobbering is not allowed
    -- without a first installation.
    pub user_store_survives :
        (blob : Text) (completion flags : ℕ) (s : State Disk)
        → s.key.have_checked_disk ≡ true
        → (has_flag flags key_clobber ≡ true → has_flag flags key_install_new ≡ true)
        → store lib beyond c blob completion flags s ≢ died
    unfolding store
    user_store_survives blob completion flags s checked sane = ground (
      arith,
      unmanaged_survives (c.parse_response blob).0 completion s checked,
      store_policy_survives lib beyond (c.parse_response blob).0 completion flags s checked sane,
    )

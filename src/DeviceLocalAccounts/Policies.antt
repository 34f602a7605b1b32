-- ===== src/DeviceLocalAccounts/Policies.antt =====
-- Calls on the policies of device-local accounts.
use chromiumos_platform_logi.Prelude.{
  ℕ, ◌≡◌, refl, inl, inr, subst, Bool, true, false, Option, none, some, [], ◌∷◌, ◌++◌, is_some,
  Text, arith, done, >>=-eq-done,
}
use chromiumos_platform_logi.Platform.Files.{FileSystem}
use chromiumos_platform_logi.Platform.Crypto.{NssLibrary}
use chromiumos_platform_logi.Platform.Messages.{PolicyFetchResponse, Codec, string_of}
use chromiumos_platform_logi.PolicyKey.{PolicyKey, Beyond, verify}
use chromiumos_platform_logi.PolicyStore.{PolicyStore}
use chromiumos_platform_logi.PolicyService
use chromiumos_platform_logi.PolicyService.{State, failure, has_flag}
use chromiumos_platform_logi.PolicyService.Storing.{store-Accepted, store-Refused, KeyStep}
use chromiumos_platform_logi.UserPolicyService.{Homes}
use chromiumos_platform_logi.DeviceLocalAccounts.{
  LocalAccounts, find, make_service, get_policy_service, service_state, put_back, store_with, store,
  account_error,
}

module _ (lib : NssLibrary) (beyond : Beyond) where
  -- With no flag set, the key is what it was.
  no_flag_no_change :
      (k k' : PolicyKey) (policy : PolicyFetchResponse) → KeyStep lib beyond policy 0 k k' → k' ≡ k
  unfolding has_flag
  no_flag_no_change k k' policy (inl same) = same
  no_flag_no_change k k' policy (inr (_, _, inl (f, _, _))) = cc
  no_flag_no_change k k' policy (inr (_, _, inr (inl (f, _, _)))) = cc
  no_flag_no_change k k' policy (inr (_, _, inr (inr (f, _, _)))) = cc

  -- A store without flags leaves the key alone on every path.
  pub key-store_without_flags :
      {Disk : Type 0} (c : Codec) (blob : Text) (completion : ℕ) (s s' : State Disk)
      (accepted : Bool)
      → PolicyService.store lib beyond c blob completion 0 s ≡ done (s', accepted)
      → s'.key ≡ s.key
  key-store_without_flags c blob completion s s' true h =
      no_flag_no_change s.key s'.key (c.parse_response blob).0
        (store-Accepted lib beyond c blob completion 0 s s' h).3.1
  key-store_without_flags c blob completion s s' false h =
      no_flag_no_change s.key s'.key (c.parse_response blob).0
        (store-Refused lib beyond c blob completion 0 s s' h).2

  plain_store :
      {Disk : Type 0} (c : Codec) (blob : Text) (completion : ℕ) (s s' : State Disk)
      (accepted : Bool)
      → PolicyService.store lib beyond c blob completion 0 s ≡ done (s', accepted)
      → (s'.key ≡ s.key)
        × (accepted ≡ true
            → let policy = (c.parse_response blob).0 in
              (verify lib s.key
                  (string_of policy.policy_data)
                  (string_of policy.policy_data_signature)
                ≡ true)
              × (s'.replies ≡ s.replies))
  plain_store c blob completion s s' true h =
      let same = key-store_without_flags c blob completion s s' true h in
      let accepted = (store-Accepted lib beyond c blob completion 0 s s' h).3 in
      (
        same,
        λ _. (
          subst
              (λ (k : PolicyKey).
                verify lib k (string_of (c.parse_response blob).0.policy_data)
                  (string_of (c.parse_response blob).0.policy_data_signature)
                ≡ true)
              same accepted.0,
          accepted.4,
        ),
      )
  plain_store c blob completion s s' false h =
      (key-store_without_flags c blob completion s s' false h, λ q. cc)

module _ {Disk : Type 0} (fs : FileSystem Disk) (homes : Homes) (lib : NssLibrary) (beyond : Beyond)
    (c : Codec) where
  -- Finding a service leaves the key and the replies alone, and other accounts as they were; it finds
  -- one only for an account in the map.
  service_found :
      (account_id : Text) (l : LocalAccounts Disk)
      → let r = get_policy_service fs homes c account_id l in
        (r.0.owner_key ≡ l.owner_key)
        × (r.0.replies ≡ l.replies)
        × (is_some r.1 ≡ true
            → is_some (find (homes.sanitize_user_name account_id) l.policy_map) ≡ true)
        × (find (homes.sanitize_user_name account_id) l.policy_map ≡ none → r ≡ (l, none))
  unfolding get_policy_service make_service
  service_found account_id l = ground arith

  store_with_lem :
      (key blob : Text) (completion : ℕ) (l l' : LocalAccounts Disk) (s : PolicyStore)
      (accepted : Bool)
      → store_with fs homes lib beyond c key blob completion l s ≡ done (l', accepted)
      → (l'.owner_key ≡ l.owner_key)
        × (accepted ≡ true
            → let policy = (c.parse_response blob).0 in
              (verify lib l.owner_key
                  (string_of policy.policy_data)
                  (string_of policy.policy_data_signature)
                ≡ true)
              × (l'.replies ≡ l.replies))
  unfolding store_with put_back service_state
  store_with_lem key blob completion l l' s accepted h =
      let ((t, b), e, e') =
        >>=-eq-done
          (PolicyService.store lib beyond c blob completion 0 (service_state fs homes l s)) _ h in
      ground (arith, plain_store lib beyond c blob completion (service_state fs homes l s) t b e)

  store_by :
      (account_id blob : Text) (completion : ℕ) (l l' : LocalAccounts Disk) (accepted : Bool)
      (found : Option PolicyStore)
      → (get_policy_service fs homes c account_id l).1 ≡ found
      → store fs homes lib beyond c account_id blob completion l ≡ done (l', accepted)
      → (l'.owner_key ≡ l.owner_key)
        × (accepted ≡ true
            → let policy = (c.parse_response blob).0 in
              (is_some (find (homes.sanitize_user_name account_id) l.policy_map) ≡ true)
              × (verify lib l.owner_key
                    (string_of policy.policy_data)
                    (string_of policy.policy_data_signature)
                  ≡ true)
              × (l'.replies ≡ l.replies))
  unfolding store
  store_by account_id blob completion l l' accepted none e h =
      ground (arith, service_found account_id l)
  store_by account_id blob completion l l' accepted (some s) e h =
      let l₁ = (get_policy_service fs homes c account_id l).0 in
      ground (
        arith,
        service_found account_id l,
        store_with_lem (homes.sanitize_user_name account_id) blob completion l₁ l' s accepted
            (rw (e, store) at h),
      )

  -- A policy for a device-local account never changes the owner's key. It is accepted only for an
  -- account in the map, and only if the owner's key verifies it.
  pub store_lem :
      (account_id blob : Text) (completion : ℕ) (l l' : LocalAccounts Disk) (accepted : Bool)
      → store fs homes lib beyond c account_id blob completion l ≡ done (l', accepted)
      → (l'.owner_key ≡ l.owner_key)
        × (accepted ≡ true
            → let policy = (c.parse_response blob).0 in
              (is_some (find (homes.sanitize_user_name account_id) l.policy_map) ≡ true)
              × (verify lib l.owner_key
                    (string_of policy.policy_data)
                    (string_of policy.policy_data_signature)
                  ≡ true)
              × (l'.replies ≡ l.replies))
  store_lem account_id blob completion l l' accepted h =
      store_by account_id blob completion l l' accepted _ refl h

  -- For an account that is not in the map the caller gets one failure, and nothing else changes.
  pub store_unknown :
      (account_id blob : Text) (completion : ℕ) (l : LocalAccounts Disk)
      → find (homes.sanitize_user_name account_id) l.policy_map ≡ none
      → store fs homes lib beyond c account_id blob completion l
        ≡ done (record l { replies = l.replies ++ failure completion account_error ∷ [] }, false)
  unfolding store
  store_unknown account_id blob completion l h = ground (arith, service_found account_id l)

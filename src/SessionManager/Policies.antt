-- ===== src/SessionManager/Policies.antt =====
-- What session_manager_impl.cc lets the callers of its policy calls do to the owner's key.
use chromiumos_platform_logi.Prelude.{
  ℕ, ◌≡◌, ◌≢◌, sym, subst, ◌⊎◌, Bool, true, false, none, Text, if◌then◌else◌, arith, Outcome, done,
  died, >>=-eq-done,
}
use chromiumos_platform_logi.Platform.Messages.{string_of}
use chromiumos_platform_logi.PolicyKey.{PolicyKey, is_populated, verify}
use chromiumos_platform_logi.PolicyService
use chromiumos_platform_logi.PolicyService.{State, has_flag, key_install_new, key_clobber}
use chromiumos_platform_logi.PolicyService.Storing.{
  KeyStep, store-Accepted, store-Refused, store_policy_survives,
}
use chromiumos_platform_logi.DevicePolicyService
use chromiumos_platform_logi.DevicePolicyService.{DeviceService}
use chromiumos_platform_logi.SessionManager.{Env, Manager}
use chromiumos_platform_logi.SessionManager.PolicyCalls.{store_flags, store_policy}

module _ {Disk : Type 0} (env : Env Disk) where
  -- Whatever the blob, the call comes to its end once the key's disk was checked.
  pub store_device_policy_survives :
      (blob : Text) (completion : ℕ) (m : Manager Disk)
      → m.device_policy.state.key.have_checked_disk ≡ true
      → store_policy env blob completion m ≢ died
  unfolding store_policy DevicePolicyService.store PolicyService.store store_flags has_flag
  store_device_policy_survives blob completion m checked = ground (
    arith,
    store_policy_survives env.lib env.beyond (env.codec.parse_response blob).0 completion 1
        m.device_policy.state checked,
    store_policy_survives env.lib env.beyond (env.codec.parse_response blob).0 completion 7
        m.device_policy.state checked,
  )

  service_store-KeyStep :
      (blob : Text) (completion flags : ℕ) (s s' : State Disk) (accepted : Bool)
      → PolicyService.store env.lib env.beyond env.codec blob completion flags s
        ≡ done (s', accepted)
      → KeyStep env.lib env.beyond (env.codec.parse_response blob).0 flags s.key s'.key
  service_store-KeyStep blob completion flags s s' true e =
      let (_, _, _, (_, step, _, _, _, _, _, _)) =
        store-Accepted env.lib env.beyond env.codec blob completion flags s s' e in
      step
  service_store-KeyStep blob completion flags s s' false e =
      let (_, _, step, _, _) =
        store-Refused env.lib env.beyond env.codec blob completion flags s s' e in
      step

  finished-KeyStep :
      (blob : Text) (flags : ℕ) (d d' : DeviceService Disk) (accepted : Bool) (s : State Disk)
      (stored : Bool)
      → KeyStep env.lib env.beyond (env.codec.parse_response blob).0 flags d.state.key s.key
      → let c = record d { state = s } in
        let flagged =
          DevicePolicyService.update_serial_number_recovery_flag_file env.fs env.codec c in
        let finished : Outcome (DeviceService Disk × Bool) =
          done (if stored then (record flagged { settings = none }, true) else (c, false)) in
        finished ≡ done (d', accepted)
        → KeyStep env.lib env.beyond
            (env.codec.parse_response blob).0
            flags
            d.state.key
            d'.state.key
  unfolding DevicePolicyService.update_serial_number_recovery_flag_file
  finished-KeyStep blob flags d d' accepted s stored step e =
      let same : d'.state.key ≡ s.key = ground arith in
      subst
        (λ (k : PolicyKey).
          KeyStep env.lib env.beyond (env.codec.parse_response blob).0 flags d.state.key k)
        (sym same) step

  device_store-KeyStep :
      (blob : Text) (completion flags : ℕ) (d d' : DeviceService Disk) (accepted : Bool)
      → DevicePolicyService.store env.fs env.codec env.lib env.beyond blob completion flags d
        ≡ done (d', accepted)
      → KeyStep env.lib env.beyond (env.codec.parse_response blob).0 flags d.state.key d'.state.key
  unfolding DevicePolicyService.store
  device_store-KeyStep blob completion flags d d' accepted e =
      let ((s, stored), e₁, e₂) =
        >>=-eq-done (PolicyService.store env.lib env.beyond env.codec blob completion flags d.state)
          _ e in
      finished-KeyStep blob flags d d' accepted s stored
        (service_store-KeyStep blob completion flags d.state s stored e₁) e₂

  put_in-key :
      (m m' : Manager Disk) (d : DeviceService Disk) (ok accepted : Bool)
      → let put : Outcome (Manager Disk × Bool) = done (record m { device_policy = d }, ok) in
        put ≡ done (m', accepted) → m'.device_policy.state.key ≡ d.state.key
  put_in-key m m' d ok accepted e = ground arith

  store_policy-KeyStep :
      (blob : Text) (completion : ℕ) (m m' : Manager Disk) (accepted : Bool)
      → store_policy env blob completion m ≡ done (m', accepted)
      → KeyStep env.lib env.beyond
          (env.codec.parse_response blob).0
          (store_flags m.session_started)
          m.device_policy.state.key
          m'.device_policy.state.key
  unfolding store_policy
  store_policy-KeyStep blob completion m m' accepted e =
      let policy = (env.codec.parse_response blob).0 in
      let flags = store_flags m.session_started in
      let ((d, ok), e₁, e₂) =
        >>=-eq-done
          (DevicePolicyService.store env.fs env.codec env.lib env.beyond blob completion flags
            m.device_policy)
          _ e in
      subst (λ (k : PolicyKey). KeyStep env.lib env.beyond policy flags m.device_policy.state.key k)
        (sym (put_in-key m m' d ok accepted e₂))
        (device_store-KeyStep blob completion flags m.device_policy d ok e₁)

  -- In a session, a call that returns leaves the owner's key as it was or replaces it by one that the
  -- old key has signed; in particular no first key is installed.
  pub store_policy_in_session :
      (blob : Text) (completion : ℕ) (m m' : Manager Disk) (accepted : Bool)
      → m.session_started ≡ true
      → store_policy env blob completion m ≡ done (m', accepted)
      → let policy = (env.codec.parse_response blob).0 in
        let k = m.device_policy.state.key in
        let k' = m'.device_policy.state.key in
        (k' ≡ k)
        ⊎ ((is_populated k ≡ true)
            × (k'.key ≡ string_of policy.new_public_key)
            × (verify env.lib k
                  (string_of policy.new_public_key)
                  (string_of policy.new_public_key_signature)
                ≡ true))
  unfolding store_flags has_flag
  store_policy_in_session blob completion m m' accepted h e =
      ground (arith, store_policy-KeyStep blob completion m m' accepted e)

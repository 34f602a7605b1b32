-- ===== src/DevicePolicyService/Serial.antt =====
-- The serial-number recovery flag: device_policy_service.cc `UpdateSerialNumberRecoveryFlagFile`.
use chromiumos_platform_logi.Prelude.{
  ◌≡◌, ◌≢◌, ◌⊎◌, inl, inr, true, false, none, some, [], arith, Bool-cases,
}
use chromiumos_platform_logi.Platform.Files.{FileSystem}
use chromiumos_platform_logi.Platform.Messages.{Codec, string_of}
use chromiumos_platform_logi.DevicePolicyService.{
  DeviceService, recovery_needed, update_serial_number_recovery_flag_file,
}

module _ {Disk : Type 0} (fs : FileSystem Disk) (c : Codec) where
  -- The policy file is missing or empty.
  abbrev pub PolicyLost : DeviceService Disk → Type 0
  PolicyLost d =
      (fs.get_file_size d.state.disk d.policy_file ≡ none)
      ⊎ (fs.get_file_size d.state.disk d.policy_file ≡ some 0)

  -- An enrolled device reports that its serial number is not valid.
  abbrev pub SerialReported : DeviceService Disk → Type 0
  SerialReported d =
      let policy_data = c.parse_policy_data (string_of d.state.store.policy.policy_data) in
      (d.state.store.policy.policy_data ≢ none)
      × (policy_data.1 ≡ true)
      × (string_of policy_data.0.request_token ≢ [])
      × (policy_data.0.valid_serial_number_missing ≡ true)

  needed_sound :
      (d : DeviceService Disk) → recovery_needed fs c d ≡ true → PolicyLost d ⊎ SerialReported d
  unfolding recovery_needed
  needed_sound d h = ground arith

  needed_complete :
      (d : DeviceService Disk) → PolicyLost d ⊎ SerialReported d → recovery_needed fs c d ≡ true
  unfolding recovery_needed
  needed_complete d h = ground arith

  -- The flag file is written, empty, exactly if the policy file is lost or the policy reports a
  -- missing serial number, and is deleted otherwise; nothing but the disk changes.
  pub update_flag_file_lem :
      (d : DeviceService Disk)
      → let d' = update_serial_number_recovery_flag_file fs c d in
        let file = d.serial_recovery_flag_file in
        (PolicyLost d ⊎ SerialReported d
          → d' ≡ record d {
            state = record (d.state) { disk = (fs.write_file d.state.disk file []).0 };
          })
        × (¬ (PolicyLost d ⊎ SerialReported d)
            → d' ≡ record d {
              state = record (d.state) { disk = (fs.delete d.state.disk file false).0 };
            })
  unfolding update_serial_number_recovery_flag_file
  update_flag_file_lem d = (
    (λ h. ground (arith, needed_complete d h)),
    (λ h. elim (Bool-cases (recovery_needed fs c d)) [
      | inl e ↦ absurd (h (needed_sound d e))
      | inr e ↦ ground arith
    ]),
  )

-- ===== src/PolicyService/KeyInstall.antt =====
-- When `StorePolicy` of policy_service.cc changes the key.
use chromiumos_platform_logi.Prelude.{ℕ, ◌≡◌, ◌≢◌, ◌⊎◌, Bool, true, false, Text, arith, done, died}
use chromiumos_platform_logi.Platform.Crypto.{NssLibrary}
use chromiumos_platform_logi.Platform.Messages.{PolicyFetchResponse, string_of}
use chromiumos_platform_logi.NssUtil.{blob_from_buffer}
use chromiumos_platform_logi.PolicyKey.{
  PolicyKey, is_populated, verify, rotate, populate_from_buffer, clobber_compromised_key,
}
use chromiumos_platform_logi.PolicyService.{
  has_flag, key_rotate, key_install_new, key_clobber, rotate_or_install, clobber_if_allowed,
  install_key,
}

-- The ways to a new key that the flags, the old key and the message allow: a rotation that the old
-- key has signed, a first key, and a clobbering.
abbrev pub Allowed : NssLibrary → ℕ → PolicyKey → PolicyFetchResponse → Text → Type 0
Allowed lib flags k policy der =
    ((has_flag flags key_rotate ≡ true)
      × (is_populated k ≡ true)
      × (verify lib k der (string_of policy.new_public_key_signature) ≡ true))
    ⊎ (((has_flag flags key_install_new ≡ true)
          × (is_populated k ≡ false)
          × (k.have_checked_disk ≡ true))
        ⊎ ((has_flag flags key_clobber ≡ true)
            × (is_populated k ≡ true)
            × (k.have_checked_disk ≡ true)))

module _ (lib : NssLibrary) (flags : ℕ) (k : PolicyKey) (policy : PolicyFetchResponse)
    (der : Text) where
  -- A new key is taken exactly as given and only in one of the allowed ways; a refusal leaves the
  -- key object as it was.
  pub install_key_lem :
      (k' : PolicyKey) (installed : Bool)
      → install_key lib flags k policy der ≡ done (k', installed)
      → (installed ≡ true
          → (k'.key ≡ der) × (k'.key_file ≡ k.key_file) × Allowed lib flags k policy der)
        × (installed ≡ false → k' ≡ k)
  unfolding install_key rotate_or_install clobber_if_allowed rotate populate_from_buffer
      clobber_compromised_key is_populated blob_from_buffer
  install_key_lem k' installed h = ground arith

  -- The CHECKs of the clobbering are met once the disk was checked, where no caller allows
  -- clobbering without a first installation.
  pub install_key_survives :
      k.have_checked_disk ≡ true
      → (has_flag flags key_clobber ≡ true → has_flag flags key_install_new ≡ true)
      → install_key lib flags k policy der ≢ died
  unfolding install_key rotate_or_install clobber_if_allowed rotate populate_from_buffer
      clobber_compromised_key is_populated
  install_key_survives checked sane = ground arith

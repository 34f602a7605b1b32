-- ===== src/Platform/Crypto.antt =====
-- NSS and the crypto library. Keys, slots and decoded structures are handles.
use chromiumos_platform_logi.Prelude.{ℕ, Bool, Option, Text}

pub record NssLibrary : Type 0 where
  pub secmod_open_user_db : Text → Option ℕ
  pub need_user_init : ℕ → Bool
  pub is_internal_key_slot : ℕ → Bool
  pub decode_spki : Text → Option ℕ
  pub extract_public_key : ℕ → Option ℕ
  pub is_rsa_key : ℕ → Bool
  pub make_id_from_pub_key : ℕ → Option ℕ
  pub find_key_by_key_id : ℕ → ℕ → Option ℕ
  pub create_from_key : ℕ → Option ℕ
  pub generate_key_pair : ℕ → ℕ → Option ℕ  -- slot, size in bits
  pub export_public_key : ℕ → Option Text
  -- `VerifyInit` on algorithm, signature and key, and `VerifyFinal` after these and the data.
  pub verify_init : Text → Text → Text → Bool
  pub verify_final : Text → Text → Text → Text → Bool
  pub signer_update : ℕ → Text → Bool
  pub signer_final : ℕ → Text → Option Text

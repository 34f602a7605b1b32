-- ===== src/LoginMetrics/Codes.antt =====
-- The metric codes of login_metrics.cc are unambiguous and within their bounds.
use chromiumos_platform_logi.Prelude.{◌≤◌, ◌<◌, ◌≡◌, ◌/◌, ◌%◌, ◌↔◌, Bool, false, arith}
use chromiumos_platform_logi.LoginMetrics.{
  PolicyFileState, good, malformed, not_present, state_value, PolicyFilesStatus,
  policy_files_status_code, max_policy_files_value, type_value, login_user_type_code, num_types,
}

state_value-injective : (a b : PolicyFileState) → state_value a ≡ state_value b → a ≡ b
unfolding state_value
state_value-injective a b h = ground arith

state_value_small : (a : PolicyFileState) → state_value a ≤ 2
unfolding state_value
state_value_small good = omega arith
state_value_small malformed = omega arith
state_value_small not_present = omega arith

-- Two states of the files have the same code only if they agree in every file, and each code is
-- below the histogram's bound.
pub policy_files_status_code-injective :
    (s t : PolicyFilesStatus)
    → (policy_files_status_code s ≡ policy_files_status_code t → s ≡ t)
      × (policy_files_status_code s < max_policy_files_value)
unfolding policy_files_status_code
policy_files_status_code-injective s t = ground arith

-- A malformed key file is what the codes from 16 to 31 stand for, and no other.
pub malformed_key_codes :
    (s : PolicyFilesStatus)
    → (s.owner_key_file_state ≡ malformed)
      ↔ ((16 ≤ policy_files_status_code s) × (policy_files_status_code s < 32))
unfolding policy_files_status_code state_value
malformed_key_codes s = (ground arith, ground arith)

-- A malformed policy file shows in the second base-4 digit of the code.
pub malformed_policy_codes :
    (s : PolicyFilesStatus)
    → (s.policy_file_state ≡ malformed) ↔ (policy_files_status_code s / 4 % 4 ≡ 1)
unfolding policy_files_status_code state_value
malformed_policy_codes s = (ground arith, ground arith)

-- The code of a login is one of six. It tells the mode, a guest from a known user, and the owner
-- from another user unless a guest logs in.
pub login_user_type_code-injective :
    (dev dev' guest guest' owner owner' : Bool)
    → (type_value (login_user_type_code dev guest owner) < num_types)
      × (type_value (login_user_type_code dev guest owner)
            ≡ type_value (login_user_type_code dev' guest' owner')
          → (dev ≡ dev') × (guest ≡ guest') × (guest ≡ false → owner ≡ owner'))
unfolding type_value login_user_type_code
login_user_type_code-injective dev dev' g g' o o' = ground arith

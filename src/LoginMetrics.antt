-- ===== src/LoginMetrics.antt =====
-- login_metrics.h and login_metrics.cc: the codes that are sent to the metrics library.
pub mod Codes
pub mod Examples
use chromiumos_platform_logi.Prelude.{
  ℕ, ◌+◌, ◌*◌, ◌≡◌, Bool, true, false, Option, none, some, List, [], ◌∷◌, ◌++◌, Text, codes,
  if◌then◌else◌, not,
}
use chromiumos_platform_logi.Platform.Files.{FileSystem}

pub data PolicyFileState : Type 0 where
  good malformed not_present : PolicyFileState

-- The enumerator's value.
unfoldable pub state_value : PolicyFileState → ℕ
state_value good = 0
state_value malformed = 1
state_value not_present = 2

pub data UserType : Type 0 where
  guest owner other dev_guest dev_owner dev_other : UserType

unfoldable pub type_value : UserType → ℕ
type_value guest = 0
type_value owner = 1
type_value other = 2
type_value dev_guest = 3
type_value dev_owner = 4
type_value dev_other = 5

abbrev pub num_types : ℕ
num_types = 6

pub record PolicyFilesStatus : Type 0 where
  pub owner_key_file_state : PolicyFileState
  pub policy_file_state : PolicyFileState
  pub defunct_prefs_file_state : PolicyFileState

unfoldable pub policy_files_status_code : PolicyFilesStatus → ℕ
unfolding state_value
policy_files_status_code s =
    state_value s.owner_key_file_state * 16
    + state_value s.policy_file_state * 4
    + state_value s.defunct_prefs_file_state

unfoldable pub login_user_type_code : Bool → Bool → Bool → UserType
login_user_type_code dev_mode incognito owns =
    if dev_mode
    then (if incognito then dev_guest else if owns then dev_owner else dev_other)
    else (if incognito then guest else if owns then owner else other)

abbrev pub max_policy_files_value : ℕ
max_policy_files_value = 64

-- One enumeration sample: its metric, its value and its bound.
pub record Sample : Type 0 where
  pub metric : Text
  pub value : ℕ
  pub bound : ℕ

abbrev pub user_type_metric : Text
user_type_metric = codes "Login.UserType"

abbrev pub policy_files_metric : Text
policy_files_metric = codes "Login.PolicyFilesStatePerBoot"

unfoldable pub send_login_user_type : Bool → Bool → Bool → Sample
unfolding type_value login_user_type_code
send_login_user_type dev_mode incognito owns = record {
  metric = user_type_metric;
  value = type_value (login_user_type_code dev_mode incognito owns);
  bound = 5;
}

module _ {Disk : Type 0} (fs : FileSystem Disk) (per_boot_flag_file : Text) where
  -- Once per boot: the flag file is written with the first sample.
  unfoldable pub send_policy_files_status : PolicyFilesStatus → Disk → Disk × List Sample
  unfolding policy_files_status_code
  send_policy_files_status s d = if fs.path_exists d per_boot_flag_file then (d, []) else (
    (fs.write_file d per_boot_flag_file []).0,
    record {
      metric = policy_files_metric;
      value = policy_files_status_code s;
      bound = max_policy_files_value;
    }
        ∷ [],
  )

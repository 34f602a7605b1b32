-- ===== src/LoginMetrics/Examples.antt =====
-- Codes of concrete states.
use chromiumos_platform_logi.LoginMetrics.{PolicyFilesStatus, good, malformed, not_present}

abbrev spoilt : PolicyFilesStatus
spoilt = record {
  owner_key_file_state = malformed;
  policy_file_state = good;
  defunct_prefs_file_state = not_present;
}

abbrev sound : PolicyFilesStatus
sound = record {
  owner_key_file_state = good;
  policy_file_state = good;
  defunct_prefs_file_state = not_present;
}

-- ===== src/Samples.antt =====
-- Concrete libraries and states for the runs in the Examples modules.
use chromiumos_platform_logi.Prelude.{true, false, some, none, [], ◌∷◌, ◌++◌, Text, codes, text_eq}
use chromiumos_platform_logi.Platform.Crypto.{NssLibrary}
use chromiumos_platform_logi.Platform.Messages.{PolicyFetchResponse, empty_response}
use chromiumos_platform_logi.Platform.SampleDisk.{SampleDisk, blank_disk, sample_files}
use chromiumos_platform_logi.Platform.SampleCodec.{sample_codec}
use chromiumos_platform_logi.PolicyKey.{PolicyKey, Beyond}
use chromiumos_platform_logi.PolicyService.{State}
use chromiumos_platform_logi.UserPolicyService.{Homes}
use chromiumos_platform_logi.DevicePolicyService.{DeviceService}
use chromiumos_platform_logi.SessionManager.{Env, Manager}
use chromiumos_platform_logi.SessionManager.Sessions.{Answers}

-- A signature is right if it is the key, and a slot holds the private half of every key.
abbrev pub sample_lib : NssLibrary
sample_lib = record {
  secmod_open_user_db = λ spec. some 5;
  need_user_init = λ slot. false;
  is_internal_key_slot = λ slot. false;
  decode_spki = λ der. some 7;
  extract_public_key = λ spki. some spki;
  is_rsa_key = λ key. true;
  make_id_from_pub_key = λ key. some key;
  find_key_by_key_id = λ slot id. some id;
  create_from_key = λ key. some key;
  generate_key_pair = λ slot size. some 8;
  export_public_key = λ key. some (codes "K");
  verify_init = λ algorithm signature key. true;
  verify_final = λ algorithm signature key content. text_eq signature key;
  signer_update = λ key content. true;
  signer_final = λ key content. some (codes "K");
}

abbrev pub sample_beyond : Beyond
sample_beyond i = 0

abbrev pub owner_key : PolicyKey
owner_key = record {
  key_file = codes "/owner.key";
  have_checked_disk = true;
  have_replaced = false;
  key = codes "K";
}

-- A policy that the key K signs and that rotates to the key L.
abbrev pub rotation : PolicyFetchResponse
rotation = record {
  policy_data = some (codes "data");
  policy_data_signature = some (codes "L");
  new_public_key = some (codes "L");
  new_public_key_signature = some (codes "K");
  other = [];
}

abbrev pub rotation_blob : Text
rotation_blob = sample_codec.serialize_to_array rotation

abbrev pub sample_state : State SampleDisk
sample_state = record {
  disk = blank_disk;
  key = owner_key;
  store = record { policy_path = codes "/policy"; policy = empty_response };
  has_delegate = true;
  posted = [];
  replies = [];
  notices = [];
}

abbrev pub sample_device : DeviceService SampleDisk
sample_device = record {
  state = sample_state;
  settings = none;
  mitigating = false;
  serial_recovery_flag_file = codes "/serial";
  policy_file = codes "/policy";
}

abbrev pub sample_homes : Homes
sample_homes = record {
  daemon_path = λ u. codes "/daemon/" ++ u;
  user_path = λ u. codes "/user/" ++ u;
  sanitize_user_name = λ u. 35 ∷ u;
  is_sanitized_user_name = λ u. true;
}

abbrev pub sample_env : Env SampleDisk
sample_env = record {
  fs = sample_files;
  lib = sample_lib;
  codec = sample_codec;
  homes = sample_homes;
  beyond = sample_beyond;
  guest_user_name = codes "$guest";
}

abbrev pub sample_answers : Answers
sample_answers = record { memory = λ i. 0; dev_mode = some false; mitigate = false; emitted = true }

abbrev pub sample_manager : Manager SampleDisk
sample_manager = record {
  session_started = false;
  session_stopping = false;
  screen_locked = false;
  cookie = codes "cookie";
  chrome_testing_path = [];
  device_policy = sample_device;
  device_local_account_dir = codes "/accounts";
  policy_map = [];
  user_sessions = [];
  posted = [];
  effects = [];
}

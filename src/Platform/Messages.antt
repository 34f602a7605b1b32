-- ===== src/Platform/Messages.antt =====
-- The generated protobuf classes, as far as the program reads and sets them. A field with presence
-- is an option; what the program never touches is carried along as `other`.
use chromiumos_platform_logi.Prelude.{
  ℕ, ◌≡◌, Bool, true, false, Option, none, some, List, [], length, Text,
}

pub record PolicyFetchResponse : Type 0 where
  pub policy_data : Option Text
  pub policy_data_signature : Option Text
  pub new_public_key : Option Text
  pub new_public_key_signature : Option Text
  pub other : Text

abbrev pub empty_response : PolicyFetchResponse
empty_response = record {
  policy_data = none;
  policy_data_signature = none;
  new_public_key = none;
  new_public_key_signature = none;
  other = [];
}

pub record PolicyData : Type 0 where
  pub policy_type : Option Text
  pub policy_value : Option Text
  pub username : Option Text
  pub request_token : Option Text
  pub valid_serial_number_missing : Bool
  pub unmanaged : Bool  -- whether `state` is UNMANAGED
  pub other : Text

abbrev pub empty_policy_data : PolicyData
empty_policy_data = record {
  policy_type = none;
  policy_value = none;
  username = none;
  request_token = none;
  valid_serial_number_missing = false;
  unmanaged = false;
  other = [];
}

pub record DeviceLocalAccountInfo : Type 0 where
  pub account_id : Option Text
  pub account_type : Option ℕ
  pub deprecated_public_session_id : Option Text

pub record ChromeDeviceSettings : Type 0 where
  pub user_whitelist : List Text
  pub allow_new_users : Option Bool
  pub start_up_flags : Option (List Text)
  pub device_local_accounts : List DeviceLocalAccountInfo
  pub other : Text

abbrev pub empty_settings : ChromeDeviceSettings
empty_settings = record {
  user_whitelist = [];
  allow_new_users = none;
  start_up_flags = none;
  device_local_accounts = [];
  other = [];
}

-- A string field that is absent reads as the empty string.
abbrev pub string_of : Option Text → Text
string_of none = []
string_of (some t) = t

-- A parser leaves a message behind also where it fails.
pub record Codec : Type 0 where
  pub parse_response : Text → PolicyFetchResponse × Bool
  pub serialize_response : PolicyFetchResponse → Option Text
  pub byte_size : PolicyFetchResponse → ℕ
  pub serialize_to_array : PolicyFetchResponse → Text
  pub parse_policy_data : Text → PolicyData × Bool
  pub serialize_policy_data : PolicyData → Text
  pub parse_settings : Text → ChromeDeviceSettings × Bool
  pub serialize_settings : ChromeDeviceSettings → Text

-- What a message serialises to parses back to it.
pub record CodecLaws (c : Codec) : Type 0 where
  pub parse_serialized :
      (m : PolicyFetchResponse) (b : Text)
      → c.serialize_response m ≡ some b
      → c.parse_response b ≡ (m, true)
  pub sized : (m : PolicyFetchResponse) → length (c.serialize_to_array m) ≡ c.byte_size m
  pub same_bytes :
      (m : PolicyFetchResponse) (b : Text)
      → c.serialize_response m ≡ some b
      → c.serialize_to_array m ≡ b
  pub parse_serialized_data :
      (m : PolicyData) → c.parse_policy_data (c.serialize_policy_data m) ≡ (m, true)
  pub parse_serialized_settings :
      (m : ChromeDeviceSettings) → c.parse_settings (c.serialize_settings m) ≡ (m, true)

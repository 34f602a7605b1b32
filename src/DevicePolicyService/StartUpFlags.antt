-- ===== src/DevicePolicyService/StartUpFlags.antt =====
-- `GetStartUpFlags` of device_policy_service.cc.
use chromiumos_platform_logi.Prelude.{
  ℕ, Bool, false, not, ◌||◌, none, some, List, [], ◌∷◌, ◌++◌, is_empty, Text, text_eq,
  if◌then◌else◌, length, leb, ◌==◌,
}
use chromiumos_platform_logi.Platform.Messages.{ChromeDeviceSettings}

abbrev pub dash : ℕ
dash = b'-'

-- A flag that the loop of `GetStartUpFlags` passes over.
unfoldable pub is_blank : Text → Bool
is_blank flag = is_empty flag || (text_eq flag (dash ∷ []) || text_eq flag (dash ∷ dash ∷ []))

abbrev pub starts_with_dash : Text → Bool
starts_with_dash [] = false
starts_with_dash (ch ∷ rest) = ch == dash

unfoldable pub prefixed : Text → Text
prefixed flag =
    if leb (length flag) 1 || not (starts_with_dash flag) then dash ∷ dash ∷ flag else flag

unfoldable pub start_up_args : List Text → List Text
start_up_args [] = []
start_up_args (f ∷ fs) =
    let rest = start_up_args fs in if is_blank f then rest else prefixed f ∷ rest

-- `begin` and `end` are the switches of chromeos/switches that frame the flags.
unfoldable pub get_start_up_flags : Text → Text → ChromeDeviceSettings → List Text
unfolding start_up_args
get_start_up_flags begin end policy = elim policy.start_up_flags [
  | none ↦ []
  | some flags ↦ (dash ∷ dash ∷ begin) ∷ (start_up_args flags ++ (dash ∷ dash ∷ end) ∷ [])
]

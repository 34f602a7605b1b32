-- ===== src/UpstartSignalEmitter/Examples.antt =====
-- The command for a session of ann@b.c.
use chromiumos_platform_logi.Prelude.{◌≡◌, refl, ◌⊎◌, false, [], ◌∷◌, Text, codes, text_eq}
use chromiumos_platform_logi.SessionManager.Strings.{g_char_to_string}
use chromiumos_platform_logi.SessionManager.Sessions.{user_name, is_incognito_name, start_session}
use chromiumos_platform_logi.UpstartSignalEmitter.Shell.{
  IsStartOf, shell_commands, start_session-shell_commands,
}
use chromiumos_platform_logi.Samples.{sample_env, sample_answers, sample_manager}

abbrev ann : Text
ann = codes "Ann@b.c"

ann_named : is_incognito_name sample_env (user_name sample_answers ann) ≡ false
unfolding is_incognito_name text_eq user_name g_char_to_string
    chromiumos_platform_logi.DeviceLocalAccounts.string_to_lower_ascii
    chromiumos_platform_logi.DeviceLocalAccounts.to_lower
ann_named = refl

start_session-shell_commands_example :
    let answer = start_session sample_env sample_answers ann sample_manager in
    let email = user_name sample_answers ann in
    ((cmd : Text) × (shell_commands answer.manager.effects ≡ cmd ∷ []) × IsStartOf email cmd)
    ⊎ ((shell_commands answer.manager.effects ≡ []) × (answer.success ≡ false))
start_session-shell_commands_example =
    start_session-shell_commands sample_env sample_answers ann sample_manager refl ann_named

-- ===== src/UpstartSignalEmitter.antt =====
-- upstart_signal_emitter.h and upstart_signal_emitter.cc: an Upstart signal, by way of the shell.
pub mod Shell
pub mod Examples
use chromiumos_platform_logi.Prelude.{
  Bool, true, false, not, ◌&&◌, Option, none, some, List, ◌++◌, Text, codes, if◌then◌else◌,
}
use chromiumos_platform_logi.ChildJob.{c_string}

-- What `system` is handed. `StringPrintf` takes its arguments as C strings.
unfoldable pub command : Text → Text → Text
unfolding c_string
command signal_name args_str =
    codes "/sbin/initctl emit " ++ (c_string signal_name ++ (codes " " ++ c_string args_str))

pub record Emitted : Type 0 where
  pub ran : Text  -- by the shell
  pub success : Bool
  pub error : Option Text  -- EMIT_FAILED with its message, if there is a place for it

-- `status_zero` tells whether the result of `system` is 0.
unfoldable pub emit_signal : (Text → Bool) → Bool → Text → Text → Emitted
unfolding command
emit_signal status_zero wants_error signal_name args_str =
    let ran = command signal_name args_str in
    let success = status_zero ran in
    record {
      ran = ran;
      success = success;
      error =
          if not success && wants_error
          then some (codes "Login error: Can't emit " ++ c_string signal_name)
          else none;
    }

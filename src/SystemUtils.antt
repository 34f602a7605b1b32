-- ===== src/SystemUtils.antt =====
-- system_utils.h and system_utils.cc: the wrapper around files, signals and processes.
pub mod Examples
pub mod Atomic
pub mod Children
use chromiumos_platform_logi.Prelude.{
  ℕ, ◌≡◌, Bool, true, false, not, ◌&&◌, Option, none, some, List, [], ◌∷◌, ◌++◌, length, Text,
  codes, ltb, leb, ◌==◌, if◌then◌else◌,
}
use chromiumos_platform_logi.Platform.Files.{FileSystem}

abbrev pub int_max : ℕ
int_max = 2147483647

-- The read, write and world-read bits, S_IRUSR | S_IWUSR | S_IROTH.
abbrev pub atomic_mode : ℕ
atomic_mode = 0o604

abbrev pub write_only_mode : ℕ
write_only_mode = 0o333

module _ {Disk : Type 0} (fs : FileSystem Disk) where
  unfoldable pub ensure_and_return_safe_file_size : Disk → Text → Option ℕ
  ensure_and_return_safe_file_size d file = elim (fs.get_file_size d file) [
    | none ↦ none
    | some size ↦ if ltb int_max size then none else some size
  ]

  unfoldable pub exists : Disk → Text → Bool
  exists d file = fs.path_exists d file

  unfoldable pub remove_file : Disk → Text → Disk × Bool
  remove_file d file = fs.delete d file false

  -- Renames the whole scratch file, then sets the mode.
  unfoldable pub publish : Disk → Text → Text → Disk × Bool
  publish d scratch file =
      let (d₁, moved) = fs.replace_file d scratch file in
      let (d₂, set) = fs.chmod d₁ file atomic_mode in if moved then (d₂, set) else (d₁, false)

  -- Fills the scratch file, and goes on only if every byte was written.
  unfoldable pub fill_and_publish : Disk → Text → Text → Text → Disk × Bool
  fill_and_publish d scratch file content =
      let (d₁, written) = fs.write_file d scratch content in
      elim written [
        | none ↦ (d₁, false)
        | some n ↦ if n == length content then publish d₁ scratch file else (d₁, false)
      ]

  unfoldable pub atomic_file_write : Disk → Text → Text → Disk × Bool
  atomic_file_write d file content =
      let (d₁, scratch) = fs.create_temporary_file_in_dir d (fs.dir_name file) in
      elim scratch [ none ↦ (d₁, false) | some s ↦ fill_and_publish d₁ s file content ]

  unfoldable pub hide_and_clear : Disk → Text → Text → Disk × Option Text
  unfolding remove_file
  hide_and_clear d dir file =
      let (d₁, hidden) = fs.chmod d dir write_only_mode in
      let (d₂, cleared) = remove_file d₁ file in
      if hidden then (d₂, if cleared then some file else none) else (d₁, none)

  unfoldable pub file_in_temp_dir : Disk → Text → Disk × Option Text
  unfolding hide_and_clear
  file_in_temp_dir d dir =
      let (d₁, made) = fs.create_temporary_file_in_dir d dir in
      elim made [ none ↦ (d₁, none) | some file ↦ hide_and_clear d₁ dir file ]

  unfoldable pub get_unique_filename_in_write_only_temp_dir : Disk → Disk × Option Text
  unfolding file_in_temp_dir
  get_unique_filename_in_write_only_temp_dir d =
      let (d₁, made) = fs.create_new_temp_directory d in
      elim made [ none ↦ (d₁, none) | some dir ↦ file_in_temp_dir d₁ dir ]

-- One return of waitpid: a child reaped, EINTR after so many seconds, ECHILD, or another error.
pub data Wait : Type 0 where
  reaped : Wait
  interrupted : ℕ → Wait
  no_child other_error : Wait

-- The loop of `ChildIsGone` over the returns of waitpid, `none` while more are to come.
unfoldable pub child_is_gone : ℕ → List Wait → Option Bool
child_is_gone timeout [] = none
child_is_gone timeout (reaped ∷ ws) = child_is_gone timeout ws
child_is_gone timeout (interrupted elapsed ∷ ws) =
    let rest = child_is_gone timeout ws in if ltb elapsed timeout then rest else some false
child_is_gone timeout (no_child ∷ ws) = some true
child_is_gone timeout (other_error ∷ ws) = some false

-- The process's real and effective user.
pub record Credentials : Type 0 where
  pub uid : ℕ
  pub euid : ℕ

-- What the kernel answers: to taking on a user, to the signal, to going back.
pub record KillAnswers : Type 0 where
  pub assumed : Bool
  pub delivered : Bool
  pub returned : Bool

-- `kill`: the credentials afterwards, whether the signal was sent, and whether the result is 0.
unfoldable pub kill :
    KillAnswers → Credentials → ℕ → record { after : Credentials; sent : Bool; success : Bool }
kill os c owner =
    let as_owner : Credentials = record { uid = owner; euid = owner } in
    elim os.assumed [
      | false ↦ record { after = c; sent = false; success = false }
      | true ↦ record {
        after = if os.returned then c else as_owner;
        sent = true;
        success = os.returned && os.delivered;
      }
    ]

-- The two D-Bus interfaces that every signal goes out on.
pub data Interface : Type 0 where
  chromium session_manager : Interface

pub record Signal : Type 0 where
  pub interface : Interface
  pub name : Text
  pub payload : List Text

-- An interface without a proxy is only logged.
unfoldable pub emit_signal_from : (Interface → Bool) → Interface → Text → List Text → List Signal
emit_signal_from proxy i name payload =
    if proxy i then record { interface = i; name = name; payload = payload } ∷ [] else []

unfoldable pub emit_signal_with_string_args : (Interface → Bool) → Text → List Text → List Signal
unfolding emit_signal_from
emit_signal_with_string_args proxy name payload =
    emit_signal_from proxy chromium name payload
    ++ emit_signal_from proxy session_manager name payload

unfoldable pub emit_signal : (Interface → Bool) → Text → List Signal
unfolding emit_signal_with_string_args
emit_signal proxy name = emit_signal_with_string_args proxy name []

unfoldable pub emit_status_signal : (Interface → Bool) → Text → Bool → List Signal
unfolding emit_signal_from
emit_status_signal proxy name status =
    let word = if status then codes "success" else codes "failure" in
    emit_signal_from proxy chromium name (word ∷ [])
    ++ emit_signal_from proxy session_manager name (word ∷ [])

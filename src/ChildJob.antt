-- ===== src/ChildJob.antt =====
-- child_job.h and child_job.cc: the job object that a child process is started from.
-- Times are unbounded numbers, and the account data and the results of the identity calls of
-- libc are arguments.
pub mod Argv
pub mod Restarts
pub mod Session
pub mod Identities
pub mod Examples
use chromiumos_platform_logi.Prelude.{
  ℕ, zero, suc, ◌+◌, Bool, true, false, not, Option, none, some, List, [], ◌∷◌, ◌++◌, length,
  replicate, is_empty, any, keep, Text, codes, text_eq, ltb, ◌==◌, if◌then◌else◌, Outcome, done,
  died, ◌>>=◌,
}

abbrev pub login_manager_flag : Text
login_manager_flag = codes "--login-manager"

abbrev pub login_user_flag : Text
login_user_flag = codes "--login-user="

abbrev pub login_profile_flag : Text
login_profile_flag = codes "--login-profile="

abbrev pub multi_profile_flag : Text
multi_profile_flag = codes "--multi-profiles"

abbrev pub restart_tries : ℕ
restart_tries = 4

abbrev pub restart_window_seconds : ℕ
restart_window_seconds = 60

abbrev pub cant_set_uid : ℕ
cant_set_uid = 127

abbrev pub cant_set_gid : ℕ
cant_set_gid = 128

abbrev pub cant_set_groups : ℕ
cant_set_groups = 129

abbrev pub cant_exec : ℕ
cant_exec = 255

pub record ChildJob : Type 0 where
  pub arguments : List Text
  pub login_arguments : List Text
  pub extra_arguments : List Text
  pub extra_one_time_arguments : List Text
  pub desired_uid : ℕ
  pub is_desired_uid_set : Bool
  pub start_times : List ℕ  -- a queue, its front first
  pub removed_login_manager_flag : Bool
  pub session_already_started : Bool
  pub support_multi_profile : Bool

-- `std::remove` and `erase` of one value.
abbrev pub without : Text → List Text → List Text
without flag = keep λ a. not (text_eq a flag)

-- The constructor.
unfoldable pub new : List Text → Bool → ChildJob
unfolding keep any text_eq
new arguments multi =
    let given = if multi then arguments ++ multi_profile_flag ∷ [] else arguments in
    let managed = any (λ a. text_eq a login_manager_flag) given in
    record {
      arguments = without login_manager_flag given;
      login_arguments = if managed then login_manager_flag ∷ [] else [];
      extra_arguments = [];
      extra_one_time_arguments = [];
      desired_uid = 0;
      is_desired_uid_set = false;
      start_times = replicate restart_tries 0;
      removed_login_manager_flag = managed;
      session_already_started = false;
      support_multi_profile = multi;
    }

-- `front` of a queue that is never empty here.
abbrev pub front : List ℕ → ℕ
front [] = 0
front (t ∷ ts) = t

abbrev pub pop : List ℕ → List ℕ
pop [] = []
pop (t ∷ ts) = ts

-- `time(NULL) - front < window` on signed times: a clock behind the front counts as inside.
unfoldable pub should_stop : ChildJob → ℕ → Bool
should_stop j now = ltb now (front j.start_times + restart_window_seconds)

unfoldable pub record_time : ChildJob → ℕ → ChildJob
record_time j now = record j { start_times = pop (j.start_times ++ now ∷ []) }

unfoldable pub start_session : ChildJob → Text → Text → ChildJob
start_session j email userhash =
    let profile = if j.support_multi_profile then userhash else codes "user" in
    let fresh = (login_user_flag ++ email) ∷ (login_profile_flag ++ profile) ∷ [] in
    record j {
      login_arguments = if j.session_already_started then j.login_arguments else fresh;
      session_already_started = true;
    }

unfoldable pub stop_session : ChildJob → ChildJob
stop_session j = record j {
  login_arguments = if j.removed_login_manager_flag then login_manager_flag ∷ [] else [];
  removed_login_manager_flag = false;
}

unfoldable pub set_desired_uid : ChildJob → ℕ → ChildJob
set_desired_uid j uid = record j { is_desired_uid_set = true; desired_uid = uid }

-- The program name, which `SetArguments` keeps.
abbrev pub argv0 : List Text → Text
argv0 [] = []
argv0 (a ∷ rest) = a

abbrev pub put_argv0 : Text → List Text → List Text
put_argv0 name [] = name ∷ []
put_argv0 name (a ∷ rest) = name ∷ rest

unfoldable pub set_arguments : ChildJob → List Text → ChildJob
set_arguments j arguments =
    let name = argv0 j.arguments in
    record j { arguments = if is_empty name then arguments else put_argv0 name arguments }

unfoldable pub set_extra_arguments : ChildJob → List Text → ChildJob
set_extra_arguments j arguments = record j { extra_arguments = arguments }

unfoldable pub set_one_time_arguments : ChildJob → List Text → ChildJob
set_one_time_arguments j arguments = record j { extra_one_time_arguments = arguments }

unfoldable pub clear_one_time_arguments : ChildJob → ChildJob
clear_one_time_arguments j = record j { extra_one_time_arguments = [] }

-- `base_name` stands for `FilePath::BaseName`.
unfoldable pub get_name : (Text → Text) → ChildJob → Text
get_name base_name j = base_name (argv0 j.arguments)

-- A C string ends at its first NUL, so does what `strncpy` copies.
unfoldable pub c_string : Text → Text
c_string [] = []
c_string (c ∷ cs) = let rest = c ∷ c_string cs in if c == 0 then [] else rest

-- One cell of the array: not yet written, NULL, or a string of its own.
pub data Cell : Type 0 where
  unwritten null : Cell
  str : Text → Cell

-- A write out of bounds is undefined in the source; here it changes nothing.
unfoldable pub write_cell : List Cell → ℕ → Cell → List Cell
write_cell [] i c = []
write_cell (x ∷ xs) zero c = c ∷ xs
write_cell (x ∷ xs) (suc i) c = x ∷ write_cell xs i c

-- The loop of `CopyArgsToArgv`; the caller adds up the sizes.
unfoldable pub copy_args_to_argv : List Text → List Cell → ℕ → List Cell
unfolding write_cell c_string
copy_args_to_argv [] argv i = argv
copy_args_to_argv (a ∷ rest) argv i =
    copy_args_to_argv rest (write_cell argv i (str (c_string a))) (suc i)

unfoldable pub create_argv : ChildJob → List Cell
unfolding copy_args_to_argv
create_argv j =
    let base = length arguments + length login_arguments + length extra_arguments in
    let once = not (is_empty extra_one_time_arguments) in
    let total = if once then base + length extra_one_time_arguments else base in
    let argv₀ = replicate (total + 1) unwritten in
    let argv₁ = copy_args_to_argv arguments argv₀ 0 in
    let argv₂ = copy_args_to_argv login_arguments argv₁ (length arguments) in
    let index = length arguments + length login_arguments in
    let argv₃ = copy_args_to_argv extra_arguments argv₂ index in
    let index' = index + length extra_arguments in
    let argv₄ = if once then copy_args_to_argv extra_one_time_arguments argv₃ index' else argv₃ in
    write_cell argv₄ total null
  where
    open j use {arguments, login_arguments, extra_arguments, extra_one_time_arguments}

-- Reading stops at NULL; an unwritten cell or the end would be undefined behaviour.
unfoldable pub read_argv : List Cell → List Text
read_argv [] = []
read_argv (unwritten ∷ cs) = []
read_argv (null ∷ cs) = []
read_argv (str s ∷ cs) = s ∷ read_argv cs

unfoldable pub export_argv : ChildJob → List Text
unfolding create_argv read_argv
export_argv j = read_argv (create_argv j)

-- The libc calls of `SetIDs`: the account's name and group, and whether each call succeeds.
pub record Identity : Type 0 where
  pub getpwuid : ℕ → Option (Text × ℕ)
  pub initgroups : Text → ℕ → Bool
  pub setgid : ℕ → Bool
  pub setuid : ℕ → Bool

-- The later of two failures wins.
abbrev pub blame : Bool → ℕ → ℕ → ℕ
blame ok code earlier = if ok then earlier else code

-- A null account entry is dereferenced. A failure of `setsid` is only logged.
unfoldable pub set_ids : Identity → ChildJob → Outcome ℕ
set_ids os j = elim j.is_desired_uid_set [
  | false ↦ done 0
  | true ↦ elim (os.getpwuid j.desired_uid) [
    | none ↦ died
    | some (name, gid) ↦ done (
        blame (os.setuid j.desired_uid) cant_set_uid
          (blame (os.setgid gid) cant_set_gid (blame (os.initgroups name gid) cant_set_groups 0)))
  ]
]

-- What becomes of the forked process: it exits with a code, or runs another program.
pub data Fate : Type 0 where
  exits : ℕ → Fate
  execs : List Text → Fate

-- `execv` stands for whether the call takes over the process.
unfoldable pub run : Identity → (List Text → Bool) → ChildJob → Outcome Fate
run os execv j = do
  code ← set_ids os j
  done (
      if code == 0
      then (if execv (export_argv j) then execs (export_argv j) else exits cant_exec)
      else exits code)

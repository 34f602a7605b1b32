-- ===== src/KeyGenerator.antt =====
-- key_generator.cc and regen_mitigator.cc: a child process makes the owner's key pair. The manager's
-- record of the running job is here as well (session_manager_service.cc `AdoptKeyGeneratorJob` and
-- `AbandonKeyGeneratorJob`). DCHECKs are debug checks and have no effect.
pub mod Jobs
pub mod Examples
use chromiumos_platform_logi.Prelude.{
  ℕ, ◌≡◌, Bool, true, false, not, ◌&&◌, Option, none, some, List, [], ◌∷◌, ◌++◌, is_some, Text,
  codes, ◌==◌, if◌then◌else◌,
}
use chromiumos_platform_logi.Platform.Files.{FileSystem}
use chromiumos_platform_logi.ChildJob
use chromiumos_platform_logi.ChildJob.{ChildJob}

abbrev pub keygen_executable : Text
keygen_executable = codes "/sbin/keygen"

abbrev pub temporary_key_filename : Text
temporary_key_filename = codes "key.pub"

pub record KeyGenerator : Type 0 where
  pub generating : Bool
  pub keygen_job : Option ChildJob
  pub key_owner_username : Text
  pub temporary_key_file : Text

unfoldable pub new : KeyGenerator
new = record {
  generating = false;
  keygen_job = none;
  key_owner_username = [];
  temporary_key_file = [];
}

-- `ChildJob::Spec`: a pid of -1 is `none`. A watcher is a source's id.
pub record Spec : Type 0 where
  pub job : Option ChildJob
  pub pid : Option ℕ
  pub watcher : ℕ

-- The generator, the manager's spec of its job, the disk and the result.
pub record Started (Disk : Type 0) : Type 0 where
  pub generator : KeyGenerator
  pub spec : Spec
  pub disk : Disk
  pub success : Bool

-- The job that is there, or a new one for the user's path and the file for the key.
unfoldable pub job_for : Option ChildJob → Text → Text → ChildJob
job_for (some job) key_path user_path = job
job_for none key_path user_path = ChildJob.new (keygen_executable ∷ key_path ∷ user_path ∷ []) false

module _ {Disk : Type 0} (fs : FileSystem Disk) where
  -- What follows once the old key file is gone. `fork` is the pid, `none` for a failure.
  unfoldable pub launch : Option ℕ → ℕ → Text → Text → ℕ → KeyGenerator → Spec → Disk → Started Disk
  launch fork watcher username user_path uid g spec d =
      let key_path = fs.append user_path temporary_key_filename in
      let job = job_for g.keygen_job key_path user_path in
      let job' = if uid == 0 then job else ChildJob.set_desired_uid job uid in
      let named = record g { key_owner_username = username; temporary_key_file = key_path } in
      elim fork [
        | none ↦ record {
          generator = record named { keygen_job = some job' };
          spec = spec;
          disk = d;
          success = false;
        }
        | some pid ↦ record {
          generator = record named { keygen_job = none; generating = true };
          spec = record { job = some job'; pid = some pid; watcher = watcher };
          disk = d;
          success = true;
        }
      ]

  -- `Start`, whose job the manager adopts.
  unfoldable pub start :
      (Text → Text) → Option ℕ → ℕ → Text → ℕ → KeyGenerator → Spec → Disk → Started Disk
  start user_path_of fork watcher username uid g spec d =
      let user_path = user_path_of username in
      let (d', gone) = fs.delete d (fs.append user_path temporary_key_filename) false in
      if gone
      then launch fork watcher username user_path uid g spec d'
      else record { generator = g; spec = spec; disk = d'; success = false }

unfoldable pub reset : KeyGenerator → KeyGenerator
reset g = record g { key_owner_username = []; temporary_key_file = []; generating = false }

unfoldable pub abandon : Spec → Spec
abandon s = record {
  job = none;
  pid = none;
  watcher = elim s.pid [ none ↦ s.watcher | some p ↦ if p == 0 then s.watcher else 0 ];
}

-- How a child ended.
pub data ExitStatus : Type 0 where
  exited signalled : ℕ → ExitStatus

-- What `HandleKeygenExit` hands to the manager: the user and the file of a key that was made.
pub record Finished : Type 0 where
  pub generator : KeyGenerator
  pub spec : Spec
  pub new_key : Option (Text × Text)

unfoldable pub handle_keygen_exit : ExitStatus → KeyGenerator → Spec → Finished
unfolding reset abandon
handle_keygen_exit status g spec = record {
  generator = reset g;
  spec = abandon spec;
  new_key = elim status [
    | exited code ↦ if code == 0 then some (g.key_owner_username, g.temporary_key_file) else none
    | signalled _ ↦ none
  ];
}

-- `RegenMitigator::Mitigate`: its state is the result of the start.
unfoldable pub mitigate_uid : Bool → ℕ → ℕ
mitigate_uid set_uid uid = if set_uid then uid else 0

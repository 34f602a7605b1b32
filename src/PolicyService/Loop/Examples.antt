-- ===== src/PolicyService/Loop/Examples.antt =====
-- A rotation is called, its key written, a second call refused, then the policy written.
use chromiumos_platform_logi.Prelude.{
  ℕ, ◌+◌, ◌≡◌, refl, true, false, some, none, List, [], ◌∷◌, Text, codes, done, length, replicate,
  arith,
}
use chromiumos_platform_logi.Platform.SampleDisk.{
  SampleDisk, blank_disk, put, sample_files, sample_laws,
}
use chromiumos_platform_logi.Platform.SampleCodec.{sample_codec}
use chromiumos_platform_logi.SystemUtils.{atomic_file_write}
use chromiumos_platform_logi.PolicyKey
use chromiumos_platform_logi.PolicyStore
use chromiumos_platform_logi.PolicyService.{
  State, success, failure, key_rotate, signature_error, key_persisted, policy_persisted, has_flag,
  store,
}
use chromiumos_platform_logi.PolicyService.Loop.{
  Event, call, turn, run, step, replied, pending, called, IsSane,
}
use chromiumos_platform_logi.PolicyService.Loop.Completion.{calls_answered_once}
use chromiumos_platform_logi.PolicyService.Loop.Register.{Moves, Holds}
use chromiumos_platform_logi.PolicyService.Loop.Durability.{
  view, IsSaved, Called, run-Moves, run-saves-genuine,
}
use chromiumos_platform_logi.Samples.{
  sample_lib, sample_beyond, owner_key, rotation, rotation_blob, sample_state,
}

abbrev unsigned_blob : Text
unsigned_blob =
    sample_codec.serialize_to_array
      (record rotation { policy_data_signature = some (codes "X"); new_public_key = none })

abbrev schedule : List Event
schedule = call rotation_blob 1 key_rotate ∷ turn ∷ call unsigned_blob 2 key_rotate ∷ turn ∷ []

abbrev old_disk : SampleDisk
old_disk = put blank_disk (codes "/policy") (some (codes "old"))

abbrev old_state : State SampleDisk
old_state = record sample_state { disk = old_disk }

abbrev key_written : SampleDisk
unfolding atomic_file_write
key_written = (atomic_file_write sample_files old_disk (codes "/owner.key") (codes "L")).0

abbrev policy_written : SampleDisk
unfolding atomic_file_write
policy_written = (atomic_file_write sample_files key_written (codes "/policy") rotation_blob).0

abbrev final_state : State SampleDisk
final_state = record sample_state {
  disk = policy_written;
  key = record owner_key { key = codes "L"; have_replaced = true };
  store = record { policy_path = codes "/policy"; policy = rotation };
  replies = failure 2 signature_error ∷ success 1 ∷ [];
  notices = key_persisted true ∷ policy_persisted true ∷ [];
}

schedule_runs :
    run sample_files sample_lib sample_beyond sample_codec old_state schedule ≡ done final_state
unfolding run step store chromiumos_platform_logi.PolicyService.store_policy
    chromiumos_platform_logi.PolicyService.has_other_key PolicyKey.equals PolicyKey.v_equals
    chromiumos_platform_logi.PolicyService.install_key
    chromiumos_platform_logi.PolicyService.clobber_if_allowed
    chromiumos_platform_logi.PolicyService.rotate_or_install PolicyKey.is_populated has_flag
    PolicyKey.rotate PolicyKey.verify chromiumos_platform_logi.NssUtil.verify
    chromiumos_platform_logi.Prelude.text_eq chromiumos_platform_logi.NssUtil.blob_from_buffer
    PolicyKey.clobber_compromised_key PolicyKey.persist PolicyKey.populate_from_buffer
    PolicyKey.same_bytes chromiumos_platform_logi.PolicyService.Loop.turn_by
    chromiumos_platform_logi.PolicyService.after_install
    chromiumos_platform_logi.PolicyService.complete chromiumos_platform_logi.PolicyService.notify
    chromiumos_platform_logi.PolicyService.on_key_persisted
    chromiumos_platform_logi.PolicyService.on_policy_persisted
    chromiumos_platform_logi.PolicyService.persist_key_on_loop
    chromiumos_platform_logi.PolicyService.persist_policy_on_loop
    chromiumos_platform_logi.PolicyService.post
    chromiumos_platform_logi.PolicyService.post_persist_key
    chromiumos_platform_logi.PolicyService.post_persist_policy
    chromiumos_platform_logi.PolicyService.reply chromiumos_platform_logi.PolicyService.run_task
    chromiumos_platform_logi.PolicyService.verify_and_store PolicyStore.persist PolicyStore.set
    atomic_file_write chromiumos_platform_logi.SystemUtils.fill_and_publish
    chromiumos_platform_logi.SystemUtils.publish chromiumos_platform_logi.SystemUtils.remove_file
schedule_runs = refl

run-Moves_example :
    (b' : Text) × IsSaved sample_files final_state b'
    × Moves sample_lib sample_beyond sample_codec
        (Called sample_codec schedule)
        (view old_state (codes "old"))
        (view final_state b')
unfolding chromiumos_platform_logi.Prelude.text_eq
run-Moves_example =
    run-Moves sample_files sample_laws sample_lib sample_beyond sample_codec old_state final_state
      (codes "old") schedule schedule_runs (λ e. cc) refl

run-saves-genuine_example :
    (b' : Text) × IsSaved sample_files final_state b'
    × Holds sample_lib sample_beyond sample_codec
        (Called sample_codec schedule)
        old_state.key
        old_state.store.policy
        (codes "old")
        (view final_state b')
unfolding chromiumos_platform_logi.Prelude.text_eq
run-saves-genuine_example =
    run-saves-genuine sample_files sample_laws sample_lib sample_beyond sample_codec old_state
      final_state (codes "old") schedule schedule_runs (λ e. cc) refl

schedule-IsSane : IsSane schedule
unfolding IsSane has_flag
schedule-IsSane = (λ e. cc, (λ e. cc, tt))

calls_answered_once_example :
    (s' s'' : State SampleDisk) × (run sample_files sample_lib sample_beyond sample_codec
        sample_state schedule
      ≡ done s')
    × (run sample_files sample_lib sample_beyond sample_codec s' (replicate (length s'.posted) turn)
        ≡ done s'')
    × (s''.posted ≡ [])
    × ((k : ℕ) → replied k s''.replies ≡ replied k [] + pending k [] + called k schedule)
calls_answered_once_example =
    calls_answered_once sample_files sample_lib sample_beyond sample_codec sample_state schedule
      schedule-IsSane refl

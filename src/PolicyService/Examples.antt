-- ===== src/PolicyService/Examples.antt =====
-- One rotation of the key, accepted and written, and one policy that is refused.
use chromiumos_platform_logi.Prelude.{
  ℕ, ◌≡◌, ◌≢◌, ◌⊎◌, refl, true, false, Bool, Option, some, none, is_some, List, [], ◌∷◌, ◌++◌, Text,
  codes, done, died, Outcome,
}
use chromiumos_platform_logi.Platform.SampleDisk.{SampleDisk}
use chromiumos_platform_logi.Platform.SampleCodec.{sample_codec, sample_codec_laws}
use chromiumos_platform_logi.Platform.Messages.{PolicyFetchResponse}
use chromiumos_platform_logi.PolicyKey
use chromiumos_platform_logi.PolicyStore
use chromiumos_platform_logi.PolicyService.{
  State, Reply, Error, success, failure, persist_key, persist_policy, key_rotate, store,
  store_policy, install_key, rotate_or_install, has_other_key, has_flag, after_install, retrieve,
  run_tasks, run_task, signature_error, complete, notify, on_key_persisted, on_policy_persisted,
  key_persisted, policy_persisted,
}
use chromiumos_platform_logi.PolicyService.Storing.{
  Accepted, Refused, store-Accepted, store-Refused,
}
use chromiumos_platform_logi.PolicyService.Replies.{retrieve-store}
use chromiumos_platform_logi.Samples.{
  sample_lib, sample_beyond, owner_key, rotation, rotation_blob, sample_state,
}

abbrev pub rotated : State SampleDisk
rotated = record sample_state {
  key = record owner_key { key = codes "L"; have_replaced = true };
  store = record { policy_path = codes "/policy"; policy = rotation };
  posted = persist_key ∷ persist_policy (some 1) ∷ [];
}

store_rotates :
    store sample_lib sample_beyond sample_codec rotation_blob 1 key_rotate sample_state
    ≡ done (rotated, true)
unfolding store store_policy install_key rotate_or_install has_other_key has_flag after_install
    PolicyKey.equals PolicyKey.v_equals chromiumos_platform_logi.PolicyService.clobber_if_allowed
    PolicyKey.is_populated PolicyKey.rotate PolicyKey.verify chromiumos_platform_logi.NssUtil.verify
    chromiumos_platform_logi.Prelude.text_eq chromiumos_platform_logi.NssUtil.blob_from_buffer
    PolicyStore.set
store_rotates = refl

store-Accepted_example :
    (true ≡ true)
    × (is_some rotation.policy_data ≡ true)
    × (is_some rotation.policy_data_signature ≡ true)
    × Accepted sample_lib sample_beyond rotation 1 key_rotate sample_state rotated
store-Accepted_example =
    store-Accepted sample_lib sample_beyond sample_codec rotation_blob 1 key_rotate sample_state
      rotated store_rotates

abbrev unsigned : PolicyFetchResponse
unsigned = record rotation { policy_data_signature = some (codes "X"); new_public_key = none }

abbrev told : State SampleDisk
told = record sample_state { replies = failure 2 signature_error ∷ [] }

store_refuses :
    store sample_lib sample_beyond sample_codec
      (sample_codec.serialize_to_array unsigned)
      2
      key_rotate
      sample_state
    ≡ done (told, false)
unfolding store store_policy has_other_key chromiumos_platform_logi.PolicyService.verify_and_store
    PolicyKey.verify chromiumos_platform_logi.NssUtil.verify
    chromiumos_platform_logi.Prelude.text_eq
store_refuses = refl

store-Refused_example : Refused sample_lib sample_beyond unsigned 2 key_rotate sample_state told
store-Refused_example =
    store-Refused sample_lib sample_beyond sample_codec (sample_codec.serialize_to_array unsigned) 2
      key_rotate sample_state told store_refuses

retrieve-store_example :
    ((retrieve sample_codec rotated).1 ≡ true)
    × (sample_codec.parse_response (retrieve sample_codec rotated).0 ≡ (rotation, true))
retrieve-store_example =
    retrieve-store sample_lib sample_beyond sample_codec sample_codec_laws rotation_blob
      rotation_blob 1 key_rotate sample_state rotated store_rotates refl

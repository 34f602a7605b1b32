-- ===== src/PolicyStore/Examples.antt =====
-- A policy stored and loaded.
use chromiumos_platform_logi.Prelude.{◌≡◌, refl, true, codes}
use chromiumos_platform_logi.Platform.SampleDisk.{blank_disk, sample_files, sample_laws}
use chromiumos_platform_logi.Platform.SampleCodec.{sample_codec, sample_codec_laws}
use chromiumos_platform_logi.SystemUtils.{atomic_file_write}
use chromiumos_platform_logi.PolicyStore.{PolicyStore, new, persist, load_or_create}
use chromiumos_platform_logi.PolicyStore.Storage.{load_or_create-persist}
use chromiumos_platform_logi.Samples.{rotation, rotation_blob}

abbrev kept : PolicyStore
kept = record { policy_path = codes "/policy"; policy = rotation }

persisted : (persist sample_files sample_codec kept blank_disk).1 ≡ true
unfolding persist atomic_file_write chromiumos_platform_logi.SystemUtils.fill_and_publish
    chromiumos_platform_logi.SystemUtils.publish chromiumos_platform_logi.Prelude.text_eq
persisted = refl

load_or_create-persist_example :
    load_or_create sample_files sample_codec
      (new (codes "/policy"))
      (persist sample_files sample_codec kept blank_disk).0
    ≡ record {
      store = kept;
      disk = (persist sample_files sample_codec kept blank_disk).0;
      success = true;
    }
load_or_create-persist_example =
    load_or_create-persist sample_files sample_laws sample_codec sample_codec_laws kept blank_disk
      rotation_blob refl (λ h. cc) persisted

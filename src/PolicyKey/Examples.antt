-- ===== src/PolicyKey/Examples.antt =====
-- Runs of policy_key.cc with a library that takes the key itself for its signature.
use chromiumos_platform_logi.Prelude.{
  ℕ, ◌≡◌, ◌↔◌, ◌≤◌, refl, arith, true, false, Option, some, none, List, [], ◌∷◌, ◌++◌, Text, codes,
  take, length, done, Outcome,
}
use chromiumos_platform_logi.SystemUtils.{atomic_file_write, int_max}
use chromiumos_platform_logi.Platform.SampleDisk.{SampleDisk, blank_disk, sample_files, sample_laws}
use chromiumos_platform_logi.PolicyKey.{new, v_equals, persist, populate_from_disk_if_possible}
use chromiumos_platform_logi.PolicyKey.Trust.{
  Change, buffer, rotation, Endorsed, changes, changes-Endorsed,
}
use chromiumos_platform_logi.PolicyKey.Equality.{v_equals-iff-prefix}
use chromiumos_platform_logi.PolicyKey.Storage.{populate-persist}
use chromiumos_platform_logi.Samples.{sample_lib, sample_beyond, owner_key}

abbrev history : List Change
history =
    rotation (codes "L") (codes "K") ∷ buffer (codes "M") ∷ rotation (codes "N") (codes "bad") ∷ []

changes-Endorsed_example :
    Endorsed sample_lib (codes "K") (changes sample_lib owner_key history).key
changes-Endorsed_example =
    changes-Endorsed sample_lib owner_key history (λ h. cc) ((λ h. cc), (tt, ((λ h. cc), tt)))

v_equals-iff-prefix_example :
    (v_equals sample_beyond owner_key (codes "KLM") ≡ true)
    ↔ (take (length owner_key.key) (codes "KLM") ≡ owner_key.key)
v_equals-iff-prefix_example =
    v_equals-iff-prefix sample_beyond owner_key (codes "KLM") (λ h. cc) (omega arith)

abbrev written : SampleDisk
unfolding atomic_file_write
written = (atomic_file_write sample_files blank_disk (codes "/owner.key") (codes "K")).0

written_done : persist sample_files owner_key blank_disk ≡ done (written, true)
unfolding persist atomic_file_write chromiumos_platform_logi.SystemUtils.fill_and_publish
    chromiumos_platform_logi.SystemUtils.publish chromiumos_platform_logi.Prelude.text_eq
written_done = refl

populate-persist_example :
    populate_from_disk_if_possible sample_files sample_lib (new (codes "/owner.key")) written
    ≡ (record (new (codes "/owner.key")) { have_checked_disk = true; key = codes "K" }, true)
unfolding chromiumos_platform_logi.NssUtil.check_public_key_blob
    chromiumos_platform_logi.NssUtil.decode_public_key
populate-persist_example =
    populate-persist sample_files sample_laws sample_lib owner_key blank_disk written (λ h. cc)
      (omega arith) refl written_done

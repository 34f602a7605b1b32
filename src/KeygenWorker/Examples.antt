-- ===== src/KeygenWorker/Examples.antt =====
-- The tool makes a pair in the user's slot and writes its public key.
use chromiumos_platform_logi.Prelude.{
  ℕ, ◌≡◌, refl, true, false, some, is_some, Text, text_eq, codes, done,
}
use chromiumos_platform_logi.Platform.SampleDisk.{
  SampleDisk, blank_disk, put, sample_files, sample_laws,
}
use chromiumos_platform_logi.SystemUtils.{atomic_file_write}
use chromiumos_platform_logi.KeygenWorker.{NssDisk, NssDiskLaws, generate_key}
use chromiumos_platform_logi.KeygenWorker.Keys.{IsNewKey, generate_key_lem}
use chromiumos_platform_logi.NssUtil.{open_user_db, generate_key_pair_for_user}
use chromiumos_platform_logi.Samples.{sample_lib}

abbrev key_path : Text
key_path = codes "/home/key.pub"

abbrev home_disk : SampleDisk
home_disk = put blank_disk (codes "/home/.pki/nssdb") (some (codes "db"))

-- NSS adds the pair to its database.
abbrev nss : NssDisk SampleDisk
nss = record {
  opened = λ d home. d;
  generated = λ d slot. put d (codes "/home/.pki/nssdb") (some (codes "db with a pair"));
}

abbrev nss_laws : NssDiskLaws sample_files nss key_path
unfolding text_eq
nss_laws = record { opened_keeps = λ d home. refl; generated_keeps = λ d slot. refl }

abbrev with_key : SampleDisk
unfolding atomic_file_write
with_key = (atomic_file_write sample_files (nss.generated home_disk 5) key_path (codes "K")).0

tool_runs :
    generate_key sample_files sample_lib nss
      (λ d base path uid. true)
      1000
      key_path
      (codes "/home")
      home_disk
    ≡ done (with_key, 0)
unfolding generate_key chromiumos_platform_logi.PolicyKey.populate_from_disk_if_possible
    chromiumos_platform_logi.Prelude.text_eq chromiumos_platform_logi.PolicyKey.new
    chromiumos_platform_logi.PolicyKey.is_populated chromiumos_platform_logi.NssUtil.open_user_db
    chromiumos_platform_logi.NssUtil.generate_key_pair_for_user
    chromiumos_platform_logi.PolicyKey.populate_from_keypair
    chromiumos_platform_logi.PolicyKey.populate_from_buffer
    chromiumos_platform_logi.PolicyKey.persist with_key atomic_file_write
    chromiumos_platform_logi.SystemUtils.fill_and_publish
    chromiumos_platform_logi.SystemUtils.publish
tool_runs = refl

generate_key_lem_example :
    (true ≡ true)
    × ((slot : ℕ) × (open_user_db sample_lib sample_files.append (codes "/home") ≡ some slot)
        × (is_some (generate_key_pair_for_user sample_lib slot) ≡ true)
        × (sample_files.path_exists home_disk key_path ≡ true
            → (◌≡◌ {A = ℕ} 0 1) × (with_key ≡ nss.generated home_disk slot)))
    × (◌≡◌ {A = ℕ} 0 0
        → IsNewKey sample_files sample_lib key_path (codes "/home") home_disk with_key)
generate_key_lem_example =
    generate_key_lem sample_files sample_laws sample_lib nss (λ d base path uid. true) 1000 key_path
      (codes "/home") home_disk nss_laws with_key 0 tool_runs

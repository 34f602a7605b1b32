-- ===== src/PolicyKey.antt =====
-- policy_key.h and policy_key.cc: the key that policy is verified with.
pub mod Equality
pub mod Examples
pub mod Trust
pub mod Storage
use chromiumos_platform_logi.Prelude.{
  ℕ, zero, suc, ◌+◌, ◌≡◌, Bool, true, false, not, ◌&&◌, ◌||◌, Option, none, some, List, [], ◌∷◌,
  ◌++◌, length, is_empty, Text, ◌==◌, if◌then◌else◌, Outcome, done, died, ◌>>=◌, is_some,
}
use chromiumos_platform_logi.Platform.Files.{FileSystem}
use chromiumos_platform_logi.Platform.Crypto.{NssLibrary}
use chromiumos_platform_logi.SystemUtils.{
  ensure_and_return_safe_file_size, remove_file, atomic_file_write,
}
use chromiumos_platform_logi.NssUtil

abbrev pub sha1_with_rsa : Text
sha1_with_rsa =
    0x30 ∷ 0x0d ∷ 0x06 ∷ 0x09 ∷ 0x2a ∷ 0x86 ∷ 0x48 ∷ 0x86 ∷ 0xf7 ∷ 0x0d ∷ 0x01 ∷ 0x01 ∷ 0x05 ∷ 0x05
    ∷ 0x00 ∷ []

pub record PolicyKey : Type 0 where
  pub key_file : Text
  pub have_checked_disk : Bool
  pub have_replaced : Bool
  pub key : Text

unfoldable pub new : Text → PolicyKey
new file = record { key_file = file; have_checked_disk = false; have_replaced = false; key = [] }

-- The bytes that lie behind the end of a buffer in memory, by their distance from it.
abbrev pub Beyond : Type 0
Beyond = ℕ → ℕ

-- `memcmp(a, b, |b|) == 0`, which reads past the end of a shorter `a`.
unfoldable pub same_bytes : Beyond → Text → Text → Bool
same_bytes beyond xs [] = true
same_bytes beyond [] (y ∷ ys) = beyond 0 == y && same_bytes (λ i. beyond (suc i)) [] ys
same_bytes beyond (x ∷ xs) (y ∷ ys) = x == y && same_bytes beyond xs ys

unfoldable pub v_equals : Beyond → PolicyKey → Text → Bool
unfolding same_bytes
v_equals beyond k key_der =
    let both = if is_empty k.key then is_empty key_der else not (is_empty key_der) in
    both && same_bytes beyond key_der k.key

unfoldable pub equals : Beyond → PolicyKey → Text → Bool
equals beyond k key_der = v_equals beyond k key_der

unfoldable pub is_populated : PolicyKey → Bool
is_populated k = not (is_empty k.key)

unfoldable pub populate_from_buffer : PolicyKey → Text → PolicyKey × Bool
unfolding is_populated
populate_from_buffer k der =
    if k.have_checked_disk && not (is_populated k)
    then (record k { key = der }, true)
    else (k, false)

module _ (lib : NssLibrary) where
  unfoldable pub verify : PolicyKey → Text → Text → Bool
  verify k content signature = NssUtil.verify lib sha1_with_rsa signature content k.key

  unfoldable pub populate_from_keypair : PolicyKey → Option ℕ → PolicyKey × Bool
  populate_from_keypair k pair = elim pair [
    | none ↦ (k, false)
    | some key ↦ elim (lib.export_public_key key) [
      | none ↦ (k, false)
      | some der ↦ populate_from_buffer k der
    ]
  ]

  unfoldable pub rotate : PolicyKey → Text → Text → PolicyKey × Bool
  unfolding is_populated
  rotate k der signature =
      if is_populated k && verify k der signature
      then (record k { key = der; have_replaced = true }, true)
      else (k, false)

-- The two CHECKs end the process.
unfoldable pub clobber_compromised_key : PolicyKey → Text → Outcome (PolicyKey × Bool)
unfolding is_populated
clobber_compromised_key k der =
    if k.have_checked_disk && is_populated k
    then done (record k { key = der; have_replaced = true }, true)
    else died

module _ {Disk : Type 0} (fs : FileSystem Disk) where
  -- The bytes are kept if all of them were read, whether or not they are then a key.
  unfoldable pub take_read : NssLibrary → PolicyKey → ℕ → Option Text → PolicyKey × Bool
  take_read lib k size none = (record k { key = [] }, false)
  take_read lib k size (some bytes) =
      if length bytes == size
      then (record k { key = bytes }, NssUtil.check_public_key_blob lib bytes)
      else (record k { key = [] }, false)

  unfoldable pub populate_from_disk_if_possible : NssLibrary → PolicyKey → Disk → PolicyKey × Bool
  unfolding take_read
  populate_from_disk_if_possible lib k d =
      let checked = record k { have_checked_disk = true } in
      let loaded : PolicyKey × Bool = elim (ensure_and_return_safe_file_size fs d k.key_file) [
        | none ↦ (checked, false)
        | some size ↦ take_read lib checked size (fs.read_file d k.key_file size)
      ] in
      if fs.path_exists d k.key_file then loaded else (checked, true)

  unfoldable pub persist : PolicyKey → Disk → Outcome (Disk × Bool)
  persist k d =
      let written =
        if is_empty k.key
        then remove_file fs d k.key_file
        else atomic_file_write fs d k.key_file k.key in
      let allowed =
        if not k.have_replaced && fs.path_exists d k.key_file then (d, false) else written in
      if k.have_checked_disk then done allowed else died

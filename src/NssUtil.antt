-- ===== src/NssUtil.antt =====
-- nss_util.cc: the program's view of NSS. NOTREACHED is a debug check, so such a branch returns.
use chromiumos_platform_logi.Prelude.{
  ℕ, Bool, ◌&&◌, Option, none, some, ◌++◌, is_empty, is_some, Text, codes, if◌then◌else◌,
}
use chromiumos_platform_logi.Platform.Crypto.{NssLibrary}

abbrev pub owner_key_file : Text
owner_key_file = codes "/var/lib/whitelist/owner.key"

abbrev pub nssdb_subpath : Text
nssdb_subpath = codes ".pki/nssdb"

abbrev pub key_size_in_bits : ℕ
key_size_in_bits = 2048

-- The copy of a string into a vector of bytes.
unfoldable pub blob_from_buffer : Text → Text
blob_from_buffer buf = buf

module _ (lib : NssLibrary) where
  -- `append` stands for `FilePath::AppendASCII`.
  unfoldable pub open_user_db : (Text → Text → Text) → Text → Option ℕ
  open_user_db append user_homedir =
      let modspec =
        codes "configDir='sql:"
        ++ (append user_homedir nssdb_subpath
            ++ (codes "' tokenDescription='" ++ (user_homedir ++ codes "'"))) in
      elim (lib.secmod_open_user_db modspec) [
        | none ↦ none
        | some slot ↦ if lib.is_internal_key_slot slot then none else some slot
      ]

  unfoldable pub find_private_key : ℕ → ℕ → Option ℕ
  find_private_key slot public_key = elim (lib.make_id_from_pub_key public_key) [
    | none ↦ none
    | some ck_id ↦ elim (lib.find_key_by_key_id slot ck_id) [
      | none ↦ none
      | some key ↦ lib.create_from_key key
    ]
  ]

  unfoldable pub decode_public_key : Text → Option ℕ
  decode_public_key blob = elim (lib.decode_spki blob) [
    | none ↦ none
    | some spki ↦ lib.extract_public_key spki
  ]

  unfoldable pub get_private_key_for_user : Text → ℕ → Option ℕ
  get_private_key_for_user public_key_der slot =
      let found : Option ℕ = elim (decode_public_key public_key_der) [
        | none ↦ none
        | some key ↦ if lib.is_rsa_key key then find_private_key slot key else none
      ] in
      if is_empty public_key_der then none else found

  unfoldable pub generate_key_pair_for_user : ℕ → Option ℕ
  generate_key_pair_for_user slot = elim (lib.generate_key_pair slot key_size_in_bits) [
    | none ↦ none
    | some key ↦ lib.create_from_key key
  ]

  unfoldable pub check_public_key_blob : Text → Bool
  check_public_key_blob blob = is_some (decode_public_key blob)

  unfoldable pub verify : Text → Text → Text → Text → Bool
  verify algorithm signature content public_key =
      lib.verify_init algorithm signature public_key
      && lib.verify_final algorithm signature public_key content

  unfoldable pub sign : Text → ℕ → Option Text
  sign content key = if lib.signer_update key content then lib.signer_final key content else none

-- ===== src/XauthCookie/Examples.antt =====
-- A stream that is a file's name with the bytes for it, and files as a function of the name.
use chromiumos_platform_logi.Prelude.{
  ◌≡◌, refl, true, Option, some, none, [], ◌∷◌, ◌++◌, Text, codes, text_eq, text_eq_refl,
  if◌then◌else◌,
}
use chromiumos_platform_logi.XauthCookie.{Stdio, StdioLaws, family, address, number, name, run_tool}
use chromiumos_platform_logi.XauthCookie.Fields.{read_authority, run_tool-read}

-- Every file is empty when it is opened for writing.
abbrev truncating : Stdio (Text → Option Text) (Text × Text)
truncating = record {
  fopen = λ f path. some (path, []);
  fwrite = λ fp item. ((fp.0, fp.1 ++ item), 1);
  flush_at_exit = λ f fp. (λ path. if text_eq path fp.0 then some fp.1 else f path, true);
}

opened :
    (path : Text) (fp : Text × Text)
    → ◌≡◌ {A = Option (Text × Text)} (some (path, [])) (some fp)
    → (fp.0 ≡ path) × (fp.1 ≡ [])
opened path (n, bytes) h = (cc, cc)

abbrev truncating_laws : StdioLaws truncating
truncating_laws = record {
  contents = λ fp. fp.1;
  name_of = λ fp. fp.0;
  read = λ f path. f path;
  fopen_empty = λ f path fp h. (opened path fp h).1;
  fwrite_appends = λ fp item h. refl;
  fopen_named = λ f path fp h. (opened path fp h).0;
  fwrite_named = λ fp item. refl;
  flushed_whole = λ f fp h. rw (text_eq_refl fp.0) refl;
}

abbrev random : Text
random = codes "0123456789abcdef"

abbrev empty_disk : Text → Option Text
empty_disk path = none

run_tool-read_example :
    let tool = run_tool truncating empty_disk (codes "/x") (some random) [] [] in
    (bytes : Text) × (tool.files (codes "/x") ≡ some bytes)
    × (read_authority bytes ≡ some (family, address ∷ number ∷ name ∷ random ∷ []))
unfolding chromiumos_platform_logi.XauthCookie.make_cookie run_tool
    chromiumos_platform_logi.XauthCookie.at_exit chromiumos_platform_logi.XauthCookie.xauth_main
run_tool-read_example =
    run_tool-read truncating truncating_laws empty_disk (codes "/x") (some random) [] [] refl refl
      refl

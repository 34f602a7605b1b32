-- ===== src/Platform/SampleDisk.antt =====
-- A disk on which every call behaves: a map from paths to contents. It shows that the laws can hold.
use chromiumos_platform_logi.Prelude.{
  ℕ, ◌≡◌, ◌≢◌, refl, ◌∙◌, Bool, true, false, Option, none, some, [], ◌++◌, take, length, Text,
  codes, text_eq, text_eq→eq, text_eq_refl, if◌then◌else◌, is_some, arith, Bool-cases, inl, inr,
}
use chromiumos_platform_logi.Platform.Files.{FileSystem, FileLaws}

abbrev pub SampleDisk : Type 0
SampleDisk = Text → Option Text

abbrev pub blank_disk : SampleDisk
blank_disk p = none

abbrev pub put : SampleDisk → Text → Option Text → SampleDisk
put d p c q = if text_eq q p then c else d q

abbrev scratch : Text → Text
scratch dir = dir ++ codes "/scratch"

abbrev sample_size : Option Text → Option ℕ
sample_size none = none
sample_size (some b) = some (length b)

abbrev sample_read : Option Text → ℕ → Option Text
sample_read none n = none
sample_read (some b) n = some (take n b)

abbrev create_temp : SampleDisk → Text → Option Text → SampleDisk × Option Text
create_temp d s none = (put d s (some []), some s)
create_temp d s (some _) = (d, none)

abbrev rename : SampleDisk → Text → Text → Option Text → SampleDisk × Bool
rename d from to none = (d, false)
rename d from to (some b) = (put (put d from none) to (some b), true)

abbrev pub sample_files : FileSystem SampleDisk
sample_files = record {
  path_exists = λ d p. is_some (d p);
  get_file_size = λ d p. sample_size (d p);
  read_file = λ d p n. sample_read (d p) n;
  read_file_to_string = λ d p. d p;
  write_file = λ d p b. (put d p (some b), some (length b));
  create_temporary_file_in_dir = λ d dir. create_temp d (scratch dir) (d (scratch dir));
  create_new_temp_directory = λ d. (d, some (codes "/tmp"));
  replace_file = λ d from to. rename d from to (d from);
  delete = λ d p _. (put d p none, true);
  create_directory = λ d p. (d, true);
  chmod = λ d p _. (d, true);
  directories = λ d p. [];
  dir_name = λ p. [];
  base_name = λ p. p;
  append = λ p q. p ++ codes "/" ++ q;
}

put_other : (d : SampleDisk) (p q : Text) (c : Option Text) → q ≢ p → put d p c q ≡ d q
put_other d p q c ne = elim (Bool-cases (text_eq q p)) [
  | inl e ↦ absurd (ne (text_eq→eq q p e))
  | inr e ↦ rw e
]

put_self : (d : SampleDisk) (p : Text) (c : Option Text) → put d p c p ≡ c
put_self d p c = rw (text_eq_refl p)

temp_new_by :
    (d : SampleDisk) (s t : Text) (o : Option Text)
    → d s ≡ o
    → (create_temp d s o).1 ≡ some t
    → d t ≡ none
temp_new_by d s t none e h = ground arith
temp_new_by d s t (some b) e h = ground arith

temp_keeps_by :
    (d : SampleDisk) (s p b : Text) (o : Option Text)
    → d s ≡ o
    → d p ≡ some b
    → (create_temp d s o).0 p ≡ some b
temp_keeps_by d s p b none e h = ground (arith, put_other d s p (some []), text_eq→eq p s)
temp_keeps_by d s p b (some c) e h = h

moves_by :
    (d : SampleDisk) (from to : Text) (o : Option Text)
    → d from ≡ o
    → (rename d from to o).1 ≡ true
    → (rename d from to o).0 to ≡ d from
moves_by d from to none e h = cc
moves_by d from to (some b) e h = ground (arith, put_self (put d from none) to (some b))

refused_by :
    (d : SampleDisk) (from to p : Text) (o : Option Text)
    → (rename d from to o).1 ≡ false
    → (rename d from to o).0 p ≡ d p
refused_by d from to p none h = refl
refused_by d from to p (some b) h = cc

rename_keeps_by :
    (d : SampleDisk) (from to p : Text) (o : Option Text)
    → p ≢ from
    → p ≢ to
    → (rename d from to o).0 p ≡ d p
rename_keeps_by d from to p none ne ne' = refl
rename_keeps_by d from to p (some b) ne ne' =
    put_other (put d from none) to p (some b) ne' ∙ put_other d from p none ne

size_by : (o : Option Text) (b : Text) → o ≡ some b → sample_size o ≡ some (length b)
size_by o b e = rw e

read_by : (o : Option Text) (b : Text) (n : ℕ) → o ≡ some b → sample_read o n ≡ some (take n b)
read_by o b n e = rw e

exists_by : (o : Option Text) (b : Text) → o ≡ some b → is_some o ≡ true
exists_by o b e = rw e

pub sample_laws : FileLaws sample_files
sample_laws = record {
  exists_of_contents = λ d p b h. exists_by (d p) b h;
  size_of_contents = λ d p b h. size_by (d p) b h;
  read_part = λ d p b n h. read_by (d p) b n h;
  temp_new = λ d dir t h. temp_new_by d (scratch dir) t (d (scratch dir)) refl h;
  temp_keeps = λ d dir p b h. temp_keeps_by d (scratch dir) p b (d (scratch dir)) refl h;
  write_keeps = λ d q b p ne. put_other d q p (some b) ne;
  write_whole = λ d q b h. put_self d q (some b);
  replace_moves = λ d from to h. moves_by d from to (d from) refl h;
  replace_refused = λ d from to p h. refused_by d from to p (d from) h;
  chmod_keeps = λ d q p mode. refl;
  replace_keeps = λ d from to p ne ne'. rename_keeps_by d from to p (d from) ne ne';
  delete_keeps = λ d q p ne. put_other d q p none ne;
}

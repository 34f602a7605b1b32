-- ===== src/ChildJob/Argv.antt =====
-- The argument vector of child_job.cc against the list of strings that it stands for.
use chromiumos_platform_logi.Prelude.{
  ℕ, zero, suc, ◌+◌, ◌≡◌, refl, sym, ap, ◌∙◌, List, [], ◌∷◌, ◌++◌, map, length, replicate, Text,
  arith, length-append,
}
use mathlib.Core.List.{append_assoc, append-nil, map-append}
use native.Mathlib.Nat.{zero-add, suc-add, add-zero}
use chromiumos_platform_logi.ChildJob.{
  ChildJob, Cell, unwritten, null, str, write_cell, c_string, copy_args_to_argv, create_argv,
  read_argv, export_argv,
}

-- What the program means to pass, in order.
abbrev pub all_arguments : ChildJob → List Text
all_arguments j =
    j.arguments ++ (j.login_arguments ++ (j.extra_arguments ++ j.extra_one_time_arguments))

abbrev strings : List Text → List Cell
strings = map λ a. str (c_string a)

write_cell-append :
    (xs ys : List Cell) (c : Cell) → write_cell (xs ++ ys) (length xs) c ≡ xs ++ write_cell ys 0 c
unfolding write_cell
write_cell-append [] ys c = refl
write_cell-append (x ∷ xs) ys c = ap (◌∷◌ x) (write_cell-append xs ys c)

replicate-add : (m n : ℕ) (c : Cell) → replicate (m + n) c ≡ replicate m c ++ replicate n c
replicate-add zero n c = rw zero-add
replicate-add (suc m) n c = rw suc-add (ap (◌∷◌ c) (replicate-add m n c))

length-snoc : (pre : List Cell) (c : Cell) → length (pre ++ c ∷ []) ≡ suc (length pre)
length-snoc pre c = omega (arith, length-append pre (c ∷ []))

length-strings : (args : List Text) → length (strings args) ≡ length args
length-strings [] = refl
length-strings (a ∷ args) = ap suc (length-strings args)

snoc_append : (pre : List Cell) (x : Cell) (ys : List Cell) → pre ++ x ∷ ys ≡ (pre ++ x ∷ []) ++ ys
snoc_append pre x ys = sym (append_assoc pre (x ∷ []) ys)

-- Copying over the blank cells behind a prefix.
copy_args-append :
    (args : List Text) (pre rest : List Cell) (i : ℕ)
    → i ≡ length pre
    → copy_args_to_argv args (pre ++ (replicate (length args) unwritten ++ rest)) i
      ≡ (pre ++ strings args) ++ rest
unfolding copy_args_to_argv
copy_args-append [] pre rest i e = rw append-nil
copy_args-append (a ∷ args) pre rest i e =
    let x = str (c_string a) in
    let blanks = replicate (length args) unwritten ++ rest in
    let next =
      copy_args-append args (pre ++ x ∷ []) rest (suc i) (omega (arith, length-snoc pre x)) in
    ap (λ (cs : List Cell). copy_args_to_argv args cs (suc i))
      (ap (λ (k : ℕ). write_cell (pre ++ unwritten ∷ blanks) k x) e
        ∙ write_cell-append pre (unwritten ∷ blanks) x
        ∙ snoc_append pre x blanks)
    ∙ next
    ∙ ap (λ (cs : List Cell). cs ++ rest) (append_assoc pre (x ∷ []) (strings args))

read_argv-strings :
    (args : List Text) (rest : List Cell)
    → read_argv (strings args ++ null ∷ rest) ≡ map c_string args
unfolding read_argv
read_argv-strings [] rest = refl
read_argv-strings (a ∷ args) rest = ap (◌∷◌ (c_string a)) (read_argv-strings args rest)

-- The four vectors behind one another, over any number of blank cells.
copied : List Text → List Text → List Text → List Text → List Cell → List Cell
copied a b c d argv =
    copy_args_to_argv d
      (copy_args_to_argv c (copy_args_to_argv b (copy_args_to_argv a argv 0) (length a))
        (length a + length b))
      (length a + length b + length c)

blanks_split :
    (a b c d : List Text)
    → replicate (length a + length b + length c + length d + 1) unwritten
      ≡ replicate (length a) unwritten
        ++ (replicate (length b) unwritten
            ++ (replicate (length c) unwritten
                ++ (replicate (length d) unwritten ++ unwritten ∷ [])))
blanks_split a b c d = simp (replicate-add, append_assoc)

lengths₂ : (a b : List Text) → length a + length b ≡ length (strings a ++ strings b)
lengths₂ a b =
    omega (arith, length-append (strings a) (strings b), length-strings a, length-strings b)

lengths₃ :
    (a b c : List Text)
    → length a + length b + length c ≡ length ((strings a ++ strings b) ++ strings c)
lengths₃ a b c =
    omega
      (arith, length-append (strings a ++ strings b) (strings c), lengths₂ a b, length-strings c)

lengths₄ :
    (a b c d : List Text)
    → length a + length b + length c + length d
      ≡ length (((strings a ++ strings b) ++ strings c) ++ strings d)
lengths₄ a b c d = omega (
  arith,
  length-append ((strings a ++ strings b) ++ strings c) (strings d),
  lengths₃ a b c,
  length-strings d,
)

copied_lem :
    (a b c d : List Text)
    → copied a b c d (replicate (length a + length b + length c + length d + 1) unwritten)
      ≡ (((strings a ++ strings b) ++ strings c) ++ strings d) ++ unwritten ∷ []
unfolding copied
copied_lem a b c d = rw (blanks_split a b c d) (
    rw (copy_args-append a [] _ 0 refl) (
      rw (copy_args-append b (strings a) _ (length a) (sym (length-strings a))) (
        rw (copy_args-append c (strings a ++ strings b) _ _ (lengths₂ a b))
          (copy_args-append d ((strings a ++ strings b) ++ strings c) _ _ (lengths₃ a b c)))))

-- With NULL behind them.
closed_lem :
    (a b c d : List Text)
    → write_cell
        (copied a b c d (replicate (length a + length b + length c + length d + 1) unwritten))
        (length a + length b + length c + length d)
        null
      ≡ strings (a ++ (b ++ (c ++ d))) ++ null ∷ []
unfolding write_cell
closed_lem a b c d =
    rw (copied_lem a b c d, lengths₄ a b c d)
      (write_cell-append _ (unwritten ∷ []) null
        ∙ ap (λ (cs : List Cell). cs ++ null ∷ []) (simp (map-append, append_assoc)))

create_argv_by :
    (j : ChildJob) (d : List Text)
    → j.extra_one_time_arguments ≡ d
    → create_argv j ≡ strings (all_arguments j) ++ null ∷ []
unfolding create_argv copied copy_args_to_argv
create_argv_by j [] e =
    rw e (rw add-zero at (closed_lem j.arguments j.login_arguments j.extra_arguments []))
create_argv_by j (x ∷ d) e =
    rw e (closed_lem j.arguments j.login_arguments j.extra_arguments (x ∷ d))

-- Every cell of the array is written: the strings of the four vectors in order, then one NULL.
pub create_argv_lem :
    (j : ChildJob) → create_argv j ≡ map (λ a. str (c_string a)) (all_arguments j) ++ null ∷ []
create_argv_lem j = create_argv_by j j.extra_one_time_arguments refl

-- The exported vector is the concatenation of the four vectors, each string up to its first NUL.
pub export_argv_lem : (j : ChildJob) → export_argv j ≡ map c_string (all_arguments j)
unfolding export_argv
export_argv_lem j = rw (create_argv_lem j) (read_argv-strings (all_arguments j) [])

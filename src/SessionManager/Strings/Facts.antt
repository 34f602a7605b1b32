-- ===== src/SessionManager/Strings/Facts.antt =====
-- What the string checks of session_manager_impl.cc let through.
use chromiumos_platform_logi.Prelude.{
  ℕ, zero, suc, ◌+◌, ◌-◌, ◌≤◌, ◌<◌, ◌≡◌, ◌≢◌, refl, ◌↔◌, ◌⊎◌, inl, inr, true, false, none, some, [],
  ◌∷◌, ◌++◌, length, take, all, Text, leb, ◌==◌, if◌then◌else◌, arith, Bool-cases,
}
use chromiumos_platform_logi.SessionManager.Strings.{
  read_on, g_char_to_string, after_separator, validate_email, is_legal_character, email_separator,
  same_start, is_valid_cookie, max_g_char_buffer_size,
}

-- The number of separators in a text.
unfoldable pub separators : Text → ℕ
separators [] = 0
separators (ch ∷ rest) =
    let later = separators rest in if ch == email_separator then suc later else later

after_separator-separators :
    (email : Text)
    → ((after_separator email ≡ none) × (separators email ≡ 0))
      ⊎ ((rest : Text) × (after_separator email ≡ some rest)
          × (separators email ≡ suc (separators rest)))
unfolding after_separator separators
after_separator-separators [] = inl (refl, refl)
after_separator-separators (ch ∷ rest) = elim (Bool-cases (ch == email_separator)) [
  | inl e ↦ inr (rest, ground arith, ground arith)
  | inr e ↦ elim (after_separator-separators rest) [
    | inl h ↦ inl (ground arith)
    | inr (r, h, h') ↦ inr (r, ground arith, ground arith)
  ]
]

-- An address is accepted exactly if all of its characters are legal and one of them is the separator.
pub validate_email_iff :
    (email : Text)
    → (validate_email email ≡ true)
      ↔ ((all is_legal_character email ≡ true) × (separators email ≡ 1))
unfolding validate_email
validate_email_iff email = elim (after_separator-separators email) [
  | inl (e, n) ↦ (λ h. ground arith, λ h. ground arith)
  | inr (r, e, n) ↦ elim (after_separator-separators r) [
    | inl (e', n') ↦ (λ h. ground arith, λ h. ground arith)
    | inr (r', e', n') ↦ (λ h. ground arith, λ h. ground arith)
  ]
]

-- One of two texts begins with the other.
abbrev pub Comparable : Text → Text → Type 0
Comparable xs ys = ((rest : Text) × (ys ≡ xs ++ rest)) ⊎ ((rest : Text) × (xs ≡ ys ++ rest))

length-read_on : (memory : ℕ → ℕ) (n : ℕ) → length (read_on memory n) ≡ n
unfolding read_on
length-read_on memory zero = refl
length-read_on memory (suc n) = omega (arith, length-read_on (λ i. memory (suc i)) n)

leb-false : (a b : ℕ) → b < a → leb a b ≡ false
leb-false a b h = ground arith

leb-true : (a b : ℕ) → a ≤ b → leb a b ≡ true
leb-true a b h = ground arith

append-cancel : (xs ys zs : Text) → xs ++ ys ≡ xs ++ zs → ys ≡ zs
append-cancel [] ys zs e = e
append-cancel (x ∷ xs) ys zs e = append-cancel xs ys zs cc

read_on-differs : (n : ℕ) → 0 < n → 0 ∷ read_on (λ i. 0) n ≢ 0 ∷ read_on (λ i. 1) n
unfolding read_on
read_on-differs zero p e = ground arith
read_on-differs (suc n) p e = ground arith

-- A C string of at most 200 bytes comes back as it is. Of a longer one the bytes behind the buffer are
-- returned: from 202 bytes on, two memories give two results.
pub g_char_to_string_lem :
    (memory : ℕ → ℕ) (str : Text)
    → (length str ≤ max_g_char_buffer_size → g_char_to_string memory str ≡ str)
      × (max_g_char_buffer_size + 1 < length str
          → g_char_to_string (λ i. 0) str ≢ g_char_to_string (λ i. 1) str)
unfolding g_char_to_string
g_char_to_string_lem memory str = (
  λ h. rw (leb-true (length str) max_g_char_buffer_size h) refl,
  λ h e.
      let n : ℕ = length str - (max_g_char_buffer_size + 1) in
      let long : leb (length str) max_g_char_buffer_size ≡ false = leb-false _ _ (omega arith) in
      read_on-differs n (omega arith)
        (append-cancel (take max_g_char_buffer_size str) _ _ (rw long at e)),
)

longer : (x y : ℕ) (xs ys : Text) → x ≡ y → Comparable xs ys → Comparable (x ∷ xs) (y ∷ ys)
longer x y xs ys e (inl (r, h)) = inl (r, cc)
longer x y xs ys e (inr (r, h)) = inr (r, cc)

same_start→Comparable : (xs ys : Text) → same_start xs ys ≡ true → Comparable xs ys
unfolding same_start
same_start→Comparable [] ys h = inl (ys, refl)
same_start→Comparable (x ∷ xs) [] h = inr (x ∷ xs, refl)
same_start→Comparable (x ∷ xs) (y ∷ ys) h =
    longer x y xs ys (ground arith) (same_start→Comparable xs ys (ground arith))

same_start-prefix : (xs ys : Text) → same_start xs (xs ++ ys) ≡ true
unfolding same_start
same_start-prefix [] ys = refl
same_start-prefix (x ∷ xs) ys = ground (arith, same_start-prefix xs ys)

same_start-extension : (xs ys : Text) → same_start (xs ++ ys) xs ≡ true
unfolding same_start
same_start-extension [] [] = refl
same_start-extension [] (y ∷ ys) = refl
same_start-extension (x ∷ xs) ys = ground (arith, same_start-extension xs ys)

-- A cookie is valid exactly if it is a beginning of the kept one, as the empty one is, or the kept one
-- is a beginning of it.
pub is_valid_cookie_iff :
    (cookie expected : Text) → (is_valid_cookie cookie expected ≡ true) ↔ Comparable cookie expected
unfolding is_valid_cookie
is_valid_cookie_iff cookie expected = (
  same_start→Comparable cookie expected,
  λ c. elim c [
    | inl (r, e) ↦ rw e (same_start-prefix cookie r)
    | inr (r, e) ↦ rw e (same_start-extension expected r)
  ],
)

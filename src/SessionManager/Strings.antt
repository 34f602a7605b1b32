-- ===== src/SessionManager/Strings.antt =====
-- The checks on strings of session_manager_impl.cc: the copy of a C string through a fixed buffer,
-- the e-mail address, and the cookie.
pub mod Facts
use chromiumos_platform_logi.Prelude.{
  ℕ, zero, suc, ◌+◌, ◌-◌, ◌≡◌, Bool, true, false, not, ◌&&◌, ◌||◌, Option, none, some, List, [],
  ◌∷◌, ◌++◌, length, take, any, all, Text, codes, ltb, leb, ◌==◌, if◌then◌else◌,
}

abbrev pub max_g_char_buffer_size : ℕ
max_g_char_buffer_size = 200

-- So many bytes from a place in memory on.
unfoldable pub read_on : (ℕ → ℕ) → ℕ → Text
read_on memory zero = []
read_on memory (suc n) = memory 0 ∷ read_on (λ i. memory (suc i)) n

-- `snprintf` into 201 bytes returns the length of the whole string, and a string of that length is
-- read from the buffer: past its end, if the argument has more than 200 bytes. `memory` is what lies
-- there. The argument is a C string and holds no NUL.
unfoldable pub g_char_to_string : (ℕ → ℕ) → Text → Text
unfolding read_on
g_char_to_string memory str =
    if leb (length str) max_g_char_buffer_size
    then str
    else take max_g_char_buffer_size str
      ++ 0 ∷ read_on memory (length str - (max_g_char_buffer_size + 1))

abbrev pub email_separator : ℕ
email_separator = b'@'

unfoldable pub is_legal_character : ℕ → Bool
is_legal_character ch =
    (leb b'a' ch && leb ch b'z')
    || ((leb b'A' ch && leb ch b'Z')
        || ((leb b'0' ch && leb ch b'9')
            || (ch == b'.' || (ch == b'@' || (ch == b'-' || (ch == b'+' || ch == b'_'))))))

-- `find` from the front: the text behind the first separator.
unfoldable pub after_separator : Text → Option Text
after_separator [] = none
after_separator (ch ∷ rest) =
    let later = after_separator rest in if ch == email_separator then some rest else later

unfoldable pub validate_email : Text → Bool
validate_email email = all is_legal_character email && elim (after_separator email) [
  | none ↦ false
  | some rest ↦ elim (after_separator rest) [ none ↦ true | some _ ↦ false ]
]

-- `SafeMemcmp` of as many bytes as the shorter has.
unfoldable pub same_start : Text → Text → Bool
same_start [] ys = true
same_start (x ∷ xs) [] = true
same_start (x ∷ xs) (y ∷ ys) = x == y && same_start xs ys

unfoldable pub is_valid_cookie : Text → Text → Bool
is_valid_cookie cookie expected = same_start cookie expected

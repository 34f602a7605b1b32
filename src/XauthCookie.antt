-- ===== src/XauthCookie.antt =====
-- cros-xauth.c: the tool that writes an X authority file with one cookie. The stream is libc's.
pub mod Fields
pub mod Examples
use chromiumos_platform_logi.Prelude.{
  ℕ, zero, suc, ◌+◌, ◌≡◌, ◌≢◌, ◌/◌, ◌%◌, ◌^◌, Bool, true, false, Option, none, some, List, [], ◌∷◌,
  ◌++◌, length, take, Text, codes, ◌==◌, if◌then◌else◌,
}

-- fopen(3) of a name, `none` for NULL; fwrite(3) of one item: the number of items written; and what
-- exit(3) does with a stream that was left open: the files afterwards, and whether all that went into
-- the stream has reached its file, of which the program does not hear.
pub record Stdio (File Stream : Type 0) : Type 0 where
  pub fopen : File → Text → Option Stream
  pub fwrite : Stream → Text → Stream × ℕ
  pub flush_at_exit : File → Stream → File × Bool

-- What is documented of them: an opened stream is empty, an item that counts as written has been
-- appended to what went into the stream, and a stream that was flushed whole is its file's contents.
pub record StdioLaws {File Stream : Type 0} (io : Stdio File Stream) : Type 0 where
  pub contents : Stream → Text
  pub name_of : Stream → Text
  pub read : File → Text → Option Text
  pub fopen_empty :
      (f : File) (path : Text) (fp : Stream) → io.fopen f path ≡ some fp → contents fp ≡ []
  pub fwrite_appends :
      (fp : Stream) (item : Text)
      → (io.fwrite fp item).1 ≡ 1
      → contents (io.fwrite fp item).0 ≡ contents fp ++ item
  pub fopen_named :
      (f : File) (path : Text) (fp : Stream) → io.fopen f path ≡ some fp → name_of fp ≡ path
  pub fwrite_named : (fp : Stream) (item : Text) → name_of (io.fwrite fp item).0 ≡ name_of fp
  pub flushed_whole :
      (f : File) (fp : Stream)
      → (io.flush_at_exit f fp).1 ≡ true
      → read (io.flush_at_exit f fp).0 (name_of fp) ≡ some (contents fp)

abbrev pub family : ℕ
family = 0x100

abbrev pub address : Text
address = codes "localhost"

abbrev pub number : Text
number = codes "0"

abbrev pub name : Text
name = codes "MIT-MAGIC-COOKIE-1"

-- strlen(3) of a string that a NUL ends or that is given whole.
unfoldable pub strlen : Text → ℕ
strlen [] = 0
strlen (b ∷ bs) = let rest = strlen bs in if b == 0 then 0 else suc rest

-- memcpy(3) of a short buffer to the start of a longer one.
unfoldable pub overwrite : Text → Text → Text
overwrite [] old = old
overwrite (b ∷ bs) [] = b ∷ bs
overwrite (b ∷ bs) (o ∷ os) = b ∷ overwrite bs os

-- The kernel's 16 random bytes, or the address of `main` over what the stack held.
unfoldable pub make_cookie : Option Text → Text → Text → Text
unfolding overwrite
make_cookie (some random) address_of_main stack = take 16 random
make_cookie none address_of_main stack = overwrite address_of_main stack

module _ {File Stream : Type 0} (io : Stdio File Stream) where
  -- One more write, unless one has failed.
  unfoldable pub and_then : Stream × Bool → (Stream → Stream × Bool) → Stream × Bool
  and_then (fp, true) next = next fp
  and_then (fp, false) next = (fp, false)

  -- `fwrite(...) == 1`.
  unfoldable pub write_item : Stream → Text → Stream × Bool
  write_item fp item = let (fp', items) = io.fwrite fp item in (fp', items == 1)

  -- Network byte order, high byte first.
  unfoldable pub write_u16 : Stream → ℕ → Stream × Bool
  unfolding write_item
  write_u16 fp val = write_item fp ((val / 256) % 256 ∷ val % 256 ∷ [])

  unfoldable pub write_lv : Stream → ℕ → Text → Stream × Bool
  unfolding write_u16 write_item and_then
  write_lv fp len val = and_then (write_u16 fp len) (λ fp'. write_item fp' (take len val))

  -- The length is cast to 16 bits.
  unfoldable pub write_str_lv : Stream → Text → Stream × Bool
  unfolding write_lv strlen
  write_str_lv fp str = write_lv fp (strlen str % 2 ^ 16) str

  unfoldable pub write_entry : Stream → Text → Stream × Bool
  unfolding and_then write_u16 write_str_lv write_lv
  write_entry fp cookie =
      let s₁ = write_u16 fp family in
      let s₂ = and_then s₁ (λ fp. write_str_lv fp address) in
      let s₃ = and_then s₂ (λ fp. write_str_lv fp number) in
      let s₄ = and_then s₃ (λ fp. write_str_lv fp name) in and_then s₄ (λ fp. write_lv fp 16 cookie)

  -- `main`: the stream that was opened, and the exit code.
  unfoldable pub xauth_main : File → Text → Option Text → Text → Text → Option Stream × ℕ
  unfolding write_entry make_cookie
  xauth_main files path at_random address_of_main stack = elim (io.fopen files path) [
    | none ↦ (none, 1)
    | some fp ↦
        let (fp', written) = write_entry fp (make_cookie at_random address_of_main stack) in
        (some fp', if written then 0 else 1)
  ]

  -- What exit(3) makes of the result of `main`, which leaves its stream open.
  unfoldable pub at_exit :
      File → Option Stream × ℕ → record { files : File; flushed : Bool; exit_code : ℕ }
  at_exit files (none, code) = record { files = files; flushed = true; exit_code = code }
  at_exit files (some fp, code) =
      let (files', whole) = io.flush_at_exit files fp in
      record { files = files'; flushed = whole; exit_code = code }

  -- The whole process.
  unfoldable pub run_tool :
      File
      → Text
      → Option Text
      → Text
      → Text
      → record { files : File; flushed : Bool; exit_code : ℕ }
  unfolding xauth_main at_exit
  run_tool files path at_random address_of_main stack =
      at_exit files (xauth_main files path at_random address_of_main stack)

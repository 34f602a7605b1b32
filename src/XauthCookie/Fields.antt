-- ===== src/XauthCookie/Fields.antt =====
-- The file of cros-xauth.c read back by the format's own rule: fields with their length before them.
use chromiumos_platform_logi.Prelude.{
  ℕ, ◌^◌, zero, suc, ◌+◌, ◌*◌, ◌≡◌, ◌/◌, ◌%◌, ◌<◌, refl, sym, ◌∙◌, ap, Bool, true, false, Option,
  none, some, List, [], ◌∷◌, ◌++◌, length, take, take-length, append_nil, subst, is_empty, Text,
  ◌==◌, arith, if◌then◌else◌, Option-cases, inl, inr,
}
use mathlib.Core.List.{append_assoc}
use chromiumos_platform_logi.XauthCookie.{
  Stdio, StdioLaws, family, address, number, name, strlen, write_u16, write_lv, write_str_lv,
  and_then, write_item, write_entry, make_cookie, xauth_main, run_tool, at_exit,
}

-- A reader that knows nothing of the writer: the number, then as many bytes.
unfoldable read_u16 : Text → Option (ℕ × Text)
read_u16 (high ∷ low ∷ rest) = some (high * 256 + low, rest)
read_u16 [] = none
read_u16 (one ∷ []) = none

unfoldable read_bytes : ℕ → Text → Option (Text × Text)
read_bytes zero bytes = some ([], bytes)
read_bytes (suc n) [] = none
read_bytes (suc n) (b ∷ bytes) = elim (read_bytes n bytes) [
  | none ↦ none
  | some (field, rest) ↦ some (b ∷ field, rest)
]

unfoldable read_field : Text → Option (Text × Text)
unfolding read_u16 read_bytes
read_field bytes = elim (read_u16 bytes) [ none ↦ none | some (n, rest) ↦ read_bytes n rest ]

unfoldable read_fields : ℕ → Text → Option (List Text × Text)
unfolding read_field
read_fields zero bytes = some ([], bytes)
read_fields (suc n) bytes = elim (read_field bytes) [
  | none ↦ none
  | some (field, rest) ↦ elim (read_fields n rest) [
    | none ↦ none
    | some (fields, left) ↦ some (field ∷ fields, left)
  ]
]

-- Nothing may be left over.
unfoldable whole_entry : ℕ → Option (List Text × Text) → Option (ℕ × List Text)
whole_entry kind none = none
whole_entry kind (some (fields, left)) = if is_empty left then some (kind, fields) else none

-- The family and the four fields.
unfoldable pub read_authority : Text → Option (ℕ × List Text)
unfolding read_u16 read_fields whole_entry
read_authority bytes = elim (read_u16 bytes) [
  | none ↦ none
  | some (kind, rest) ↦ whole_entry kind (read_fields 4 rest)
]

abbrev u16 : ℕ → Text
u16 n = (n / 256) % 256 ∷ n % 256 ∷ []

abbrev field : Text → Text
field f = u16 (length f) ++ f

read_bytes-append : (f rest : Text) → read_bytes (length f) (f ++ rest) ≡ some (f, rest)
unfolding read_bytes
read_bytes-append [] rest = refl
read_bytes-append (b ∷ f) rest = rw (read_bytes-append f rest) refl

u16_value : (n : ℕ) → n < 65536 → ((n / 256) % 256) * 256 + n % 256 ≡ n
u16_value n small = omega arith

read_field-field :
    (f rest : Text) → length f < 65536 → read_field (field f ++ rest) ≡ some (f, rest)
unfolding read_field read_u16
read_field-field f rest small =
    rw (u16_value (length f) small, read_field) (read_bytes-append f rest)

read_field_by :
    (n : ℕ) (f rest bytes : Text) (fields : List Text) (left : Text)
    → read_field bytes ≡ some (f, rest)
    → read_fields n rest ≡ some (fields, left)
    → read_fields (suc n) bytes ≡ some (f ∷ fields, left)
unfolding read_fields
read_field_by n f rest bytes fields left h h' = rw (h, read_fields) (rw h' refl)

-- What the tool is to write.
unfoldable entry : Text → Text
entry cookie = (((u16 family ++ field address) ++ field number) ++ field name) ++ field cookie

read_all :
    (cookie : Text)
    → length cookie ≡ 16
    → read_fields 4 (field address ++ (field number ++ (field name ++ field cookie)))
      ≡ some (address ∷ number ∷ name ∷ cookie ∷ [], [])
unfolding read_field read_u16 read_bytes read_fields
read_all cookie sixteen =
    let last : read_field (field cookie) ≡ some (cookie, []) =
      subst (λ (q : Text). read_field q ≡ some (cookie, [])) (append_nil (field cookie))
        (read_field-field cookie [] (omega (arith, sixteen))) in
    let third = field name ++ field cookie in
    let second = field number ++ third in
    read_field_by 3 address second (field address ++ second) _ [] refl (
      read_field_by 2 number third second _ [] refl (
        read_field_by 1 name (field cookie) third _ [] refl
          (read_field_by 0 cookie [] (field cookie) [] [] last refl)))

read_entry :
    (cookie : Text)
    → length cookie ≡ 16
    → read_authority (entry cookie) ≡ some (family, address ∷ number ∷ name ∷ cookie ∷ [])
unfolding read_authority entry read_u16 whole_entry
read_entry cookie sixteen = ap (whole_entry family) (read_all cookie sixteen)

not_opened :
    {Stream : Type 0} {fp : Stream} → ◌≡◌ {A = Option Stream × ℕ} (none, 1) (some fp, 0) → ⊥
not_opened h = cc

ended :
    {Stream : Type 0} (t fp : Stream) (written : Bool)
    → ◌≡◌ {A = Option Stream × ℕ} (some t, if written then 0 else 1) (some fp, 0)
    → (t ≡ fp) × (written ≡ true)
ended t fp true h = (cc, refl)
ended t fp false h = cc

module _ {File Stream : Type 0} (io : Stdio File Stream) (laws : StdioLaws io) where
  open laws use {contents}

  -- A write that succeeds has appended these bytes.
  abbrev Appends : Stream → Stream × Bool → Text → Type 0
  Appends fp r bytes = r.1 ≡ true → contents r.0 ≡ contents fp ++ bytes

  zero_one : ◌≡◌ {A = ℕ} 0 1 → ⊥
  zero_one h = ground arith

  one_item : (n : ℕ) → (n == 1) ≡ true → n ≡ 1
  one_item n h = ground arith

  write_item_lem : (fp : Stream) (item : Text) → Appends fp (write_item io fp item) item
  unfolding write_item
  write_item_lem fp item h = laws.fwrite_appends fp item (one_item (io.fwrite fp item).1 h)

  and_then_lem :
      (fp : Stream) (r : Stream × Bool) (next : Stream → Stream × Bool) (first second : Text)
      → Appends fp r first
      → ((t : Stream) → Appends t (next t) second)
      → Appends fp (and_then io r next) (first ++ second)
  unfolding and_then
  and_then_lem fp (t, true) next first second h h' e =
      h' t e ∙ ap (λ (q : Text). q ++ second) (h refl) ∙ append_assoc (contents fp) first second
  and_then_lem fp (t, false) next first second h h' e = cc

  write_u16_lem : (fp : Stream) (n : ℕ) → Appends fp (write_u16 io fp n) (u16 n)
  unfolding write_u16
  write_u16_lem fp n = write_item_lem fp (u16 n)

  write_lv_lem :
      (fp : Stream) (len : ℕ) (val : Text)
      → Appends fp (write_lv io fp len val) (u16 len ++ take len val)
  unfolding write_lv
  write_lv_lem fp len val =
      and_then_lem fp (write_u16 io fp len) (λ t. write_item io t (take len val)) (u16 len)
        (take len val) (write_u16_lem fp len) (λ t. write_item_lem t (take len val))

  whole_lem :
      (fp : Stream) (n : ℕ) (f : Text) → length f ≡ n → Appends fp (write_lv io fp n f) (field f)
  whole_lem fp n f e =
      let whole : Appends fp (write_lv io fp (length f) f) (field f) =
        rw (take-length f) at (write_lv_lem fp (length f) f) in
      subst (λ (m : ℕ). Appends fp (write_lv io fp m f) (field f)) e whole

  write_entry_lem :
      (fp : Stream) (cookie : Text)
      → length cookie ≡ 16
      → Appends fp (write_entry io fp cookie) (entry cookie)
  unfolding write_entry write_str_lv strlen entry
  write_entry_lem fp cookie sixteen =
      let s₁ = write_u16 io fp family in
      let s₂ = and_then io s₁ (λ t. write_str_lv io t address) in
      let s₃ = and_then io s₂ (λ t. write_str_lv io t number) in
      let s₄ = and_then io s₃ (λ t. write_str_lv io t name) in
      let a₁ = write_u16_lem fp family in
      let a₂ =
        and_then_lem fp s₁ (λ t. write_str_lv io t address) (u16 family) (field address) a₁
          (λ t. write_lv_lem t 9 address) in
      let a₃ =
        and_then_lem fp s₂ (λ t. write_str_lv io t number) (u16 family ++ field address)
          (field number) a₂ (λ t. write_lv_lem t 1 number) in
      let a₄ =
        and_then_lem fp s₃ (λ t. write_str_lv io t name)
          ((u16 family ++ field address) ++ field number) (field name) a₃
          (λ t. write_lv_lem t 18 name) in
      and_then_lem fp s₄ (λ t. write_lv io t 16 cookie)
        (((u16 family ++ field address) ++ field number) ++ field name) (field cookie) a₄
        (λ t. whole_lem t 16 cookie sixteen)

  opened_lem :
      (files : File) (path at_random_cookie : Text) (fp : Stream)
      → length at_random_cookie ≡ 16
      → io.fopen files path ≡ some fp
      → (write_entry io fp at_random_cookie).1 ≡ true
      → contents (write_entry io fp at_random_cookie).0 ≡ entry at_random_cookie
  opened_lem files path cookie fp sixteen opened written =
      write_entry_lem fp cookie sixteen written
      ∙ ap (λ (q : Text). q ++ entry cookie) (laws.fopen_empty files path fp opened)

  -- Writing keeps the name of the file.
  and_then_named :
      (fp : Stream) (r : Stream × Bool) (next : Stream → Stream × Bool)
      → laws.name_of r.0 ≡ laws.name_of fp
      → ((t : Stream) → laws.name_of (next t).0 ≡ laws.name_of t)
      → laws.name_of (and_then io r next).0 ≡ laws.name_of fp
  unfolding and_then
  and_then_named fp (t, true) next h h' = h' t ∙ h
  and_then_named fp (t, false) next h h' = h

  write_lv_named :
      (fp : Stream) (len : ℕ) (val : Text)
      → laws.name_of (write_lv io fp len val).0 ≡ laws.name_of fp
  unfolding write_lv write_u16 write_item
  write_lv_named fp len val =
      and_then_named fp (write_u16 io fp len) (λ t. write_item io t (take len val))
        (laws.fwrite_named fp (u16 len)) (λ t. laws.fwrite_named t (take len val))

  write_str_lv_named :
      (fp : Stream) (str : Text) → laws.name_of (write_str_lv io fp str).0 ≡ laws.name_of fp
  unfolding write_str_lv
  write_str_lv_named fp str = write_lv_named fp (strlen str % 2 ^ 16) str

  write_entry_named :
      (fp : Stream) (cookie : Text) → laws.name_of (write_entry io fp cookie).0 ≡ laws.name_of fp
  unfolding write_entry write_u16 write_item
  write_entry_named fp cookie =
      let s₁ = write_u16 io fp family in
      let s₂ = and_then io s₁ (λ t. write_str_lv io t address) in
      let s₃ = and_then io s₂ (λ t. write_str_lv io t number) in
      let s₄ = and_then io s₃ (λ t. write_str_lv io t name) in
      and_then_named fp s₄ (λ t. write_lv io t 16 cookie)
        (and_then_named fp s₃ (λ t. write_str_lv io t name)
          (and_then_named fp s₂ (λ t. write_str_lv io t number)
            (and_then_named fp s₁ (λ t. write_str_lv io t address)
              (laws.fwrite_named fp (u16 family)) (λ t. write_str_lv_named t address))
            (λ t. write_str_lv_named t number))
          (λ t. write_str_lv_named t name))
        (λ t. write_lv_named t 16 cookie)

  xauth_main-read :
      (files : File) (path : Text) (at_random : Option Text) (address_of_main stack : Text)
      (fp : Stream)
      → length (make_cookie at_random address_of_main stack) ≡ 16
      → xauth_main io files path at_random address_of_main stack ≡ (some fp, 0)
      → (read_authority (contents fp)
          ≡ some
              (family, address ∷ number ∷ name ∷ make_cookie at_random address_of_main stack ∷ []))
        × (laws.name_of fp ≡ path)
  unfolding xauth_main
  xauth_main-read files path at_random address_of_main stack fp sixteen h =
      let cookie = make_cookie at_random address_of_main stack in
      elim (Option-cases (io.fopen files path)) [
        | inl e ↦ absurd (not_opened (rw (e, xauth_main) at h))
        | inr (start, e) ↦
            let (same, ok) =
              ended (write_entry io start cookie).0 fp (write_entry io start cookie).1
                (rw (e, xauth_main) at h) in
            (
              ap read_authority
                    (ap contents (sym same) ∙ opened_lem files path cookie start sixteen e ok)
                  ∙ read_entry cookie sixteen,
              ap laws.name_of (sym same)
                  ∙ (write_entry_named start cookie ∙ laws.fopen_named files path start e),
            )
      ]

  unopened_code :
      (files : File) (path : Text) (at_random : Option Text) (address_of_main stack : Text)
      → let r = xauth_main io files path at_random address_of_main stack in r.0 ≡ none → r.1 ≡ 1
  unfolding xauth_main
  unopened_code files path at_random address_of_main stack h = ground arith

  at_exit_lem :
      (files : File) (r : Option Stream × ℕ)
      → (r.0 ≡ none → r.1 ≡ 1)
      → (at_exit io files r).exit_code ≡ 0
      → (fp : Stream) × (r ≡ (some fp, 0))
        × ((at_exit io files r).files ≡ (io.flush_at_exit files fp).0)
        × ((at_exit io files r).flushed ≡ (io.flush_at_exit files fp).1)
  unfolding at_exit
  at_exit_lem files (none, code) unopened h = absurd (zero_one (sym h ∙ unopened refl))
  at_exit_lem files (some fp, code) unopened h = (fp, ap (λ (n : ℕ). (some fp, n)) h, refl, refl)

  -- By what is documented of the streams: where the tool ends with 0, its cookie has 16 bytes and the
  -- flush at exit, which it does not check, puts all of the stream into the file, a reader of the
  -- format takes the file for one entry of the local host with that cookie, and no byte more.
  pub run_tool-read :
      (files : File) (path : Text) (at_random : Option Text) (address_of_main stack : Text)
      → length (make_cookie at_random address_of_main stack) ≡ 16
      → let tool = run_tool io files path at_random address_of_main stack in
        tool.exit_code ≡ 0
        → tool.flushed ≡ true
        → (bytes : Text) × (laws.read tool.files path ≡ some bytes)
          × (read_authority bytes
              ≡ some (
                family,
                address ∷ number ∷ name ∷ make_cookie at_random address_of_main stack ∷ [],
              ))
  unfolding run_tool
  run_tool-read files path at_random address_of_main stack sixteen ok whole =
      let (fp, ran, files', flushed) =
        at_exit_lem files (xauth_main io files path at_random address_of_main stack)
          (unopened_code files path at_random address_of_main stack) ok in
      let (reads, named) =
        xauth_main-read files path at_random address_of_main stack fp sixteen ran in
      let kept = laws.flushed_whole files fp (sym flushed ∙ whole) in
      (contents fp, rw files' (rw named at kept), reads)

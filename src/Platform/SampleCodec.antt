-- ===== src/Platform/SampleCodec.antt =====
-- A codec that keeps its laws: every field is written behind what tells its presence and its length.
use chromiumos_platform_logi.Prelude.{
  ℕ, zero, suc, ◌≡◌, refl, sym, ap, ◌∙◌, Bool, true, false, Option, none, some, List, [], ◌∷◌,
  length, Text,
}
use chromiumos_platform_logi.Platform.Messages.{
  PolicyFetchResponse, PolicyData, DeviceLocalAccountInfo, ChromeDeviceSettings, Codec, CodecLaws,
}

-- A way to write a value in front of other bytes, and to read it off them.
pub record Coding (A : Type 0) : Type 0 where
  pub write : A → Text → Text
  pub read : Text → A × Text
  pub reads : (a : A) (rest : Text) → read (write a rest) ≡ (a, rest)

abbrev read_number : Text → ℕ × Text
read_number [] = (0, [])
read_number (n ∷ rest) = (n, rest)

abbrev number : Coding ℕ
number = record { write = λ n rest. n ∷ rest; read = read_number; reads = λ n rest. refl }

abbrev write_bool : Bool → Text → Text
write_bool true rest = 1 ∷ rest
write_bool false rest = 0 ∷ rest

abbrev read_bool : Text → Bool × Text
read_bool [] = (false, [])
read_bool (zero ∷ rest) = (false, rest)
read_bool (suc _ ∷ rest) = (true, rest)

pub reads_bool : (b : Bool) (rest : Text) → read_bool (write_bool b rest) ≡ (b, rest)
reads_bool true rest = refl
reads_bool false rest = refl

abbrev bool : Coding Bool
bool = record { write = write_bool; read = read_bool; reads = reads_bool }

module _ {A : Type 0} (c : Coding A) where
  abbrev write_option : Option A → Text → Text
  write_option none rest = 0 ∷ rest
  write_option (some a) rest = 1 ∷ c.write a rest

  abbrev read_option : Text → Option A × Text
  read_option [] = (none, [])
  read_option (zero ∷ rest) = (none, rest)
  read_option (suc _ ∷ rest) = (some (c.read rest).0, (c.read rest).1)

  pub reads_option : (o : Option A) (rest : Text) → read_option (write_option o rest) ≡ (o, rest)
  reads_option none rest = refl
  reads_option (some a) rest = ap (λ (r : A × Text). (some r.0, r.1)) (c.reads a rest)

  abbrev option : Coding (Option A)
  option = record { write = write_option; read = read_option; reads = reads_option }

  abbrev write_items : List A → Text → Text
  write_items [] rest = rest
  write_items (a ∷ as') rest = c.write a (write_items as' rest)

  abbrev read_items : ℕ → Text → List A × Text
  read_items zero rest = ([], rest)
  read_items (suc n) rest =
      let later = read_items n (c.read rest).1 in ((c.read rest).0 ∷ later.0, later.1)

  pub reads_items :
      (xs : List A) (rest : Text) → read_items (length xs) (write_items xs rest) ≡ (xs, rest)
  reads_items [] rest = refl
  reads_items (x ∷ xs) rest =
      ap (λ (r : A × Text). let later = read_items (length xs) r.1 in (r.0 ∷ later.0, later.1))
        (c.reads x (write_items xs rest))
      ∙ ap (λ (r : List A × Text). (x ∷ r.0, r.1)) (reads_items xs rest)

  abbrev read_list : Text → List A × Text
  read_list [] = ([], [])
  read_list (n ∷ rest) = read_items n rest

  abbrev list : Coding (List A)
  list = record {
    write = λ xs rest. length xs ∷ write_items xs rest;
    read = read_list;
    reads = reads_items;
  }

module _ {A B : Type 0} (a : Coding A) (b : Coding B) where
  abbrev pair : Coding (A × B)
  pair = record {
    write = λ p rest. a.write p.0 (b.write p.1 rest);
    read = λ t. let r = a.read t in let s = b.read r.1 in ((r.0, s.0), s.1);
    reads = λ p rest.
        ap (λ (r : A × Text). ((r.0, (b.read r.1).0), (b.read r.1).1))
          (a.reads p.0 (b.write p.1 rest))
        ∙ ap (λ (s : B × Text). ((p.0, s.0), s.1)) (b.reads p.1 rest);
  }

-- Through another shape of the same data.
module _ {A B : Type 0} (b : Coding B) (to : A → B) (from : B → A)
    (back : (a : A) → from (to a) ≡ a) where
  abbrev through : Coding A
  through = record {
    write = λ a rest. b.write (to a) rest;
    read = λ t. (from (b.read t).0, (b.read t).1);
    reads = λ a rest.
        ap (λ (r : B × Text). (from r.0, r.1)) (b.reads (to a) rest)
        ∙ ap (λ (x : A). (x, rest)) (back a);
  }

abbrev text : Coding Text
text = list number

abbrev response : Coding PolicyFetchResponse
response =
    through (pair (pair (option text) (option text)) (pair (pair (option text) (option text)) text))
      (λ m. (
        (m.policy_data, m.policy_data_signature),
        ((m.new_public_key, m.new_public_key_signature), m.other),
      ))
      (λ p. record {
        policy_data = p.0.0;
        policy_data_signature = p.0.1;
        new_public_key = p.1.0.0;
        new_public_key_signature = p.1.0.1;
        other = p.1.1;
      })
      (λ m. refl)

abbrev policy_data : Coding PolicyData
policy_data =
    through
      (pair (pair (option text) (option text))
        (pair (pair (option text) (option text)) (pair (pair bool bool) text)))
      (λ m. (
        (m.policy_type, m.policy_value),
        ((m.username, m.request_token), ((m.valid_serial_number_missing, m.unmanaged), m.other)),
      ))
      (λ p. record {
        policy_type = p.0.0;
        policy_value = p.0.1;
        username = p.1.0.0;
        request_token = p.1.0.1;
        valid_serial_number_missing = p.1.1.0.0;
        unmanaged = p.1.1.0.1;
        other = p.1.1.1;
      })
      (λ m. refl)

abbrev account_info : Coding DeviceLocalAccountInfo
account_info =
    through (pair (pair (option text) (option number)) (option text))
      (λ m. ((m.account_id, m.account_type), m.deprecated_public_session_id))
      (λ p. record { account_id = p.0.0; account_type = p.0.1; deprecated_public_session_id = p.1 })
      (λ m. refl)

abbrev device_settings : Coding ChromeDeviceSettings
device_settings =
    through
      (pair (pair (list text) (option bool))
        (pair (pair (option (list text)) (list account_info)) text))
      (λ m. (
        (m.user_whitelist, m.allow_new_users),
        ((m.start_up_flags, m.device_local_accounts), m.other),
      ))
      (λ p. record {
        user_whitelist = p.0.0;
        allow_new_users = p.0.1;
        start_up_flags = p.1.0.0;
        device_local_accounts = p.1.0.1;
        other = p.1.1;
      })
      (λ m. refl)

abbrev parse : {A : Type 0} → Coding A → Text → A × Bool
parse c t = ((c.read t).0, true)

abbrev serialize : {A : Type 0} → Coding A → A → Text
serialize c a = c.write a []

parse-serialize : {A : Type 0} (c : Coding A) (a : A) → parse c (serialize c a) ≡ (a, true)
parse-serialize {A} c a = ap (λ (r : A × Text). (r.0, true)) (c.reads a [])

abbrev pub sample_codec : Codec
sample_codec = record {
  parse_response = parse response;
  serialize_response = λ m. some (serialize response m);
  byte_size = λ m. length (serialize response m);
  serialize_to_array = serialize response;
  parse_policy_data = parse policy_data;
  serialize_policy_data = serialize policy_data;
  parse_settings = parse device_settings;
  serialize_settings = serialize device_settings;
}

value_of : {b b' : Text} → some b ≡ some b' → b ≡ b'
value_of e = cc

pub sample_codec_laws : CodecLaws sample_codec
sample_codec_laws = record {
  parse_serialized = λ m b h. ap (parse response) (sym (value_of h)) ∙ parse-serialize response m;
  sized = λ m. refl;
  same_bytes = λ m b h. value_of h;
  parse_serialized_data = λ m. parse-serialize policy_data m;
  parse_serialized_settings = λ m. parse-serialize device_settings m;
}

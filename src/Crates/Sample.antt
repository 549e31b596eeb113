-- ===== src/Crates/Sample.antt =====
-- A small instance of the interfaces, for the examples: hex as it is, and stand-ins for the codecs and
-- the signatures that have the documented properties.
use preconfirmation_gateway.Common.{
  ℕ, zero, suc, ◌+◌, ◌-◌, ◌*◌, ◌/◌, ◌%◌, ◌≡◌, ◌≢◌, ◌≤◌, ◌∙◌, refl, ap, arith, true, false, ◌&&◌,
  Option, none, some, List, [], ◌∷◌, ◌++◌, leb, ◌==◌, if◌then◌else◌, length, bytes_eq,
  bytes_eq_refl,
}
use preconfirmation_gateway.Types.{Bytes, Text}
use preconfirmation_gateway.Crates.{
  Token, uint, bytes, fixed_bytes, address, array, tuple, Tokens, end, token, RlpItem, number,
  string, item_at, RlpView, Crates, IsHexCodec, IsRlpCodec, IsSecp, x_char,
}

abbrev pub digit : ℕ → ℕ
digit d = if leb d 9 then b'0' + d else b'a' + (d - 10)

abbrev pub hex : Bytes → Text
hex [] = []
hex (b ∷ bs) = digit (b / 16) ∷ digit (b % 16) ∷ hex bs

abbrev pub undigit : ℕ → Option ℕ
undigit c =
    if leb b'0' c && leb c b'9'
    then some (c - b'0')
    else if leb b'A' c && leb c b'F'
    then some (c - b'A' + 10)
    else if leb b'a' c
    then some (c - b'a' + 10)
    else none

abbrev pub byte_of : Option ℕ → Option ℕ → Option Bytes → Option Bytes
byte_of (some h) (some l) (some bs) = some ((h * 16 + l) ∷ bs)
byte_of (some h) (some l) none = none
byte_of (some h) none rest = none
byte_of none l rest = none

abbrev pub unhex : Text → Option Bytes
unhex [] = some []
unhex (c ∷ []) = none
unhex (c ∷ d ∷ s) = byte_of (undigit c) (undigit d) (unhex s)

-- The first bytes, filled up with zeros.
abbrev pub pad : ℕ → Bytes → Bytes
pad zero bs = []
pad (suc n) [] = 0 ∷ pad n []
pad (suc n) (b ∷ bs) = b ∷ pad n bs

abbrev pub repeat : ℕ → ℕ → Bytes
repeat zero b = []
repeat (suc n) b = b ∷ repeat n b

abbrev pub item : Token → Bytes
item (uint n) = n ∷ []
item (bytes b) = b
item (fixed_bytes b) = b
item (address b) = b
item (array ts) = []
item (tuple ts) = []

abbrev pub items : Tokens → Bytes
items end = []
items (token t ts) = item t ++ items ts

abbrev pub no_list : RlpView
no_list = record { is_list = false; item_count = none; u64_at = λ n. none; bytes_at = λ n. none }

-- RLP stands in as pairs of a tag and a value: 0 for a number, 2 for a byte of a string, and 1 at its end.
abbrev pub bytes_out : Bytes → Bytes → Bytes
bytes_out [] rest = 1 ∷ 0 ∷ rest
bytes_out (b ∷ bs) rest = 2 ∷ b ∷ bytes_out bs rest

abbrev pub items_out : List RlpItem → Bytes
items_out [] = []
items_out (number n ∷ rest) = 0 ∷ n ∷ items_out rest
items_out (string b ∷ rest) = bytes_out b (items_out rest)

abbrev pub cons_byte : ℕ → List RlpItem → List RlpItem
cons_byte c [] = []
cons_byte c (number n ∷ rest) = number n ∷ rest
cons_byte c (string b ∷ rest) = string (c ∷ b) ∷ rest

abbrev pub put : ℕ → ℕ → List RlpItem → List RlpItem
put zero value rest = number value ∷ rest
put (suc zero) value rest = string [] ∷ rest
put (suc (suc tag)) value rest = cons_byte value rest

abbrev pub items_in : Bytes → List RlpItem
items_in [] = []
items_in (tag ∷ []) = []
items_in (tag ∷ value ∷ rest) = put tag value (items_in rest)

abbrev pub number_of : Option RlpItem → Option ℕ
number_of none = none
number_of (some (number n)) = some n
number_of (some (string b)) = none

abbrev pub string_of : Option RlpItem → Option Bytes
string_of none = none
string_of (some (number n)) = none
string_of (some (string b)) = some b

abbrev pub list_of : List RlpItem → RlpView
list_of items = record {
  is_list = true;
  item_count = some (length items);
  u64_at = λ i. number_of (item_at i items);
  bytes_at = λ i. string_of (item_at i items);
}

abbrev pub read_rlp : Bytes → RlpView
read_rlp [] = no_list
read_rlp (tag ∷ rest) = if tag == 0xc0 then list_of (items_in rest) else no_list

abbrev pub first : Bytes → ℕ
first [] = 0
first (b ∷ bs) = b

-- A BLS signature that begins as the key does verifies.
instance abbrev pub sample : Crates
sample = record {
  hex_encode = hex;
  hex_decode = unhex;
  json_inclusion = λ b. none;
  json_execution = λ b. none;
  rlp = read_rlp;
  rlp_out = λ n its. 0xc0 ∷ items_out its;
  abi_encode = items;
  keccak = pad 32;
  sign_recoverable = λ m k. (pad 64 m, 0);
  secp_secret_key_valid = λ k. true;
  secp_public_key = λ k. k;
  secp_signature_valid = λ s v. true;
  secp_verify = λ m s k. bytes_eq s (pad 64 m);
  secp_public_key_uncompressed = λ k. 4 ∷ k ++ k;
  blst_secret_key_valid = λ k. true;
  blst_public_key = λ k. pad 48 k;
  blst_public_key_valid = λ k. true;
  blst_signature_valid = λ s. true;
  blst_verify = λ m tag k s. first s == first k;
  blst_sign = λ m tag k. pad 96 k;
}

undigit-digit : (d : ℕ) → undigit (digit d) ≡ some d
undigit-digit d = ground arith

unhex-hex : (b : Bytes) → unhex (hex b) ≡ some b
unhex-hex [] = refl
unhex-hex (b ∷ bs) =
    rw (undigit-digit (b / 16), undigit-digit (b % 16), unhex-hex bs)
      (ap (λ n. some (n ∷ bs)) (omega arith))

abbrev second : Text → ℕ
second [] = 0
second (c ∷ []) = 0
second (c ∷ d ∷ s) = d

digit-ne-x : (n : ℕ) → n ≤ 15 → digit n ≢ x_char
digit-ne-x n h e = ground arith

hex_no_x : (b : Bytes) (c d : ℕ) (rest : Text) → hex b ≡ c ∷ d ∷ rest → d ≢ x_char
hex_no_x [] c d rest h e = cc
hex_no_x (b ∷ bs) c d rest h e = digit-ne-x (b % 16) (omega arith) (ap second h ∙ e)

pub sample-IsHexCodec : IsHexCodec sample
sample-IsHexCodec = record { decode-encode = unhex-hex; encode_no_x = hex_no_x }

bytes_in-out : (b rest : Bytes) → items_in (bytes_out b rest) ≡ string b ∷ items_in rest
bytes_in-out [] rest = refl
bytes_in-out (c ∷ b) rest = ap (cons_byte c) (bytes_in-out b rest)

items_in-out : (its : List RlpItem) → items_in (items_out its) ≡ its
items_in-out [] = refl
items_in-out (number n ∷ rest) = ap (λ r. number n ∷ r) (items_in-out rest)
items_in-out (string b ∷ rest) =
    bytes_in-out b (items_out rest) ∙ ap (λ r. string b ∷ r) (items_in-out rest)

pub sample-IsRlpCodec : IsRlpCodec sample
sample-IsRlpCodec = record {
  is_list-out = λ its. refl;
  item_count-out = λ its. ap (λ r. some (length r)) (items_in-out its);
  u64_at-out = λ its i n h e. ap (λ r. number_of (item_at i r)) (items_in-out its) ∙ ap number_of e;
  bytes_at-out = λ its i b e. ap (λ r. string_of (item_at i r)) (items_in-out its) ∙ ap string_of e;
  not_json = λ its. refl;
}

length-pad : (n : ℕ) (bs : Bytes) → length (pad n bs) ≡ n
length-pad zero bs = refl
length-pad (suc n) [] = ap suc (length-pad n [])
length-pad (suc n) (b ∷ bs) = ap suc (length-pad n bs)

pub sample-IsSecp : IsSecp sample
sample-IsSecp = record {
  signature_length = λ m k. length-pad 64 m;
  recovery_id-le = λ m k. omega arith;
  signature_valid = λ m k. refl;
  verify-sign = λ m k. bytes_eq_refl (pad 64 m);
}

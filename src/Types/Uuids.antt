-- ===== src/Types/Uuids.antt =====
-- UUID of api/types/types_uuid.go: sixteen bytes, and their text. The expression `hexRX` is a matcher of its
-- parts.
pub mod RoundTrip
mod Tests
use libstorage.Base.{
  ℕ, zero, suc, ◌+◌, ◌-◌, ◌*◌, ◌/◌, ◌%◌, bit_and, List, [], ◌∷◌, ◌++◌, Bool, true, false, ◌&&◌,
  ◌||◌, Option, none, some, Text, codes, Result, ok, err, if◌then◌else◌, ◌==◌, nat_eq, leb, ltb,
  drop,
}
use libstorage.Base.Split.{is_prefix}
use libstorage.Types.Errors.{Error, goof}

-- [16]byte
pub record Uuid : Type 0 where
  pub b0 : ℕ
  pub b1 : ℕ
  pub b2 : ℕ
  pub b3 : ℕ
  pub b4 : ℕ
  pub b5 : ℕ
  pub b6 : ℕ
  pub b7 : ℕ
  pub b8 : ℕ
  pub b9 : ℕ
  pub b10 : ℕ
  pub b11 : ℕ
  pub b12 : ℕ
  pub b13 : ℕ
  pub b14 : ℕ
  pub b15 : ℕ

-- fmt `%x` of a byte
abbrev pub hex_digit : ℕ → ℕ
hex_digit d = if ltb d 10 then b'0' + d else b'a' + (d - 10)

unfoldable pub hex : List ℕ → Text
hex [] = []
hex (b ∷ bs) = hex_digit (b / 16) ∷ hex_digit (b % 16) ∷ hex bs

-- String, and MarshalText
unfoldable pub marshal_text : Uuid → Text
unfolding hex
marshal_text u =
    hex (u.b0 ∷ u.b1 ∷ u.b2 ∷ u.b3 ∷ [])
    ++ b'-' ∷ hex (u.b4 ∷ u.b5 ∷ [])
    ++ b'-' ∷ hex (u.b6 ∷ u.b7 ∷ [])
    ++ b'-' ∷ hex (u.b8 ∷ u.b9 ∷ [])
    ++ b'-' ∷ hex (u.b10 ∷ u.b11 ∷ u.b12 ∷ u.b13 ∷ u.b14 ∷ u.b15 ∷ [])

-- `[a-z0-9]`
abbrev pub is_word : ℕ → Bool
is_word c = (leb b'a' c && leb c b'z') || (leb b'0' c && leb c b'9')

abbrev pub put_first : ℕ → Option (Text × Text) → Option (Text × Text)
put_first c none = none
put_first c (some (g, s)) = some (c ∷ g, s)

-- `[a-z0-9]{n}`: the group, and what stands behind it.
unfoldable pub take_word : ℕ → Text → Option (Text × Text)
take_word zero s = some ([], s)
take_word (suc n) [] = none
take_word (suc n) (c ∷ s) = let rest = take_word n s in if is_word c then put_first c rest else none

-- `([a-z0-9]{n})-`
abbrev pub before_dash : Option (Text × Text) → Option (Text × Text)
before_dash none = none
before_dash (some (g, [])) = none
before_dash (some (g, c ∷ s)) = if c == b'-' then some (g, s) else none

-- `[1-5][a-z0-9]{3}`
abbrev pub is_version : Text → Bool
is_version [] = false
is_version (c ∷ s) = leb b'1' c && leb c b'5'

abbrev pub with_version : Option (Text × Text) → Option (Text × Text)
with_version none = none
with_version (some (g, s)) = if is_version g then some (g, s) else none

-- `(urn\:uuid\:)?\{?` and `\}?$`. No group can begin with what these take.
abbrev pub skip_brace : Text → Text
skip_brace [] = []
skip_brace (c ∷ s) = if c == b'{' then s else c ∷ s

abbrev pub skip_urn : Text → Text
skip_urn s = if is_prefix (codes "urn:uuid:") s then drop 9 s else s

abbrev pub is_end : Text → Bool
is_end [] = true
is_end (c ∷ []) = c == b'}'
is_end (c ∷ d ∷ s) = false

abbrev pub last_group : Option (Text × Text) → Option Text
last_group none = none
last_group (some (g, s)) = if is_end s then some g else none

abbrev pub joined : Text → Option Text → Option Text
joined g none = none
joined g (some h) = some (g ++ h)

abbrev pub then_group : Option (Text × Text) → (Text → Option Text) → Option Text
then_group none more = none
then_group (some (g, s)) more = joined g (more s)

-- hexRX: the five groups, one behind the other.
unfoldable pub find_digits : Text → Option Text
unfolding take_word is_prefix
find_digits s = then_group (before_dash (take_word 8 (skip_brace (skip_urn s)))) (λ s.
    then_group (before_dash (take_word 4 s)) (λ s.
      then_group (before_dash (with_version (take_word 4 s)))
        (λ s. then_group (before_dash (take_word 4 s)) (λ s. last_group (take_word 12 s)))))

-- hex.Decode of digits in lower case
abbrev pub digit_value : ℕ → Option ℕ
digit_value c =
    if leb b'0' c && leb c b'9'
    then some (c - b'0')
    else if leb b'a' c && leb c b'f'
    then some (c - b'a' + 10)
    else none

abbrev pub byte_before : Option ℕ → Option ℕ → Option (List ℕ) → Option (List ℕ)
byte_before (some h) (some l) (some bs) = some ((h * 16 + l) ∷ bs)
byte_before (some h) (some l) none = none
byte_before (some h) none bs = none
byte_before none l bs = none

unfoldable pub decode_hex : Text → Option (List ℕ)
decode_hex [] = some []
decode_hex (c ∷ []) = none
decode_hex (c ∷ d ∷ s) = byte_before (digit_value c) (digit_value d) (decode_hex s)

abbrev pub invalid_uuid : Error
invalid_uuid = goof (codes "invalid uuid string")

abbrev pub of_bytes : Option (List ℕ) → Result Error Uuid
of_bytes
      (some (
        b0 ∷ b1 ∷ b2 ∷ b3 ∷ b4 ∷ b5 ∷ b6 ∷ b7 ∷ b8 ∷ b9 ∷ b10 ∷ b11 ∷ b12 ∷ b13 ∷ b14 ∷ b15 ∷ [])) =
    ok (record {
      b0 = b0;
      b1 = b1;
      b2 = b2;
      b3 = b3;
      b4 = b4;
      b5 = b5;
      b6 = b6;
      b7 = b7;
      b8 = b8;
      b9 = b9;
      b10 = b10;
      b11 = b11;
      b12 = b12;
      b13 = b13;
      b14 = b14;
      b15 = b15;
    })
of_bytes _ = err (goof (codes "encoding/hex: invalid byte"))

abbrev pub of_digits : Option Text → Result Error Uuid
of_digits none = err invalid_uuid
of_digits (some digits) = of_bytes (decode_hex digits)

unfoldable pub unmarshal_text : Text → Result Error Uuid
unfolding find_digits decode_hex
unmarshal_text text = of_digits (find_digits text)

-- `|` of Go on bytes
abbrev pub bit_or : ℕ → ℕ → ℕ
bit_or a b = a + b - bit_and a b

-- setVariant for reservedRFC4122, and setVersion
abbrev pub set_variant : Uuid → Uuid
set_variant u = record u { b8 = bit_and (bit_or u.b8 64) 127 }

abbrev pub set_version : ℕ → Uuid → Uuid
set_version v u = record u { b6 = bit_or (bit_and u.b6 15) (v * 16 % 256) }

-- NewUUID, of the bytes that rand.Read gives
unfoldable pub new_uuid : Uuid → Uuid
new_uuid random = set_version 4 (set_variant random)

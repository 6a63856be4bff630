-- ===== src/Types/Values.antt =====
-- The values of dynamic type (interface{}) that a store holds, what fmt prints of them, and
-- ParseVolumeAttachmentTypes of api/types/types_drivers_storage.go.
use libstorage.Base.{
  ℕ, ◌-◌, ◌%◌, ◌^◌, List, [], ◌∷◌, ◌++◌, Bool, true, false, Option, none, some, Text, codes,
}
use libstorage.Base.Int.{ℤ, pos, negsuc, format_int, parse_int, parse_bool}
use libstorage.Types.Attachments.{vol_att_req_true, volume_attachments_requested, vol_att_none}

-- The integer types that the source tells apart.
pub data NumKind : Type 0 where
  int int8 int16 int32 int64 uint uint8 uint16 uint32 uint64 volume_attachments_types : NumKind

-- What a reference points to; `foreign` is any other type.
pub data RefKind : Type 0 where
  store string_map instance_id foreign : RefKind

-- A pointer carries the text that %v prints of it (its address) beside its target. A reference
-- carries its identity, what %v prints of it and what %v prints of its target.
pub data Value : Type 0 where
  nil : Value
  str : Text → Value
  bool : Bool → Value
  num : NumKind → ℤ → Value
  str_ptr : Text → Text → Value
  bool_ptr : Text → Bool → Value
  num_ptr : Text → NumKind → ℤ → Value
  strs : List Text → Value
  ints : List ℤ → Value
  bools : List Bool → Value
  ref : RefKind → ℕ → Text → Text → Value

abbrev pub print_bool : Bool → Text
print_bool true = codes "true"
print_bool false = codes "false"

abbrev spaced : List Text → Text
spaced [] = []
spaced (t ∷ []) = t
spaced (t ∷ u ∷ ts) = t ++ b' ' ∷ spaced (u ∷ ts)

abbrev bracketed : List Text → Text
bracketed ts = b'[' ∷ spaced ts ++ b']' ∷ []

abbrev map_text {ℓ} : {A : Type ℓ} → (A → Text) → List A → List Text
map_text f [] = []
map_text f (x ∷ xs) = f x ∷ map_text f xs

-- fmt.Sprintf("%v", v)
unfoldable pub sprint : Value → Text
sprint nil = codes "<nil>"
sprint (str s) = s
sprint (bool b) = print_bool b
sprint (num k i) = format_int i
sprint (str_ptr a s) = a
sprint (bool_ptr a b) = a
sprint (num_ptr a k i) = a
sprint (strs ts) = bracketed ts
sprint (ints is) = bracketed (map_text format_int is)
sprint (bools bs) = bracketed (map_text print_bool bs)
sprint (ref k i t d) = t

-- getStrFromPossiblePtr of api/utils/utils_store.go
unfoldable pub get_str_from_possible_ptr : Value → Text
unfolding sprint
get_str_from_possible_ptr (str_ptr a s) = s
get_str_from_possible_ptr (bool_ptr a b) = print_bool b
get_str_from_possible_ptr (num_ptr a k i) = format_int i
get_str_from_possible_ptr (ref k i t d) = d
get_str_from_possible_ptr v = sprint v

-- The conversion of an integer to the 64-bit pattern of an int.
unfoldable pub to_word : ℤ → ℕ
to_word (pos n) = n % 2 ^ 64
to_word (negsuc n) = 2 ^ 64 - 1 - n % 2 ^ 64

abbrev mask_of_bool : Bool → ℕ
mask_of_bool true = vol_att_req_true
mask_of_bool false = volume_attachments_requested

abbrev mask_of_parsed_bool : Option Bool → ℕ
mask_of_parsed_bool (some b) = mask_of_bool b
mask_of_parsed_bool none = vol_att_none

abbrev mask_of_parsed : Option ℤ → Option Bool → ℕ
mask_of_parsed (some i) b = to_word i
mask_of_parsed none b = mask_of_parsed_bool b

unfoldable pub parse_volume_attachment_types : Value → ℕ
unfolding to_word
parse_volume_attachment_types (num k i) = to_word i
parse_volume_attachment_types (str s) = mask_of_parsed (parse_int s) (parse_bool s)
parse_volume_attachment_types (bool b) = mask_of_bool b
parse_volume_attachment_types v = vol_att_none

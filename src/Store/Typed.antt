-- ===== src/Store/Typed.antt =====
-- The typed getters of api/utils/utils_store.go.
use libstorage.Base.{ℕ, List, [], Bool, false, Option, none, some, Text, codes}
use libstorage.Base.Int.{ℤ, pos, parse_int, parse_bool}
use libstorage.Types.Values.{
  Value, nil, str, bool, num, str_ptr, bool_ptr, num_ptr, strs, ints, bools, ref, int, int64, store,
  string_map, instance_id, sprint, get_str_from_possible_ptr, parse_volume_attachment_types,
}
use libstorage.Store.{KeyValueStore, get_value}

abbrev or_zero : Option ℤ → ℤ
or_zero none = pos 0
or_zero (some i) = i

abbrev or_false : Option Bool → Bool
or_false none = false
or_false (some b) = b

-- What GetString makes of the value that Get returns; so for the getters below.
unfoldable pub as_string : Value → Text
as_string (str s) = s
as_string nil = []
as_string v = sprint v

unfoldable pub as_string_ptr : Value → Option Text
as_string_ptr (str_ptr a s) = some s
as_string_ptr (str s) = some s
as_string_ptr nil = none
as_string_ptr v = some (get_str_from_possible_ptr v)

unfoldable pub as_bool : Value → Bool
unfolding as_string
as_bool (bool b) = b
as_bool nil = false
as_bool v = or_false (parse_bool (as_string v))

unfoldable pub as_bool_ptr : Value → Option Bool
as_bool_ptr (bool_ptr a b) = some b
as_bool_ptr (bool b) = some b
as_bool_ptr nil = none
as_bool_ptr v = some (or_false (parse_bool (get_str_from_possible_ptr v)))

unfoldable pub as_int : Value → ℤ
unfolding as_string
as_int (num int i) = i
as_int nil = pos 0
as_int v = or_zero (parse_int (as_string v))

unfoldable pub as_int_ptr : Value → Option ℤ
as_int_ptr (num_ptr a int i) = some i
as_int_ptr (num int i) = some i
as_int_ptr nil = none
as_int_ptr v = parse_int (get_str_from_possible_ptr v)

unfoldable pub as_int64 : Value → ℤ
unfolding as_string
as_int64 (num int64 i) = i
as_int64 nil = pos 0
as_int64 v = or_zero (parse_int (as_string v))

unfoldable pub as_int64_ptr : Value → Option ℤ
as_int64_ptr (num_ptr a int64 i) = some i
as_int64_ptr (num int64 i) = some i
as_int64_ptr nil = none
as_int64_ptr v = parse_int (get_str_from_possible_ptr v)

-- The getters of slices and references: `[]` and `none` are nil.
unfoldable pub as_string_slice : Value → List Text
as_string_slice (strs ts) = ts
as_string_slice v = []

unfoldable pub as_int_slice : Value → List ℤ
as_int_slice (ints is) = is
as_int_slice v = []

unfoldable pub as_bool_slice : Value → List Bool
as_bool_slice (bools bs) = bs
as_bool_slice v = []

unfoldable pub as_store : Value → Option ℕ
as_store (ref store a t d) = some a
as_store v = none

unfoldable pub as_map : Value → Option ℕ
as_map (ref string_map a t d) = some a
as_map v = none

unfoldable pub as_instance_id : Value → Option ℕ
as_instance_id (ref instance_id a t d) = some a
as_instance_id v = none

module _ (k : Text) (now : ℕ) (s : KeyValueStore) where
  -- GetStore
  unfoldable pub get_store : Option ℕ
  unfolding as_store
  get_store = as_store (get_value k now s).0

  unfoldable pub get_string : Text
  unfolding as_string
  get_string = as_string (get_value k now s).0

  unfoldable pub get_string_ptr : Option Text
  unfolding as_string_ptr
  get_string_ptr = as_string_ptr (get_value k now s).0

  unfoldable pub get_bool : Bool
  unfolding as_bool
  get_bool = as_bool (get_value k now s).0

  unfoldable pub get_bool_ptr : Option Bool
  unfolding as_bool_ptr
  get_bool_ptr = as_bool_ptr (get_value k now s).0

  unfoldable pub get_int : ℤ
  unfolding as_int
  get_int = as_int (get_value k now s).0

  unfoldable pub get_int64 : ℤ
  unfolding as_int64
  get_int64 = as_int64 (get_value k now s).0

  unfoldable pub get_int64_ptr : Option ℤ
  unfolding as_int64_ptr
  get_int64_ptr = as_int64_ptr (get_value k now s).0

  -- GetVolumeAttachmentsTypes
  unfoldable pub get_volume_attachments_types : ℕ
  unfolding parse_volume_attachment_types
  get_volume_attachments_types = parse_volume_attachment_types (get_value k now s).0

-- GetAttachments
unfoldable pub get_attachments : ℕ → KeyValueStore → ℕ
unfolding get_volume_attachments_types
get_attachments = get_volume_attachments_types (codes "attachments")

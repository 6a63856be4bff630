-- ===== src/Types/InstanceIds.antt =====
-- InstanceID of api/types/types_instanceid.go: MarshalText, and UnmarshalText into a new object. The
-- record stands in Types/Models.antt. Base64 is a parameter; the text of a query is written and read
-- as net/url does it.
pub mod Fields
pub mod RoundTrip
mod Tests
use libstorage.Base.{
  ℕ, ◌+◌, ◌-◌, ◌/◌, ◌%◌, List, [], ◌∷◌, ◌++◌, Bool, false, ◌&&◌, ◌||◌, Option, none, some, Text,
  codes, Result, ok, err, if◌then◌else◌, ◌==◌, nat_eq, leb, ltb, text_eq,
}
use libstorage.Base.Dict.{Dict, get, put, is_some}
use libstorage.Base.Order.{sort_by}
use libstorage.Base.Split.{split, split_at}
use libstorage.Filter.{query_unescape}
use libstorage.Types.Errors.{Error, goof}
use libstorage.Types.Models.{InstanceId}

-- encoding/base64: `none` is an error of the one read that is made.
pub record Base64 : Type 0 where
  pub encode : Text → Text
  pub read : Text → Option Text

abbrev is_unreserved : ℕ → Bool
is_unreserved c =
    (leb b'a' c && leb c b'z')
    || (leb b'A' c && leb c b'Z')
    || (leb b'0' c && leb c b'9')
    || c == b'-'
    || c == b'_'
    || c == b'.'
    || c == b'~'

abbrev hex_of : ℕ → ℕ
hex_of d = if ltb d 10 then b'0' + d else b'A' + d - 10

abbrev escape_byte : ℕ → Text
escape_byte c =
    if is_unreserved c
    then c ∷ []
    else if c == b' '
    then b'+' ∷ []
    else b'%' ∷ hex_of (c / 16) ∷ hex_of (c % 16) ∷ []

-- url.QueryEscape
unfoldable pub query_escape : Text → Text
query_escape [] = []
query_escape (c ∷ s) = escape_byte c ++ query_escape s

abbrev pub key_of : Text × Text → Text
key_of e = e.0

-- url.Values.Encode, for one value under each key
unfoldable pub encode_fields : Dict Text Text → Text
encode_fields [] = []
encode_fields ((k, v) ∷ []) = query_escape k ++ b'=' ∷ query_escape v
encode_fields ((k, v) ∷ e ∷ es) =
    (query_escape k ++ b'=' ∷ query_escape v) ++ b'&' ∷ encode_fields (e ∷ es)

abbrev service_text : Text → Text
service_text [] = []
service_text (c ∷ s) = b':' ∷ c ∷ s

abbrev metadata_text : Base64 → Text → Text
metadata_text b64 [] = []
metadata_text b64 (c ∷ m) = b',' ∷ b64.encode (c ∷ m)

abbrev more_text : Base64 → Dict Text Text → Text → Text
unfolding encode_fields sort_by
more_text b64 [] [] = []
more_text b64 [] (c ∷ m) = b',' ∷ metadata_text b64 (c ∷ m)
more_text b64 (f ∷ fs) m = b',' ∷ encode_fields (sort_by key_of (f ∷ fs)) ++ metadata_text b64 m

unfoldable pub marshal_text : Base64 → InstanceId → Text
unfolding encode_fields sort_by
marshal_text b64 i =
    i.driver ++ service_text i.service ++ b'=' ∷ i.id ++ more_text b64 i.fields i.metadata

-- The groups of the expression `iidRX`: the text before the first equals sign, the text up to the next
-- comma, and what stands behind it.
unfoldable pub cut_at : ℕ → Text → Text → Text × Option Text
cut_at sep before [] = (before, none)
cut_at sep before (c ∷ s) =
    let more = cut_at sep (before ++ c ∷ []) s in if c == sep then (before, some s) else more

unfoldable pub has_line_feed : Text → Bool
has_line_feed [] = false
has_line_feed (c ∷ s) = c == 10 || has_line_feed s

-- `(.*?)(?:,(.+))?$`: the third group ends at the first comma that is not the last byte; none of the
-- bytes is a line feed.
unfoldable pub cut_fields : Text → Text → Option (Text × Text)
unfolding has_line_feed
cut_fields fields [] = some (fields, [])
cut_fields fields (c ∷ []) = if c == 10 then none else some (fields ++ c ∷ [], [])
cut_fields fields (c ∷ d ∷ s) =
    let more = cut_fields (fields ++ c ∷ []) (d ∷ s) in
    if c == 10
    then none
    else if c == b','
    then (if has_line_feed (d ∷ s) then none else some (fields, d ∷ s))
    else more

-- url.ParseQuery and the loop that keeps the first value under each key; `none` is an error.
abbrev key_value : Text × Option Text → Text × Text
key_value (k, none) = (k, [])
key_value (k, some v) = (k, v)

abbrev keep_first : Text → Text → Dict Text Text → Dict Text Text
unfolding get put
keep_first k v fs = if is_some (get fs k) then fs else put k v fs

abbrev add_field : Dict Text Text → Option Text → Option Text → Option (Dict Text Text)
add_field fs (some k) (some v) = some (keep_first k v fs)
add_field fs none v = none
add_field fs (some k) none = none

abbrev add_part : Option (Dict Text Text) → Text → Option (Dict Text Text)
unfolding query_unescape cut_at
add_part none part = none
add_part (some fs) [] = some fs
add_part (some fs) (c ∷ s) =
    let kv = key_value (cut_at b'=' [] (c ∷ s)) in
    add_field fs (query_unescape kv.0) (query_unescape kv.1)

unfoldable pub add_parts : Option (Dict Text Text) → List Text → Option (Dict Text Text)
unfolding query_unescape cut_at get put
add_parts fs [] = fs
add_parts fs (part ∷ parts) = add_parts (add_part fs part) parts

abbrev pub is_field_end : ℕ → Bool
is_field_end c = c == b'&' || c == b';'

unfoldable pub parse_fields : Text → Option (Dict Text Text)
unfolding add_parts split_at
parse_fields s = add_parts (some []) (split_at is_field_end s)

abbrev pub invalid_instance_id : Error
invalid_instance_id = goof (codes "invalid InstanceID")

abbrev read_metadata : Base64 → Text → Option Text
read_metadata b64 [] = some []
read_metadata b64 (c ∷ s) = b64.read (c ∷ s)

abbrev read_fields : Text → Option (Dict Text Text)
unfolding parse_fields
read_fields [] = some []
read_fields (c ∷ s) = parse_fields (c ∷ s)

abbrev second : List Text → Text
second [] = []
second (d ∷ []) = []
second (d ∷ s ∷ ds) = s

abbrev first : List Text → Text
first [] = []
first (d ∷ ds) = d

abbrev with_metadata : Text → Text → Dict Text Text → Option Text → Result Error InstanceId
unfolding split
with_metadata dos id fields none = err (goof (codes "illegal base64 data"))
with_metadata dos id fields (some m) = ok (record {
  id = id;
  driver = first (split b':' dos);
  service = second (split b':' dos);
  fields = fields;
  metadata = m;
})

abbrev with_fields : Base64 → Text → Text → Option (Dict Text Text) → Text → Result Error InstanceId
unfolding split
with_fields b64 dos id none m = err (goof (codes "invalid URL escape"))
with_fields b64 dos id (some fields) m = with_metadata dos id fields (read_metadata b64 m)

abbrev with_groups : Base64 → Text → Text → Option (Text × Text) → Result Error InstanceId
unfolding split parse_fields
with_groups b64 dos id none = err invalid_instance_id
with_groups b64 dos id (some (f, m)) = with_fields b64 dos id (read_fields f) m

abbrev with_id : Base64 → Text → Text × Option Text → Result Error InstanceId
unfolding split parse_fields cut_fields
with_id b64 dos (id, none) = with_groups b64 dos id (some ([], []))
with_id b64 dos (id, some s) = with_groups b64 dos id (cut_fields [] s)

abbrev with_driver : Base64 → Text × Option Text → Result Error InstanceId
unfolding split parse_fields cut_fields cut_at
with_driver b64 (dos, none) = err invalid_instance_id
with_driver b64 ([], some s) = err invalid_instance_id
with_driver b64 (c ∷ dos, some s) = with_id b64 (c ∷ dos) (cut_at b',' [] s)

unfoldable pub unmarshal_text : Base64 → Text → Result Error InstanceId
unfolding split parse_fields cut_fields cut_at
unmarshal_text b64 value = with_driver b64 (cut_at b'=' [] value)

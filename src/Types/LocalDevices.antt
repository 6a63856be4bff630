-- ===== src/Types/LocalDevices.antt =====
-- LocalDevices of api/types/types_localdevices.go: MarshalText and UnmarshalText. The map is a
-- dictionary. The expression `ldRX` is a search for the end of the driver's name and a run over the
-- rest, which keeps all places of the expression that the bytes so far can lead to.
pub mod RoundTrip
mod Tests
use libstorage.Base.{
  ℕ, List, [], ◌∷◌, ◌++◌, Bool, true, false, ◌&&◌, ◌||◌, not, Option, none, some, Text, codes,
  Result, ok, err, if◌then◌else◌, ◌==◌, nat_eq, text_eq,
}
use libstorage.Base.Dict.{Dict, put}
use libstorage.Base.Order.{sort_by}
use libstorage.Base.Split.{split, on_first}
use libstorage.Types.Errors.{Error, goof}

pub record LocalDevices : Type 0 where
  pub driver : Text
  pub device_map : Dict Text Text

abbrev pub pair_text : Text × Text → Text
pair_text (k, v) = k ++ b':' ∷ b':' ∷ v

unfoldable pub pair_texts : Dict Text Text → Text
pair_texts [] = []
pair_texts (e ∷ es) = pair_text e ++ b',' ∷ pair_texts es

-- t.Truncate(t.Len() - 1)
unfoldable pub truncated : Text → Text
truncated [] = []
truncated (c ∷ []) = []
truncated (c ∷ d ∷ s) = c ∷ truncated (d ∷ s)

abbrev pub key_of : Text × Text → Text
key_of e = e.0

unfoldable pub marshal_text : LocalDevices → Text
unfolding truncated pair_texts sort_by
marshal_text l = l.driver ++ b'=' ∷ truncated (pair_texts (sort_by key_of l.device_map))

-- `\s` of a regular expression
abbrev pub is_blank : ℕ → Bool
is_blank c = c == 32 || c == 9 || c == 10 || c == 12 || c == 13

-- The places of `\S+::\S+(?::\s*,\s*\S+::\S+)*`: at its start, in a key, behind the first and the second
-- colon of a pair, in a value, behind the colon that ends a pair, behind a comma.
pub record Places : Type 0 where
  pub at_start : Bool
  pub in_key : Bool
  pub one_colon : Bool
  pub two_colons : Bool
  pub in_value : Bool
  pub end_colon : Bool
  pub comma : Bool

abbrev pub start : Places
start = record {
  at_start = true;
  in_key = false;
  one_colon = false;
  two_colons = false;
  in_value = false;
  end_colon = false;
  comma = false;
}

abbrev pub advance : Places → ℕ → Places
advance m c = record {
  at_start = false;
  in_key = (m.at_start || m.in_key || m.comma) && not (is_blank c);
  one_colon = m.in_key && c == b':';
  two_colons = m.one_colon && c == b':';
  in_value = (m.two_colons || m.in_value) && not (is_blank c);
  end_colon = (m.in_value && c == b':') || (m.end_colon && is_blank c);
  comma = (m.end_colon && c == b',') || (m.comma && is_blank c);
}

unfoldable pub run_places : Places → Text → Places
run_places m [] = m
run_places m (c ∷ s) = run_places (advance m c) s

unfoldable pub matches_pairs : Text → Bool
unfolding run_places
matches_pairs [] = true
matches_pairs (c ∷ s) = (run_places start (c ∷ s)).in_value

abbrev pub is_some_text : Text → Bool
is_some_text [] = false
is_some_text (c ∷ s) = true

-- The shortest driver's name that lets the rest match, and the rest.
unfoldable pub find_pairs : Text → Text → Option (Text × Text)
unfolding matches_pairs
find_pairs driver [] = none
find_pairs driver (c ∷ s) =
    let more = find_pairs (driver ++ c ∷ []) s in
    if c == b'=' && is_some_text driver && matches_pairs s
    then some (driver, s)
    else if c == 10
    then none
    else more

-- bytes.Split at two colons
unfoldable pub split_colons : Text → List Text
split_colons [] = [] ∷ []
split_colons (c ∷ []) = (c ∷ []) ∷ []
split_colons (c ∷ d ∷ s) =
    let behind = split_colons s in
    let more = split_colons (d ∷ s) in
    if c == b':' && d == b':' then [] ∷ behind else on_first c more

abbrev pub add_pair : Dict Text Text → List Text → Dict Text Text
unfolding put
add_pair m [] = m
add_pair m (p ∷ []) = m
add_pair m (k ∷ v ∷ ps) = put k v m

unfoldable pub add_pairs : Dict Text Text → List Text → Dict Text Text
unfolding split_colons put
add_pairs m [] = m
add_pairs m (p ∷ ps) = add_pairs (add_pair m (split_colons p)) ps

abbrev pub invalid_local_devices : Error
invalid_local_devices = goof (codes "invalid LocalDevices")

abbrev pub read_pairs : Option (Text × Text) → Result Error LocalDevices
unfolding add_pairs split
read_pairs none = err invalid_local_devices
read_pairs (some (driver, s)) =
    ok (record { driver = driver; device_map = add_pairs [] (split b',' s) })

unfoldable pub unmarshal_text : Text → Result Error LocalDevices
unfolding find_pairs add_pairs split
unmarshal_text value = read_pairs (find_pairs [] value)

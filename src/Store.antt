-- ===== src/Store.antt =====
-- keyValueStore of api/utils/utils_store.go: a map whose keys are compared in lower case, with an
-- optional time to live. A method takes the clock, in nanoseconds, where the source calls
-- time.Now, and returns the store, since a read may touch a timer. Locks are not modelled: each
-- method is one step.
pub mod Typed
pub mod Lookup
pub mod Expiry
pub mod Getters
mod Tests
use libstorage.Base.{
  ℕ, ◌+◌, ◌≤◌, List, [], ◌∷◌, Bool, true, false, ◌||◌, not, Option, none, some, Text, to_lower, ltb,
  if◌then◌else◌, text_eq,
}
use libstorage.Base.Dict.{Dict, get, put, delete, is_some}
use libstorage.Types.Values.{Value, nil}

-- A ttlTimer; `expires` is nil until the first touch.
pub record TtlTimer : Type 0 where
  pub expires : Option ℕ

unfoldable pub touch : ℕ → ℕ → TtlTimer → TtlTimer
touch now duration t = record { expires = some (now + duration) }

abbrev before : Option ℕ → ℕ → Bool
before none now = true
before (some t) now = ltb t now

unfoldable pub expired : ℕ → TtlTimer → Bool
expired now t = before t.expires now

-- `timers` is `none` for the nil map of a store with no time to live.
pub record KeyValueStore : Type 0 where
  pub store : Dict Text Value
  pub ttl : ℕ
  pub timers : Option (Dict Text TtlTimer)
  pub hl : Bool

abbrev lowered : Dict Text Value → Dict Text Value → Dict Text Value
lowered [] cm = cm
lowered ((k, v) ∷ m) cm = lowered m (put (to_lower k) v cm)

-- newKeyValueStore. The result `none` is the panic of a touch through the nil timer of a key that
-- the new, empty timer map does not hold.
unfoldable pub new_key_value_store : Dict Text Value → Option ℕ → Bool → Option KeyValueStore
new_key_value_store m none hard_limit =
    some (record { store = lowered m []; ttl = 0; timers = none; hl = false })
new_key_value_store [] (some ttl) hard_limit =
    some (record { store = []; ttl = ttl; timers = some []; hl = hard_limit })
new_key_value_store (kv ∷ m) (some ttl) hard_limit = none

-- NewStore
abbrev pub new_store : KeyValueStore
new_store = record { store = []; ttl = 0; timers = none; hl = false }

-- NewTTLStore
abbrev pub new_ttl_store : ℕ → Bool → KeyValueStore
new_ttl_store duration hard_limit = record {
  store = [];
  ttl = duration;
  timers = some [];
  hl = hard_limit;
}

abbrev pub value_or_nil : Option Value → Value
value_or_nil none = nil
value_or_nil (some v) = v

-- What follows the lookup of a timer: the timer of a key that is read is touched, unless the
-- limit is hard.
abbrev touched : KeyValueStore → ℕ → Text → Dict Text TtlTimer → TtlTimer → KeyValueStore
touched s now k timers t =
    if s.hl then s else record s { timers = some (put k (touch now s.ttl t) timers) }

abbrev live : ℕ → Option TtlTimer → Bool
live now none = false
live now (some t) = not (expired now t)

abbrev read_timer :
    {A : Type 0}
    → A
    → A
    → KeyValueStore
    → ℕ
    → Text
    → Dict Text TtlTimer
    → Option TtlTimer
    → A × KeyValueStore
read_timer hit miss s now k timers none = (miss, s)
read_timer hit miss s now k timers (some t) =
    if expired now t then (miss, s) else (hit, touched s now k timers t)

abbrev with_timers :
    {A : Type 0}
    → A
    → A
    → KeyValueStore
    → ℕ
    → Text
    → Option (Dict Text TtlTimer)
    → A × KeyValueStore
with_timers hit miss s now k none = (hit, s)
with_timers hit miss s now k (some timers) = read_timer hit miss s now k timers (get timers k)

abbrev is_set_entry : KeyValueStore → ℕ → Text → Option Value → Bool × KeyValueStore
is_set_entry s now k none = (false, s)
is_set_entry s now k (some v) = with_timers true false s now k s.timers

unfoldable pub is_set : Text → ℕ → KeyValueStore → Bool × KeyValueStore
unfolding touch expired
is_set k now s = is_set_entry s now (to_lower k) (get s.store (to_lower k))

abbrev get_entry : KeyValueStore → ℕ → Text → Option Value → Value × KeyValueStore
get_entry s now k none = (nil, s)
get_entry s now k (some v) = with_timers v nil s now k s.timers

unfoldable pub get_value : Text → ℕ → KeyValueStore → Value × KeyValueStore
unfolding touch expired
get_value k now s = get_entry s now (to_lower k) (get s.store (to_lower k))

abbrev started : ℕ → ℕ → Text → Option (Dict Text TtlTimer) → Option (Dict Text TtlTimer)
started now ttl k none = none
started now ttl k (some timers) = some (put k (touch now ttl (record { expires = none })) timers)

-- Set
unfoldable pub set_value : Text → Value → ℕ → KeyValueStore → KeyValueStore
unfolding touch
set_value k v now s = record s {
  timers = started now s.ttl (to_lower k) s.timers;
  store = put (to_lower k) v s.store;
}

-- Delete; it leaves the key's timer.
unfoldable pub delete_key : Text → KeyValueStore → Value × KeyValueStore
delete_key k s =
    let k' = to_lower k in
    elim (get s.store k') [ none ↦ (nil, s) | some v ↦ (v, record s { store = delete k' s.store }) ]

-- The loop of `cleanup` over the timers.
sweep :
    ℕ
    → Dict Text TtlTimer
    → Dict Text Value
    → Dict Text TtlTimer
    → Dict Text Value × Dict Text TtlTimer
unfolding expired
sweep now [] store timers = (store, timers)
sweep now ((k, t) ∷ rest) store timers =
    let gone = sweep now rest (delete k store) (delete k timers) in
    let kept = sweep now rest store timers in if expired now t then gone else kept

abbrev swept : KeyValueStore → ℕ → Option (Dict Text TtlTimer) → KeyValueStore
unfolding sweep
swept s now none = s
swept s now (some timers) =
    let (store', timers') = sweep now timers s.store timers in
    record s { store = store'; timers = some timers' }

unfoldable pub cleanup : ℕ → KeyValueStore → KeyValueStore
unfolding sweep
cleanup now s = swept s now s.timers

abbrev map_keys : Dict Text Value → List Text
map_keys [] = []
map_keys ((k, v) ∷ m) = k ∷ map_keys m

unfoldable pub keys : KeyValueStore → List Text
keys s = map_keys s.store

-- The loop of `Map` over the keys.
abbrev collect : List Text → ℕ → KeyValueStore → Dict Text Value × KeyValueStore
unfolding get_value
collect [] now s = ([], s)
collect (k ∷ ks) now s =
    let (v, s') = get_value k now s in let (m, s'') = collect ks now s' in (put k v m, s'')

unfoldable pub store_map : ℕ → KeyValueStore → Dict Text Value × KeyValueStore
unfolding keys get_value
store_map now s = collect (keys s) now s

-- ===== src/Store/Expiry.antt =====
-- The time to live of api/utils/utils_store.go: timers, touches and the cleanup.
use libstorage.Base.{
  ℕ, ◌+◌, ◌≤◌, ◌≡◌, refl, [], ◌∷◌, Bool, true, false, Option, none, some, Text, to_lower,
  if◌then◌else◌, arith, text_eq, text_beq_iff, text_beq_refl, sym,
}
use mathlib.Core.Path.{subst}
use libstorage.Base.Dict.{
  Dict, get, delete, get-put, get-delete, Distinct, put-Distinct, delete-Distinct,
}
use libstorage.Types.Values.{Value}
use libstorage.Store.{
  KeyValueStore, TtlTimer, get_value, is_set, set_value, delete_key, cleanup, sweep, expired,
}

abbrev timer_expired : ℕ → Option TtlTimer → Bool
unfolding expired
timer_expired now none = false
timer_expired now (some t) = expired now t

abbrev TimersDistinct : Option (Dict Text TtlTimer) → Type 0
TimersDistinct none = Unit
TimersDistinct (some timers) = Distinct timers

-- The timers have distinct keys, as those of a Go map have.
abbrev pub IsWellFormed : KeyValueStore → Type 0
IsWellFormed s = TimersDistinct s.timers

-- What the loop over the timers `l` leaves of the two maps.
get-sweep :
    (now : ℕ) (l : Dict Text TtlTimer) (st : Dict Text Value) (tms : Dict Text TtlTimer) (k : Text)
    → Distinct l
    → (get (sweep now l st tms).0 k ≡ (if timer_expired now (get l k) then none else get st k))
      × (get (sweep now l st tms).1 k ≡ (if timer_expired now (get l k) then none else get tms k))
unfolding sweep get expired
get-sweep now [] st tms k h = (refl, refl)
get-sweep now ((j, t) ∷ l) st tms k h = ground (
  arith,
  get-sweep now l st tms k,
  get-sweep now l (delete j st) (delete j tms) k,
  get-delete st j k,
  get-delete tms j k,
  text_beq_iff j k,
)

sweep-Distinct :
    (now : ℕ) (l : Dict Text TtlTimer) (st : Dict Text Value) (tms : Dict Text TtlTimer)
    → Distinct tms
    → Distinct (sweep now l st tms).1
unfolding sweep expired
sweep-Distinct now [] st tms h = h
sweep-Distinct now ((j, t) ∷ l) st tms h = ground (
  arith,
  sweep-Distinct now l st tms h,
  sweep-Distinct now l (delete j st) (delete j tms) (delete-Distinct j tms h),
)

get-after-cleanup :
    (k : Text) (st : Dict Text Value) (ttl : ℕ) (tms : Option (Dict Text TtlTimer)) (hl : Bool)
    (now : ℕ)
    → TimersDistinct tms
    → let s : KeyValueStore = record { store = st; ttl = ttl; timers = tms; hl = hl } in
      (get_value k now (cleanup now s)).0 ≡ (get_value k now s).0
unfolding get_value cleanup
get-after-cleanup k st ttl none hl now h = refl
get-after-cleanup k st ttl (some tms) hl now h =
    ground (arith, get-sweep now tms st tms (to_lower k) h)

-- The cleanup removes nothing that a Get could still see: for a store whose timers have distinct
-- keys, a Get directly after the cleanup gives what it would have given without it.
pub get_value-cleanup :
    (k : Text) (now : ℕ) (s : KeyValueStore)
    → IsWellFormed s
    → (get_value k now (cleanup now s)).0 ≡ (get_value k now s).0
get_value-cleanup k now s = get-after-cleanup k s.store s.ttl s.timers s.hl now

set-TimersDistinct :
    (k : Text) (v : Value) (now : ℕ) (s : KeyValueStore)
    → TimersDistinct s.timers
    → TimersDistinct (set_value k v now s).timers
unfolding set_value
set-TimersDistinct k v now s = go s.timers
  where
    go :
        (tms : Option (Dict Text TtlTimer))
        → TimersDistinct tms
        → TimersDistinct (set_value k v now (record s { timers = tms })).timers
    go none h = tt
    go (some tms) h = put-Distinct (to_lower k) _ tms h

timers-delete_key : (k : Text) (s : KeyValueStore) → (delete_key k s).1.timers ≡ s.timers
unfolding delete_key
timers-delete_key k s = ground arith

delete-TimersDistinct :
    (k : Text) (s : KeyValueStore)
    → TimersDistinct s.timers
    → TimersDistinct (delete_key k s).1.timers
delete-TimersDistinct k s h = subst TimersDistinct (sym (timers-delete_key k s)) h

get-TimersDistinct :
    (k : Text) (now : ℕ) (st : Dict Text Value) (ttl : ℕ) (tms : Option (Dict Text TtlTimer))
    (hl : Bool)
    → TimersDistinct tms
    → let s : KeyValueStore = record { store = st; ttl = ttl; timers = tms; hl = hl } in
      TimersDistinct (get_value k now s).1.timers
unfolding get_value
get-TimersDistinct k now st ttl none hl h = ground arith
get-TimersDistinct k now st ttl (some tms) hl h =
    ground (arith, put-Distinct (to_lower k) (record { expires = some (now + ttl) }) tms h)

cleanup-TimersDistinct :
    (now : ℕ) (st : Dict Text Value) (ttl : ℕ) (tms : Option (Dict Text TtlTimer)) (hl : Bool)
    → TimersDistinct tms
    → let s : KeyValueStore = record { store = st; ttl = ttl; timers = tms; hl = hl } in
      TimersDistinct (cleanup now s).timers
unfolding cleanup
cleanup-TimersDistinct now st ttl none hl h = tt
cleanup-TimersDistinct now st ttl (some tms) hl h = sweep-Distinct now tms st tms h

-- Set, Delete, Get and the cleanup keep the keys of the timers distinct.
steps-IsWellFormed :
    (k : Text) (v : Value) (now : ℕ) (s : KeyValueStore)
    → IsWellFormed s
    → IsWellFormed (set_value k v now s)
      × IsWellFormed (delete_key k s).1
      × IsWellFormed (get_value k now s).1
      × IsWellFormed (cleanup now s)
steps-IsWellFormed k v now s h = (
  set-TimersDistinct k v now s h,
  delete-TimersDistinct k s h,
  get-TimersDistinct k now s.store s.ttl s.timers s.hl h,
  cleanup-TimersDistinct now s.store s.ttl s.timers s.hl h,
)

get_after_get :
    (k : Text) (now now' : ℕ) (st : Dict Text Value) (ttl : ℕ) (tms : Option (Dict Text TtlTimer))
    (hl : Bool)
    → hl ≡ false
    → let s : KeyValueStore = record { store = st; ttl = ttl; timers = tms; hl = hl } in
      (is_set k now s).0 ≡ true
      → now' ≤ now + ttl
      → (get_value k now' (get_value k now s).1).0 ≡ (get_value k now s).0
unfolding get_value is_set
get_after_get k now now' st ttl none hl sl h le = ground arith
get_after_get k now now' st ttl (some tms) hl sl h le = ground (
  arith,
  get-put tms (to_lower k) (to_lower k) (record { expires = some (now + ttl) }),
  text_beq_refl (to_lower k),
)

-- A read of a store with a sliding limit keeps the key for another time to live: where IsSet says
-- yes at `now`, a Get at `now` followed by a Get at most `ttl` later gives the same value twice.
pub get_value_sliding :
    (k : Text) (now now' : ℕ) (s : KeyValueStore)
    → s.hl ≡ false
    → (is_set k now s).0 ≡ true
    → now' ≤ now + s.ttl
    → (get_value k now' (get_value k now s).1).0 ≡ (get_value k now s).0
get_value_sliding k now now' s = get_after_get k now now' s.store s.ttl s.timers s.hl

-- With a hard limit a Get changes nothing, so that no read delays the expiry.
pub get_value_hard :
    (k : Text) (now : ℕ) (s : KeyValueStore) → s.hl ≡ true → (get_value k now s).1 ≡ s
unfolding get_value
get_value_hard k now s hard = ground arith

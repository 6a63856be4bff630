-- ===== src/Store/Lookup.antt =====
-- Set, Get, IsSet and Delete of api/utils/utils_store.go against one another.
use libstorage.Base.{
  ℕ, ◌+◌, ◌≡◌, Bool, ◌&&◌, Option, none, some, Text, to_lower, equal_fold, text_beq_iff, ltb,
  if◌then◌else◌, arith, text_eq,
}
use libstorage.Base.Dict.{Dict, get, get-put, get-delete, is_some}
use libstorage.Types.Values.{Value, nil}
use libstorage.Store.{
  KeyValueStore, TtlTimer, get_value, is_set, set_value, delete_key, value_or_nil,
}

-- The stores with and without timers are taken apart by clauses.
get-after-set :
    (k j : Text) (st : Dict Text Value) (ttl : ℕ) (tms : Option (Dict Text TtlTimer)) (hl : Bool)
    (v : Value) (now now' : ℕ)
    → let s : KeyValueStore = record { store = st; ttl = ttl; timers = tms; hl = hl } in
      (get_value j now' (set_value k v now s)).0 ≡ (
        if equal_fold k j
        then (if is_some tms && ltb (now + ttl) now' then nil else v)
        else (get_value j now' s).0)
unfolding get_value set_value equal_fold
get-after-set k j st ttl none hl v now now' = ground (arith, get-put st (to_lower k) (to_lower j) v)
get-after-set k j st ttl (some tms) hl v now now' =
    let fresh : TtlTimer = record { expires = some (now + ttl) } in
    ground
      (arith, get-put st (to_lower k) (to_lower j) v, get-put tms (to_lower k) (to_lower j) fresh)

module _ (k j : Text) (s : KeyValueStore) where
  -- A Get, at any time `now'`, after a Set of the value `v` at the time `now`: under a key that
  -- differs at most in case it gives `v`, or nil if the store has a time to live and that has
  -- passed since the Set; under any other key it gives what it gave before.
  pub get_value-set_value :
      (v : Value) (now now' : ℕ)
      → (get_value j now' (set_value k v now s)).0 ≡ (
          if equal_fold k j
          then (if is_some s.timers && ltb (now + s.ttl) now' then nil else v)
          else (get_value j now' s).0)
  get_value-set_value = get-after-set k j s.store s.ttl s.timers s.hl

  -- A Delete returns the stored value, and afterwards a Get gives nil under the deleted key and
  -- its former value under a key that differs in more than case.
  pub get_value-delete_key :
      (now : ℕ)
      → (get_value j now (delete_key k s).1).0
        ≡ (if equal_fold k j then nil else (get_value j now s).0)
  unfolding get_value delete_key equal_fold
  get_value-delete_key now =
      ground (
        arith,
        get-delete s.store (to_lower k) (to_lower j),
        text_beq_iff (to_lower k) (to_lower j),
      )

-- IsSet and Get agree, and touch the same timer: where IsSet says yes, Get gives the value that is
-- stored under the lower-case key; where it says no, Get gives nil; and they leave the same store.
pub get_value-is_set :
    (k : Text) (now : ℕ) (s : KeyValueStore)
    → get_value k now s ≡ (
      if (is_set k now s).0 then value_or_nil (get s.store (to_lower k)) else nil,
      (is_set k now s).1,
    )
unfolding is_set get_value
get_value-is_set k now s = ground arith

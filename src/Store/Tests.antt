-- ===== src/Store/Tests.antt =====
-- Runs of the store of api/utils/utils_store.go.
use libstorage.Base.{
  ◌≡◌, text_beq, refl, [], ◌∷◌, true, false, some, codes, text_eq, to_lower, arith,
}
use libstorage.Base.Dict.{get, put}
use libstorage.Types.Values.{nil, str}
use libstorage.Store.{KeyValueStore, new_ttl_store, get_value, set_value, is_set, cleanup}
use libstorage.Store.Expiry.{IsWellFormed, get_value-cleanup, get_value_sliding}

-- A store with the time to live 10 and one key, set at the time 100.
abbrev sliding : KeyValueStore
sliding = record {
  store = (codes "size", str (codes "8")) ∷ [];
  ttl = 10;
  timers = some ((codes "size", record { expires = some 110 }) ∷ []);
  hl = false;
}

abbrev hard : KeyValueStore
hard = record {
  store = (codes "size", str (codes "8")) ∷ [];
  ttl = 10;
  timers = some ((codes "size", record { expires = some 110 }) ∷ []);
  hl = true;
}

sliding-IsWellFormed : IsWellFormed sliding
unfolding get
sliding-IsWellFormed = (refl, tt)

made : set_value (codes "Size") (str (codes "8")) 100 (new_ttl_store 10 false) ≡ sliding
unfolding set_value put to_lower
made = refl

size_before : (get_value (codes "SIZE") 110 sliding).0 ≡ str (codes "8")
unfolding get_value get text_beq to_lower
size_before = refl

size_after : (get_value (codes "size") 111 sliding).0 ≡ nil
unfolding get_value get text_beq to_lower
size_after = refl

get_value-cleanup_example :
    (get_value (codes "size") 120 (cleanup 120 sliding)).0
    ≡ (get_value (codes "size") 120 sliding).0
get_value-cleanup_example = get_value-cleanup (codes "size") 120 sliding sliding-IsWellFormed

size_set : (is_set (codes "size") 105 sliding).0 ≡ true
unfolding is_set get text_beq to_lower
size_set = refl

get_value_sliding_example :
    (get_value (codes "size") 114 (get_value (codes "size") 105 sliding).1).0
    ≡ (get_value (codes "size") 105 sliding).0
get_value_sliding_example =
    get_value_sliding (codes "size") 105 114 sliding refl size_set (omega arith)

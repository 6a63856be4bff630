-- ===== src/Handlers/Query.antt =====
-- What a store gives for a query parameter: api/server/handlers/handlers_query_params.go.
use libstorage.Base.{ℕ, List, [], ◌∷◌, ◌≡◌, refl, ◌∙◌, ap, none, Text, equal_fold, if◌then◌else◌}
use libstorage.Types.Values.{Value}
use libstorage.Store.{KeyValueStore, get_value, set_value}
use libstorage.Store.Lookup.{get_value-set_value}
use libstorage.Handlers.{query_value, set_params}

-- The value of the last parameter whose name differs from `j` at most in case, or else `v`.
abbrev pub last_value : Text → List (Text × List Text) → Value → Value
last_value j [] v = v
last_value j ((k, vs) ∷ params) v =
    last_value j params (if equal_fold k j then query_value vs else v)

timers-set_value :
    (k : Text) (v : Value) (now : ℕ) (s : KeyValueStore)
    → s.timers ≡ none
    → (set_value k v now s).timers ≡ none
unfolding set_value
timers-set_value k v now s h = rw h refl

get-after-set :
    (j k : Text) (v : Value) (now : ℕ) (s : KeyValueStore)
    → s.timers ≡ none
    → (get_value j now (set_value k v now s)).0
      ≡ (if equal_fold k j then v else (get_value j now s).0)
get-after-set j k v now s h = get_value-set_value k j s v now now ∙ rw h refl

-- A store without a time to live, after the loop over the query parameters: a Get gives the value of the
-- last parameter whose name differs from the key at most in case, and if there is none, what it gave before.
pub get_value-set_params :
    (j : Text) (now : ℕ) (params : List (Text × List Text)) (s : KeyValueStore)
    → s.timers ≡ none
    → (get_value j now (set_params now params s)).0 ≡ last_value j params (get_value j now s).0
unfolding set_params set_value
get_value-set_params j now [] s h = refl
get_value-set_params j now ((k, vs) ∷ params) s h =
    get_value-set_params j now params (set_value k (query_value vs) now s)
      (timers-set_value k (query_value vs) now s h)
    ∙ ap (last_value j params) (get-after-set j k (query_value vs) now s h)

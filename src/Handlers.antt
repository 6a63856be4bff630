-- ===== src/Handlers.antt =====
-- The handlers through which a request passes before its route: api/server/handlers, and their
-- composition in api/server/server_middleware.go. A context of type `C` and the store of the request
-- are passed on; a handler acts on a world of type `S`. Logging is left out.
pub mod Query
pub mod Nested
pub mod Headers
pub mod Services
pub mod Transport
pub mod Arrived
pub mod Devices
mod Tests
use libstorage.Base.{
  ℕ, List, [], ◌∷◌, ◌++◌, Bool, true, false, Option, none, some, Text, codes, Result, ok, err, Exec,
  pure, raise, continue, ◌>>=◌, ◌>>◌, if◌then◌else◌,
}
use libstorage.Base.Int.{ℤ, parse_int, parse_bool}
use libstorage.Types.Errors.{Error, goof, not_found, panicked, endless}
use libstorage.Types.Values.{Value, str, bool, num, int64, strs}
use libstorage.Store.{KeyValueStore, set_value, is_set}
use libstorage.Store.Typed.{get_string}

abbrev pub ApiFunc : Type 0 → Type 0 → Type 0
ApiFunc C S = C → KeyValueStore → Exec S Error (Unit {0})

abbrev pub Middleware : Type 0 → Type 0 → Type 0
Middleware C S = ApiFunc C S → ApiFunc C S

abbrev as_bool_or_text : Text → Option Bool → Value
as_bool_or_text v none = str v
as_bool_or_text v (some b) = bool b

abbrev as_int_or_else : Text → Option ℤ → Value
unfolding parse_bool
as_int_or_else v none = as_bool_or_text v (parse_bool v)
as_int_or_else v (some i) = num int64 i

-- What the store keeps for the values of a query parameter.
unfoldable pub query_value : List Text → Value
unfolding parse_int parse_bool
query_value [] = bool true
query_value ([] ∷ []) = bool true
query_value ((c ∷ v) ∷ []) = as_int_or_else (c ∷ v) (parse_int (c ∷ v))
query_value (v ∷ w ∷ vs) = strs (v ∷ w ∷ vs)

-- The loop over the parameters, in the order in which the map is read.
unfoldable pub set_params : ℕ → List (Text × List Text) → KeyValueStore → KeyValueStore
unfolding query_value set_value
set_params now [] store = store
set_params now ((k, vs) ∷ params) store =
    set_params now params (set_value k (query_value vs) now store)

abbrev pub status_not_found : ℕ
status_not_found = 404

abbrev pub status_internal_server_error : ℕ
status_internal_server_error = 500

-- ErrBadAdminToken is made by a route that is not modelled.
abbrev pub get_status : Error → ℕ
get_status (not_found t) = status_not_found
get_status e = status_internal_server_error

-- `write_json` sends a status with an error.
abbrev pub answered :
    {S : Type 0} → (ℕ → Error → S → S) → Result Error (Unit {0}) × S → Result Error (Unit {0}) × S
answered write_json (ok u, s) = (ok tt, s)
answered write_json (err panicked, s) = (err panicked, s)
answered write_json (err endless, s) = (err endless, s)
answered write_json (err e, s) = (ok tt, write_json (get_status e) e s)

module _ {C S : Type 0} where
  abbrev pub query_params : ℕ → List (Text × List Text) → Middleware C S
  unfolding set_params
  query_params now params handler ctx store = handler ctx (set_params now params store)

  abbrev pub errors : (ℕ → Error → S → S) → Middleware C S
  errors write_json handler ctx store s = answered write_json (handler ctx store s)

  abbrev validated :
      {Service : Type 0} → (Service → C → C) → Text → Option Service → ApiFunc C S → ApiFunc C S
  validated with_service name none handler ctx store = raise (not_found name)
  validated with_service name (some service) handler ctx store =
      handler (with_service service ctx) store

  -- The service that the store names, among those of the server.
  abbrev pub service_validator :
      {Service : Type 0} → (Text → Option Service) → (Service → C → C) → ℕ → Middleware C S
  unfolding is_set get_string
  service_validator find with_service now handler ctx store =
      if (is_set (codes "service") now store).0
      then validated with_service (get_string (codes "service") now store)
          (find (get_string (codes "service") now store)) handler ctx store
      else raise (goof (codes "missing store key"))

  abbrev pub on_request : Option (C → KeyValueStore → Exec S Error (Unit {0})) → Middleware C S
  on_request none handler ctx store = handler ctx store
  on_request (some hook) handler ctx store = do hook ctx store; handler ctx store

  -- The loops of handleWithMiddleware: over the handlers of the route, and then over those of the server.
  unfoldable pub reversed : List (Middleware C S) → List (Middleware C S)
  reversed [] = []
  reversed (m ∷ ms) = reversed ms ++ m ∷ []

  unfoldable pub wrap_each : List (Middleware C S) → ApiFunc C S → ApiFunc C S
  wrap_each [] handler = handler
  wrap_each (m ∷ ms) handler = wrap_each ms (m handler)

  unfoldable pub handle_with_middleware :
      List (Middleware C S) → List (Middleware C S) → ApiFunc C S → ApiFunc C S
  unfolding reversed wrap_each
  handle_with_middleware global route handler =
      wrap_each (reversed global) (wrap_each (reversed route) handler)

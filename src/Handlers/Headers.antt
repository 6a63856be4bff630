-- ===== src/Handlers/Headers.antt =====
-- The handlers of api/server/handlers that read the headers of a request: of instance IDs, of local devices and of
-- the transaction, and the one that opens a session with a storage driver. What they put into the context goes
-- through functions on it.
use libstorage.Base.{
  List, [], ◌∷◌, Option, none, some, Text, Result, ok, err, Exec, pure, raise, ◌>>=◌, to_lower,
  text_eq,
}
use libstorage.Base.Dict.{Dict, get, put}
use libstorage.Types.Errors.{Error}
use libstorage.Types.Models.{InstanceId}
use libstorage.Types.InstanceIds.{Base64}
use libstorage.Types.InstanceIds
use libstorage.Types.LocalDevices
use libstorage.Types.LocalDevices.{LocalDevices}
use libstorage.Types.Transactions.{Transaction}
use libstorage.Types.Transactions
use libstorage.Handlers.{Middleware}

-- NewInstanceIDHandler: the drivers of the services, by the names that are given with them.
unfoldable pub service_drivers : List (Text × Text) → Dict Text Text → Dict Text Text
unfolding put
service_drivers [] s2d = s2d
service_drivers ((service, driver) ∷ svcs) s2d =
    service_drivers svcs (put (to_lower service) (to_lower driver) s2d)

-- The two maps of the instance IDs.
pub record ById : Type 0 where
  pub s2i : Dict Text InstanceId
  pub d2i : Dict Text InstanceId

abbrev pub add_instance_id : InstanceId → Text → ById → ById
add_instance_id iid [] m = record m { d2i = put (to_lower iid.driver) iid m.d2i }
add_instance_id iid (c ∷ service) m = record m { s2i = put (to_lower (c ∷ service)) iid m.s2i }

abbrev added : InstanceId → ById → ById
added iid m = add_instance_id iid iid.service m

-- The loop over the headers.
unfoldable pub read_instance_ids : Base64 → List Text → ById → Result Error ById
unfolding put InstanceIds.unmarshal_text
read_instance_ids b64 [] m = ok m
read_instance_ids b64 (header ∷ headers) m = elim (InstanceIds.unmarshal_text b64 header) [
  | err e ↦ err e
  | ok iid ↦ read_instance_ids b64 headers (added iid m)
]

abbrev pub or_of_driver : ById → Text → Option InstanceId → Option InstanceId
or_of_driver m driver (some iid) = some iid
or_of_driver m driver none = get m.d2i driver

abbrev pub put_if : Text → Option InstanceId → Dict Text InstanceId → Dict Text InstanceId
put_if service none val_map = val_map
put_if service (some iid) val_map = put service iid val_map

-- The loop over the services.
unfoldable pub instance_id_map : Dict Text Text → ById → Dict Text InstanceId → Dict Text InstanceId
unfolding get put
instance_id_map [] m val_map = val_map
instance_id_map ((service, driver) ∷ s2d) m val_map =
    instance_id_map s2d m (put_if service (or_of_driver m driver (get m.s2i service)) val_map)

unfoldable pub read_local_devices :
    List Text → Dict Text LocalDevices → Result Error (Dict Text LocalDevices)
unfolding put LocalDevices.unmarshal_text
read_local_devices [] val_map = ok val_map
read_local_devices (header ∷ headers) val_map = elim (LocalDevices.unmarshal_text header) [
  | err e ↦ err e
  | ok ld ↦ read_local_devices headers (put (to_lower ld.driver) ld val_map)
]

abbrev passed :
    {S A : Type 0} → Result Error A → (A → Exec S Error (Unit {0})) → Exec S Error (Unit {0})
passed (err e) handler = raise e
passed (ok a) handler = handler a

-- A driver without a Login gives no session.
abbrev logged_in : {C Session : Type 0} → (Session → C → C) → C → Option Session → C
logged_in with_value ctx none = ctx
logged_in with_value ctx (some sess) = with_value sess ctx

module _ {C S : Type 0} where
  abbrev pub instance_ids :
      Base64 → (Dict Text InstanceId → C → C) → List (Text × Text) → List Text → Middleware C S
  instance_ids b64 with_value svcs headers handler ctx store =
      passed (read_instance_ids b64 headers (record { s2i = []; d2i = [] }))
        (λ m. handler (with_value (instance_id_map (service_drivers svcs []) m []) ctx) store)

  abbrev pub local_devices : (Dict Text LocalDevices → C → C) → List Text → Middleware C S
  local_devices with_value headers handler ctx store =
      passed (read_local_devices headers []) (λ m. handler (with_value m ctx) store)

  -- `require_tx` is context.RequireTX.
  abbrev pub transaction : (Transaction → C → C) → (C → Exec S Error C) → Text → Middleware C S
  transaction with_value require_tx [] handler ctx store = do
    ctx' ← require_tx ctx
    handler ctx' store
  transaction with_value require_tx (c ∷ header) handler ctx store =
      passed (Transactions.unmarshal_text (c ∷ header)) (λ tx. handler (with_value tx ctx) store)

  -- context.WithStorageSession
  abbrev pub with_storage_session :
      {Session : Type 0}
      → (Session → C → C)
      → (C → Option (Exec S Error (Option Session)))
      → C
      → Exec S Error C
  with_storage_session with_value login ctx = elim (login ctx) [
    | none ↦ pure ctx
    | some ask ↦ do sess ← ask; pure (logged_in with_value ctx sess)
  ]

  abbrev pub storage_session :
      {Session : Type 0}
      → (Session → C → C)
      → (C → Option (Exec S Error (Option Session)))
      → Middleware C S
  storage_session with_value login handler ctx store = do
    ctx' ← with_storage_session with_value login ctx
    handler ctx' store

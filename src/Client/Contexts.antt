-- ===== src/Client/Contexts.antt =====
-- What the client puts into the context of a request: drivers/storage/libstorage/libstorage_utils.go, and
-- InstanceID of libstorage_client_xcli.go with the InstanceInspect of libstorage_client_api.go that it calls.
use libstorage.Base.{
  List, [], ◌∷◌, Option, none, some, Text, codes, Result, ok, err, Exec, pure, raise, ◌>>=◌, ◌>>◌,
  if◌then◌else◌, text_eq, to_lower,
}
use libstorage.Base.Dict.{Dict, get, put, is_some}
use libstorage.Types.Errors.{Error, panicked}
use libstorage.Types.Models.{InstanceId}
use libstorage.Types.LocalDevices.{LocalDevices}
use libstorage.Types.InstanceIds
use libstorage.Types.InstanceIds.{Base64}
use libstorage.Client.{
  Fault, not_implemented, executor_not_supported, failed, integration_client, controller_client,
  ServiceInfo, Context, Host, Platform, Settings, on_world, not_controller, run_executor,
}
use libstorage.Client.Api.{Api, Instance}
use libstorage.Client.Xcli.{ready, local_devices, device_scan_quick, lsx_sop_instance_id, returned}

abbrev keys_of : {A : Type 0} → Dict Text A → List Text
keys_of [] = []
keys_of ((k, v) ∷ m) = k ∷ keys_of m

abbrev with_ids : Context → Dict Text InstanceId → Context
with_ids ctx [] = ctx
with_ids ctx (e ∷ es) = record ctx { instance_ids = some (e ∷ es) }

abbrev pub or_failed : Result Error InstanceId → Result Fault InstanceId
or_failed (ok iid) = ok iid
or_failed (err e) = err (failed e)

module _ {S : Type 0} (c : Settings) (p : Platform S) where
  unfoldable pub with_all_instance_ids : Context → Host S → Context
  with_all_instance_ids ctx h = elim c.client_type [
    | integration_client ↦ with_ids ctx h.instance_id_cache
    | controller_client ↦ ctx
  ]

  abbrev with_cached : Context → Option InstanceId → Context
  with_cached ctx none = ctx
  with_cached ctx (some iid) = record ctx { instance_id = some iid }

  abbrev with_service_id : Host S → Context → Option ServiceInfo → Context
  unfolding get to_lower
  with_service_id h ctx none = ctx
  with_service_id h ctx (some si) = with_cached ctx (get h.instance_id_cache (to_lower si.name))

  unfoldable pub with_instance_id : Context → Text → Host S → Context
  unfolding get to_lower
  with_instance_id ctx service h =
      let ctx' = record ctx { service = some service } in
      elim c.client_type [
        | integration_client ↦ with_service_id h ctx' (get h.service_cache (to_lower service))
        | controller_client ↦ ctx'
      ]

  abbrev noted :
      Text
      → Dict Text LocalDevices
      → Result Fault LocalDevices
      → Exec (Host S) Fault (Dict Text LocalDevices)
  unfolding put
  noted driver ldm (ok ld) = pure (put driver ld ldm)
  noted driver ldm (err executor_not_supported) = pure ldm
  noted driver ldm (err not_implemented) = pure ldm
  noted driver ldm (err e) = raise e

  abbrev ask_devices :
      Context → Text → Text → Dict Text LocalDevices → Exec (Host S) Fault (Dict Text LocalDevices)
  unfolding put local_devices
  ask_devices ctx service driver ldm h =
      let asked = local_devices c p (record ctx { service = some service }) device_scan_quick h in
      noted driver ldm asked.0 asked.1

  -- One round of the loop over the services; the drivers that were asked are the keys of the map.
  abbrev devices_of :
      Context
      → Text
      → Option ServiceInfo
      → Dict Text LocalDevices
      → Exec (Host S) Fault (Dict Text LocalDevices)
  unfolding get put to_lower local_devices
  devices_of ctx service none ldm = raise (failed panicked)
  devices_of ctx service (some si) ldm =
      if is_some (get ldm (to_lower si.driver_name))
      then pure ldm
      else ask_devices ctx service (to_lower si.driver_name) ldm

  unfoldable pub collect_devices :
      Context → List Text → Dict Text LocalDevices → Exec (Host S) Fault (Dict Text LocalDevices)
  unfolding get put to_lower local_devices
  collect_devices ctx [] ldm = pure ldm
  collect_devices ctx (service ∷ services) ldm = do
    ldm' ← (λ h. devices_of ctx service (get h.service_cache (to_lower service)) ldm h)
    collect_devices ctx services ldm'

  unfoldable pub with_all_local_devices : Context → Exec (Host S) Fault Context
  unfolding collect_devices
  with_all_local_devices ctx h = elim c.client_type [
    | controller_client ↦ (ok ctx, h)
    | integration_client ↦
        (do
          ldm ← collect_devices ctx (keys_of h.service_cache) []
          pure (record ctx { local_devices = some ldm }))
          h
  ]

  module _ (api : Api S) where
    unfoldable pub instance_inspect : Context → Text → Exec (Host S) Fault Instance
    unfolding with_instance_id
    instance_inspect ctx service = do
      not_controller c p (codes "InstanceInspect")
      (λ h. on_world (api.instance_inspect (with_instance_id ctx service h) service) h)

    abbrev pub identified :
        Text → Text → InstanceId → Option InstanceId → Exec (Host S) Fault InstanceId
    identified service driver iid none = raise (failed panicked)
    identified service driver iid (some found) = pure (record iid {
      id = found.id;
      driver = driver;
      service = service;
      fields = found.fields;
      metadata = [];
    })

    -- An instance ID with metadata is sent to the server, which completes it.
    abbrev pub completed :
        Context → Text → Text → InstanceId → Text → Exec (Host S) Fault InstanceId
    completed ctx service driver iid [] = pure iid
    completed ctx service driver iid (b ∷ m) = do
      instance' ← instance_inspect (record ctx { instance_id = some iid }) service
      identified service driver iid instance'.instance_id

    abbrev pub cache_instance_id : Text → InstanceId → Exec (Host S) Fault InstanceId
    cache_instance_id service iid h =
        (ok iid, record h { instance_id_cache = put (to_lower service) iid h.instance_id_cache })

    abbrev pub ask_instance_id : Base64 → Context → Text → Text → Exec (Host S) Fault InstanceId
    ask_instance_id b64 ctx service driver = do
      out ← run_executor c p (driver ∷ codes "instanceID" ∷ [])
      read ← returned (or_failed (InstanceIds.unmarshal_text b64 out))
      iid ← completed ctx service driver (record read { service = [] }) read.metadata
      cache_instance_id service iid

    abbrev pub cached_or_asked :
        Base64 → Context → Text → Text → Option InstanceId → Exec (Host S) Fault InstanceId
    cached_or_asked b64 ctx service driver (some iid) = pure iid
    cached_or_asked b64 ctx service driver none = ask_instance_id b64 ctx service driver

    -- InstanceID
    unfoldable pub instance_id : Base64 → Context → Exec (Host S) Fault InstanceId
    unfolding ready run_executor instance_inspect get put to_lower InstanceIds.unmarshal_text
    instance_id b64 ctx = do
      found ← ready c p (codes "InstanceID") lsx_sop_instance_id ctx
      (λ h.
          cached_or_asked b64 ctx found.0 (to_lower found.1.driver_name)
            (get h.instance_id_cache (to_lower found.0)) h)

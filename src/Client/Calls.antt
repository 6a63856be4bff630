-- ===== src/Client/Calls.antt =====
-- The calls of drivers/storage/libstorage/libstorage_client_api.go: each puts what it has to into the
-- context and hands the request on, some with the hooks of a client driver around it.
use libstorage.Base.{
  ℕ, [], ◌∷◌, Bool, Option, none, some, Text, codes, ok, Exec, ◌>>=◌, ◌>>◌, to_lower, text_eq,
}
use libstorage.Base.Dict.{Dict, put}
use libstorage.Types.Errors.{Error}
use libstorage.Types.Models.{Volume, Snapshot, VolumeMap, SnapshotMap}
use libstorage.Client.{
  Fault, ServiceInfo, ExecutorInfo, Context, Host, Platform, Settings, on_world, not_controller,
}
use libstorage.Client.Api.{
  Api, Instance, Hooks, ClientDriver, ClientDrivers, VolumeCreateRequest, VolumeCopyRequest,
  VolumeSnapshotRequest, VolumeAttachRequest, VolumeDetachRequest, SnapshotCopyRequest,
}
use libstorage.Client.Contexts.{with_all_instance_ids, with_instance_id, with_all_local_devices}

-- The loops that fill a cache.
unfoldable pub put_all : {A : Type 0} → Dict Text A → Dict Text A → Dict Text A
unfolding put to_lower
put_all [] m = m
put_all ((k, v) ∷ infos) m = put_all infos (put (to_lower k) v m)

module _ {S : Type 0} (c : Settings) (p : Platform S) (api : Api S) where
  -- The contexts of a call for one service, and for all.
  abbrev for_service : Context → Text → Exec (Host S) Fault Context
  unfolding with_instance_id
  for_service ctx service h = (ok (with_instance_id c p ctx service h), h)

  abbrev for_service_devices : Context → Text → Exec (Host S) Fault Context
  unfolding with_instance_id with_all_local_devices
  for_service_devices ctx service = do
    ctx' ← for_service ctx service
    with_all_local_devices c p ctx'

  abbrev for_all : Context → Exec (Host S) Fault Context
  unfolding with_all_instance_ids
  for_all ctx h = (ok (with_all_instance_ids c p ctx h), h)

  unfoldable pub instances : Context → Exec (Host S) Fault (Dict Text Instance)
  unfolding with_all_instance_ids
  instances ctx = do
    not_controller c p (codes "Instances")
    ctx' ← for_all ctx
    on_world (api.instances ctx')

  unfoldable pub root : Context → Exec (Host S) Fault Text
  root ctx = on_world (api.root ctx)

  abbrev cache_services : Dict Text ServiceInfo → Exec (Host S) Fault (Dict Text ServiceInfo)
  unfolding put_all
  cache_services infos h = (ok infos, record h { service_cache = put_all infos h.service_cache })

  unfoldable pub services : Context → Exec (Host S) Fault (Dict Text ServiceInfo)
  unfolding with_all_instance_ids put_all
  services ctx = do ctx' ← for_all ctx; infos ← on_world (api.services ctx'); cache_services infos

  unfoldable pub service_inspect : Context → Text → Exec (Host S) Fault ServiceInfo
  unfolding with_instance_id
  service_inspect ctx service = do
    ctx' ← for_service ctx service
    on_world (api.service_inspect ctx' service)

  unfoldable pub volumes : Context → ℕ → Exec (Host S) Fault (Dict Text VolumeMap)
  unfolding with_all_instance_ids with_all_local_devices
  volumes ctx attachments = do
    ctx' ← with_all_local_devices c p ctx
    ctx'' ← for_all ctx'
    on_world (api.volumes ctx'' attachments)

  unfoldable pub volumes_by_service : Context → Text → ℕ → Exec (Host S) Fault VolumeMap
  unfolding with_instance_id with_all_local_devices
  volumes_by_service ctx service attachments = do
    ctx' ← for_service_devices ctx service
    on_world (api.volumes_by_service ctx' service attachments)

  unfoldable pub volume_inspect : Context → Text → Text → ℕ → Exec (Host S) Fault Volume
  unfolding with_instance_id with_all_local_devices
  volume_inspect ctx service volume_id attachments = do
    ctx' ← for_service_devices ctx service
    on_world (api.volume_inspect ctx' service volume_id attachments)

  -- A call with the hooks of the client driver of a service, if it has one.
  abbrev after_call : {R A : Type 0} → Hooks S R A → Context → A → Exec (Host S) Fault A
  after_call hooks ctx a h =
      (ok (hooks.after ctx a h.world).0, record h { world = (hooks.after ctx a h.world).1 })

  abbrev hooked_by :
      {R A : Type 0}
      → Option (ClientDriver S)
      → (ClientDriver S → Hooks S R A)
      → (Context → R → Exec S Error A)
      → Context
      → R
      → Exec (Host S) Fault A
  hooked_by none hooks call ctx request = on_world (call ctx request)
  hooked_by (some lsd) hooks call ctx request = do
    on_world (lsd.init ctx)
    ready' ← on_world ((hooks lsd).before ctx request)
    a ← on_world (call ready'.0 ready'.1)
    after_call (hooks lsd) ready'.0 a

  module _ (drivers : ClientDrivers S) where
    unfoldable pub volume_create : Context → Text → VolumeCreateRequest → Exec (Host S) Fault Volume
    unfolding with_instance_id with_all_local_devices
    volume_create ctx service request = do
      ctx' ← for_service_devices ctx service
      hooked_by (drivers service) (λ d. d.volume_create service)
          (λ x r. api.volume_create x service r) ctx' request

    unfoldable pub volume_create_from_snapshot :
        Context → Text → Text → VolumeCreateRequest → Exec (Host S) Fault Volume
    unfolding with_instance_id
    volume_create_from_snapshot ctx service snapshot_id request = do
      ctx' ← for_service ctx service
      hooked_by (drivers service) (λ d. d.volume_create_from_snapshot service snapshot_id)
          (λ x r. api.volume_create_from_snapshot x service snapshot_id r) ctx' request

    unfoldable pub volume_copy :
        Context → Text → Text → VolumeCopyRequest → Exec (Host S) Fault Volume
    unfolding with_instance_id
    volume_copy ctx service volume_id request = do
      ctx' ← for_service ctx service
      hooked_by (drivers service) (λ d. d.volume_copy service volume_id)
          (λ x r. api.volume_copy x service volume_id r) ctx' request

    unfoldable pub volume_remove : Context → Text → Text → Bool → Exec (Host S) Fault (Unit {0})
    unfolding with_instance_id
    volume_remove ctx service volume_id force = do
      ctx' ← for_service ctx service
      hooked_by (drivers service) (λ d. d.volume_remove service volume_id)
          (λ x r. api.volume_remove x service volume_id force) ctx' tt

  unfoldable pub volume_attach :
      Context → Text → Text → VolumeAttachRequest → Exec (Host S) Fault (Volume × Text)
  unfolding with_instance_id with_all_local_devices
  volume_attach ctx service volume_id request = do
    not_controller c p (codes "VolumeAttach")
    ctx' ← for_service_devices ctx service
    on_world (api.volume_attach ctx' service volume_id request)

  unfoldable pub volume_detach :
      Context → Text → Text → VolumeDetachRequest → Exec (Host S) Fault Volume
  unfolding with_instance_id with_all_local_devices
  volume_detach ctx service volume_id request = do
    not_controller c p (codes "VolumeDetach")
    ctx' ← for_service_devices ctx service
    on_world (api.volume_detach ctx' service volume_id request)

  unfoldable pub volume_detach_all :
      Context → VolumeDetachRequest → Exec (Host S) Fault (Dict Text VolumeMap)
  unfolding with_all_instance_ids with_all_local_devices
  volume_detach_all ctx request = do
    not_controller c p (codes "VolumeDetachAll")
    ctx' ← for_all ctx
    ctx'' ← with_all_local_devices c p ctx'
    on_world (api.volume_detach_all ctx'' request)

  unfoldable pub volume_detach_all_for_service :
      Context → Text → VolumeDetachRequest → Exec (Host S) Fault VolumeMap
  unfolding with_instance_id with_all_local_devices
  volume_detach_all_for_service ctx service request = do
    not_controller c p (codes "VolumeDetachAllForService")
    ctx' ← for_service_devices ctx service
    on_world (api.volume_detach_all_for_service ctx' service request)

  unfoldable pub volume_snapshot :
      Context → Text → Text → VolumeSnapshotRequest → Exec (Host S) Fault Snapshot
  unfolding with_instance_id
  volume_snapshot ctx service volume_id request = do
    ctx' ← for_service ctx service
    on_world (api.volume_snapshot ctx' service volume_id request)

  unfoldable pub snapshots : Context → Exec (Host S) Fault (Dict Text SnapshotMap)
  unfolding with_all_instance_ids
  snapshots ctx = do ctx' ← for_all ctx; on_world (api.snapshots ctx')

  unfoldable pub snapshots_by_service : Context → Text → Exec (Host S) Fault SnapshotMap
  unfolding with_instance_id
  snapshots_by_service ctx service = do
    ctx' ← for_service ctx service
    on_world (api.snapshots_by_service ctx' service)

  unfoldable pub snapshot_inspect : Context → Text → Text → Exec (Host S) Fault Snapshot
  unfolding with_instance_id
  snapshot_inspect ctx service snapshot_id = do
    ctx' ← for_service ctx service
    on_world (api.snapshot_inspect ctx' service snapshot_id)

  unfoldable pub snapshot_remove : Context → Text → Text → Exec (Host S) Fault (Unit {0})
  unfolding with_instance_id
  snapshot_remove ctx service snapshot_id = do
    ctx' ← for_service ctx service
    on_world (api.snapshot_remove ctx' service snapshot_id)

  unfoldable pub snapshot_copy :
      Context → Text → Text → SnapshotCopyRequest → Exec (Host S) Fault Snapshot
  unfolding with_instance_id
  snapshot_copy ctx service snapshot_id request = do
    ctx' ← for_service ctx service
    on_world (api.snapshot_copy ctx' service snapshot_id request)

  abbrev cache_executors : Dict Text ExecutorInfo → Exec (Host S) Fault (Dict Text ExecutorInfo)
  unfolding put_all
  cache_executors infos h = (ok infos, record h { lsx_cache = put_all infos h.lsx_cache })

  unfoldable pub executors : Context → Exec (Host S) Fault (Dict Text ExecutorInfo)
  unfolding put_all
  executors ctx = do
    not_controller c p (codes "Executors")
    infos ← on_world (api.executors ctx)
    cache_executors infos

  unfoldable pub executor_head : Context → Text → Exec (Host S) Fault ExecutorInfo
  executor_head ctx name = do
    not_controller c p (codes "ExecutorHead")
    on_world (api.executor_head ctx name)

  unfoldable pub executor_get : Context → Text → Exec (Host S) Fault Text
  executor_get ctx name = do
    not_controller c p (codes "ExecutorGet")
    on_world (api.executor_get ctx name)

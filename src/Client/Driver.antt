-- ===== src/Client/Driver.antt =====
-- The client's storage driver of drivers/storage/libstorage/libstorage_driver_funcs.go, which names the
-- service of the context in each call.
use libstorage.Base.{List, [], ◌∷◌, Option, none, some, Text, codes, Exec, pure, ◌>>=◌, ◌>>◌}
use libstorage.Base.Dict.{Dict}
use libstorage.Types.Models.{Volume, Snapshot}
use libstorage.Store.{KeyValueStore}
use libstorage.Router.{VolumesOpts, VolumeCreateOpts, VolumeAttachOpts, VolumeDetachOpts}
use libstorage.Client.{
  Fault, NextDeviceInfo, Context, Host, Platform, Settings, not_controller, must_service,
  get_service_info,
}
use libstorage.Client.Api.{Api, Instance, ClientDrivers, VolumeCreateRequest}
use libstorage.Client.Contexts
use libstorage.Client.Calls
use libstorage.Client.Xcli

abbrev values_of : {A : Type 0} → Dict Text A → List A
values_of [] = []
values_of ((k, v) ∷ m) = v ∷ values_of m

-- The requests for a volume; that for a volume from a snapshot says nothing of encryption.
abbrev pub create_request : Text → VolumeCreateOpts → VolumeCreateRequest
create_request name opts = record {
  name = name;
  availability_zone = opts.availability_zone;
  encrypted = opts.encrypted;
  encryption_key = opts.encryption_key;
  iops = opts.iops;
  size = opts.size;
  type = opts.type;
  opts = opts.opts;
}

abbrev pub from_snapshot_request : Text → VolumeCreateOpts → VolumeCreateRequest
from_snapshot_request name opts = record {
  name = name;
  availability_zone = opts.availability_zone;
  encrypted = none;
  encryption_key = none;
  iops = opts.iops;
  size = opts.size;
  type = opts.type;
  opts = opts.opts;
}

abbrev next_device_name : Text → Option Text
next_device_name [] = none
next_device_name (b ∷ s) = some (b ∷ s)

module _ {S : Type 0} (c : Settings) (p : Platform S) (api : Api S)
    (drivers : ClientDrivers S) where
  unfoldable pub next_device_info : Context → Exec (Host S) Fault (Option NextDeviceInfo)
  unfolding get_service_info
  next_device_info ctx = do
    service ← must_service ctx.service
    si ← get_service_info service
    pure si.next_device

  unfoldable pub storage_type : Context → Exec (Host S) Fault Text
  unfolding get_service_info
  storage_type ctx = do
    service ← must_service ctx.service
    si ← get_service_info service
    pure si.driver_type

  unfoldable pub instance_inspect : Context → Exec (Host S) Fault Instance
  unfolding Contexts.instance_inspect
  instance_inspect ctx = do
    not_controller c p (codes "InstanceInspect")
    service ← must_service ctx.service
    Contexts.instance_inspect c p api ctx service

  unfoldable pub volumes : Context → VolumesOpts → Exec (Host S) Fault (List Volume)
  unfolding Calls.volumes_by_service
  volumes ctx opts = do
    service ← must_service ctx.service
    objs ← Calls.volumes_by_service c p api ctx service opts.attachments
    pure (values_of objs)

  unfoldable pub volume_inspect : Context → Text → VolumesOpts → Exec (Host S) Fault Volume
  unfolding Calls.volume_inspect
  volume_inspect ctx volume_id opts = do
    service ← must_service ctx.service
    Calls.volume_inspect c p api ctx service volume_id opts.attachments

  unfoldable pub volume_create : Context → Text → VolumeCreateOpts → Exec (Host S) Fault Volume
  unfolding Calls.volume_create
  volume_create ctx name opts = do
    service ← must_service ctx.service
    Calls.volume_create c p api drivers ctx service (create_request name opts)

  unfoldable pub volume_create_from_snapshot :
      Context → Text → Text → VolumeCreateOpts → Exec (Host S) Fault Volume
  unfolding Calls.volume_create_from_snapshot
  volume_create_from_snapshot ctx snapshot_id name opts = do
    service ← must_service ctx.service
    Calls.volume_create_from_snapshot c p api drivers ctx service snapshot_id
        (from_snapshot_request name opts)

  unfoldable pub volume_copy : Context → Text → Text → KeyValueStore → Exec (Host S) Fault Volume
  unfolding Calls.volume_copy
  volume_copy ctx volume_id volume_name opts = do
    service ← must_service ctx.service
    Calls.volume_copy c p api drivers ctx service volume_id
        (record { volume_name = volume_name; opts = opts })

  unfoldable pub volume_snapshot :
      Context → Text → Text → KeyValueStore → Exec (Host S) Fault Snapshot
  unfolding Calls.volume_snapshot
  volume_snapshot ctx volume_id snapshot_name opts = do
    service ← must_service ctx.service
    Calls.volume_snapshot c p api ctx service volume_id
        (record { snapshot_name = snapshot_name; opts = opts })

  unfoldable pub volume_remove : Context → Text → VolumeDetachOpts → Exec (Host S) Fault (Unit {0})
  unfolding Calls.volume_remove
  volume_remove ctx volume_id opts = do
    service ← must_service ctx.service
    Calls.volume_remove c p api drivers ctx service volume_id opts.force

  unfoldable pub volume_attach :
      Context → Text → VolumeAttachOpts → Exec (Host S) Fault (Volume × Text)
  unfolding Calls.volume_attach Xcli.next_device
  volume_attach ctx volume_id opts = do
    not_controller c p (codes "VolumeAttach")
    service ← must_service ctx.service
    device ← Xcli.next_device c p ctx
    Calls.volume_attach c p api ctx service volume_id (record {
      next_device_name = next_device_name device;
      force = opts.force;
      opts = opts.opts;
    })

  unfoldable pub volume_detach : Context → Text → VolumeDetachOpts → Exec (Host S) Fault Volume
  unfolding Calls.volume_detach
  volume_detach ctx volume_id opts = do
    not_controller c p (codes "VolumeDetach")
    service ← must_service ctx.service
    Calls.volume_detach c p api ctx service volume_id
        (record { force = opts.force; opts = opts.opts })

  unfoldable pub snapshots : Context → Exec (Host S) Fault (List Snapshot)
  unfolding Calls.snapshots_by_service
  snapshots ctx = do
    service ← must_service ctx.service
    objs ← Calls.snapshots_by_service c p api ctx service
    pure (values_of objs)

  unfoldable pub snapshot_inspect : Context → Text → Exec (Host S) Fault Snapshot
  unfolding Calls.snapshot_inspect
  snapshot_inspect ctx snapshot_id = do
    service ← must_service ctx.service
    Calls.snapshot_inspect c p api ctx service snapshot_id

  unfoldable pub snapshot_copy :
      Context → Text → Text → Text → KeyValueStore → Exec (Host S) Fault Snapshot
  unfolding Calls.snapshot_copy
  snapshot_copy ctx snapshot_id snapshot_name destination_id opts = do
    service ← must_service ctx.service
    Calls.snapshot_copy c p api ctx service snapshot_id
        (record { snapshot_name = snapshot_name; destination_id = destination_id; opts = opts })

  unfoldable pub snapshot_remove : Context → Text → Exec (Host S) Fault (Unit {0})
  unfolding Calls.snapshot_remove
  snapshot_remove ctx snapshot_id = do
    service ← must_service ctx.service
    Calls.snapshot_remove c p api ctx service snapshot_id

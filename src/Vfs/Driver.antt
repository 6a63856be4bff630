-- ===== src/Vfs/Driver.antt =====
-- The vfs driver as the storage driver of a service, with the instance ID of the service's context.
use libstorage.Base.{Option, Text, ok}
use libstorage.Types.Models.{InstanceId}
use libstorage.Router.{StorageDriver, StorageService}
use libstorage.Vfs.{VfsState, Environment}
use libstorage.Vfs.Volumes.{
  volumes, volume_inspect, volume_create, volume_create_from_snapshot, volume_copy, volume_attach,
  volume_detach, volume_remove,
}
use libstorage.Vfs.Snapshots.{
  volume_snapshot, snapshots, snapshot_inspect, snapshot_copy, snapshot_remove,
}

abbrev pub vfs_driver : Environment → Option InstanceId → StorageDriver VfsState
vfs_driver e iid = record {
  volumes = volumes iid;
  volume_inspect = volume_inspect iid;
  volume_create = volume_create e;
  volume_create_from_snapshot = volume_create_from_snapshot e;
  volume_copy = volume_copy e;
  volume_snapshot = volume_snapshot e;
  volume_attach = volume_attach e iid;
  volume_detach = volume_detach e iid;
  volume_remove = volume_remove;
  snapshots = snapshots;
  snapshot_inspect = snapshot_inspect;
  snapshot_copy = snapshot_copy e;
  snapshot_remove = snapshot_remove;
}

-- A service whose session is logged in to without effect.
abbrev pub vfs_service : Environment → Option InstanceId → Text → StorageService VfsState
vfs_service e iid name = record {
  name = name;
  driver = vfs_driver e iid;
  instance_id = iid;
  session = λ s. (ok tt, s);
}

-- ===== src/Client/Api.antt =====
-- The interfaces between which the client's driver stands: the API client of api/client, which sends a
-- request with the values of a context, and the client drivers of the registry, which are called before and after
-- it (api/types/types_drivers_client.go). A hook after a call cannot fail.
use libstorage.Base.{ℕ, Bool, Option, Text, Exec}
use libstorage.Base.Dict.{Dict}
use libstorage.Base.Int.{ℤ}
use libstorage.Types.Errors.{Error}
use libstorage.Types.Models.{InstanceId, Volume, Snapshot, VolumeMap, SnapshotMap}
use libstorage.Store.{KeyValueStore}
use libstorage.Client.{Context, ServiceInfo, ExecutorInfo}

-- The instance ID of an instance is a pointer.
pub record Instance : Type 0 where
  pub instance_id : Option InstanceId
  pub name : Text
  pub provider_name : Text
  pub region : Text

pub record VolumeCreateRequest : Type 0 where
  pub name : Text
  pub availability_zone : Option Text
  pub encrypted : Option Bool
  pub encryption_key : Option Text
  pub iops : Option ℤ
  pub size : Option ℤ
  pub type : Option Text
  pub opts : KeyValueStore

pub record VolumeCopyRequest : Type 0 where
  pub volume_name : Text
  pub opts : KeyValueStore

pub record VolumeSnapshotRequest : Type 0 where
  pub snapshot_name : Text
  pub opts : KeyValueStore

pub record VolumeAttachRequest : Type 0 where
  pub next_device_name : Option Text
  pub force : Bool
  pub opts : KeyValueStore

pub record VolumeDetachRequest : Type 0 where
  pub force : Bool
  pub opts : KeyValueStore

pub record SnapshotCopyRequest : Type 0 where
  pub snapshot_name : Text
  pub destination_id : Text
  pub opts : KeyValueStore

pub record Api (S : Type 0) : Type 0 where
  pub root : Context → Exec S Error Text
  pub instances : Context → Exec S Error (Dict Text Instance)
  pub instance_inspect : Context → Text → Exec S Error Instance
  pub services : Context → Exec S Error (Dict Text ServiceInfo)
  pub service_inspect : Context → Text → Exec S Error ServiceInfo
  pub volumes : Context → ℕ → Exec S Error (Dict Text VolumeMap)
  pub volumes_by_service : Context → Text → ℕ → Exec S Error VolumeMap
  pub volume_inspect : Context → Text → Text → ℕ → Exec S Error Volume
  pub volume_create : Context → Text → VolumeCreateRequest → Exec S Error Volume
  pub volume_create_from_snapshot :
      Context → Text → Text → VolumeCreateRequest → Exec S Error Volume
  pub volume_copy : Context → Text → Text → VolumeCopyRequest → Exec S Error Volume
  pub volume_remove : Context → Text → Text → Bool → Exec S Error (Unit {0})
  pub volume_attach : Context → Text → Text → VolumeAttachRequest → Exec S Error (Volume × Text)
  pub volume_detach : Context → Text → Text → VolumeDetachRequest → Exec S Error Volume
  pub volume_detach_all : Context → VolumeDetachRequest → Exec S Error (Dict Text VolumeMap)
  pub volume_detach_all_for_service : Context → Text → VolumeDetachRequest → Exec S Error VolumeMap
  pub volume_snapshot : Context → Text → Text → VolumeSnapshotRequest → Exec S Error Snapshot
  pub snapshots : Context → Exec S Error (Dict Text SnapshotMap)
  pub snapshots_by_service : Context → Text → Exec S Error SnapshotMap
  pub snapshot_inspect : Context → Text → Text → Exec S Error Snapshot
  pub snapshot_remove : Context → Text → Text → Exec S Error (Unit {0})
  pub snapshot_copy : Context → Text → Text → SnapshotCopyRequest → Exec S Error Snapshot
  pub executors : Context → Exec S Error (Dict Text ExecutorInfo)
  pub executor_head : Context → Text → Exec S Error ExecutorInfo
  pub executor_get : Context → Text → Exec S Error Text

-- Around a call with a request of type `R` and an answer of type `A`: what is before it may refuse, and
-- may change the context and the request; what is after it may change the answer.
pub record Hooks (S R A : Type 0) : Type 0 where
  pub before : Context → R → Exec S Error (Context × R)
  pub after : Context → A → S → A × S

pub record ClientDriver (S : Type 0) : Type 0 where
  pub init : Context → Exec S Error (Unit {0})
  pub volume_create : Text → Hooks S VolumeCreateRequest Volume
  pub volume_create_from_snapshot : Text → Text → Hooks S VolumeCreateRequest Volume
  pub volume_copy : Text → Text → Hooks S VolumeCopyRequest Volume
  pub volume_remove : Text → Text → Hooks S (Unit {0}) (Unit {0})

-- registry.NewClientDriver, whose error is dropped
abbrev pub ClientDrivers : Type 0 → Type 0
ClientDrivers S = Text → Option (ClientDriver S)

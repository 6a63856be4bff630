-- ===== src/Router.antt =====
-- What the routes of api/server/router share: the storage driver as an interface
-- (api/types/types_drivers_storage.go), the services, the request, and the hand-over of a task to
-- the client (api/server/httputils/httputils.go).
pub mod Included
pub mod VolumeRoutes
pub mod Filtered
pub mod SnapshotRoutes
pub mod Batch
pub mod DetachAll
mod Tests
use libstorage.Base.{
  ℕ, List, [], ◌∷◌, Bool, true, false, Option, none, some, Text, codes, Result, ok, err, Exec, pure,
  raise, continue, ◌>>=◌, if◌then◌else◌, ◌==◌, nat_eq,
}
use libstorage.Base.Int.{ℤ}
use libstorage.Base.Dict.{Dict}
use libstorage.Types.Models.{InstanceId, Volume, VolumeMap, Snapshot, SnapshotMap}
use libstorage.Types.Errors.{Error, not_found}
use libstorage.Store.{KeyValueStore}
use libstorage.Store.Typed.{get_bool, get_string}

-- VolumesOpts and VolumeInspectOpts
pub record VolumesOpts : Type 0 where
  pub attachments : ℕ
  pub opts : KeyValueStore

pub record VolumeCreateOpts : Type 0 where
  pub availability_zone : Option Text
  pub iops : Option ℤ
  pub size : Option ℤ
  pub type : Option Text
  pub encrypted : Option Bool
  pub encryption_key : Option Text
  pub opts : KeyValueStore

pub record VolumeAttachOpts : Type 0 where
  pub next_device : Option Text
  pub force : Bool
  pub opts : KeyValueStore

-- VolumeDetachOpts and VolumeRemoveOpts
pub record VolumeDetachOpts : Type 0 where
  pub force : Bool
  pub opts : KeyValueStore

-- The storage drivers act on a world of type `S`. A returned volume is no nil pointer, except
-- that a detach may return nil.
pub record StorageDriver (S : Type 0) : Type 0 where
  pub volumes : VolumesOpts → Exec S Error (List Volume)
  pub volume_inspect : Text → VolumesOpts → Exec S Error Volume
  pub volume_create : Text → VolumeCreateOpts → Exec S Error Volume
  pub volume_create_from_snapshot : Text → Text → VolumeCreateOpts → Exec S Error Volume
  pub volume_copy : Text → Text → KeyValueStore → Exec S Error Volume
  pub volume_snapshot : Text → Text → KeyValueStore → Exec S Error Snapshot
  pub volume_attach : Text → VolumeAttachOpts → Exec S Error (Volume × Text)
  pub volume_detach : Text → VolumeDetachOpts → Exec S Error (Option Volume)
  pub volume_remove : Text → VolumeDetachOpts → Exec S Error Unit
  pub snapshots : KeyValueStore → Exec S Error (List Snapshot)
  pub snapshot_inspect : Text → KeyValueStore → Exec S Error Snapshot
  pub snapshot_copy : Text → Text → Text → KeyValueStore → Exec S Error Snapshot
  pub snapshot_remove : Text → KeyValueStore → Exec S Error Unit

-- A storage service, with what the request's context gives for it: the instance ID, if there is
-- one, and the login of a storage session.
pub record StorageService (S : Type 0) : Type 0 where
  pub name : Text
  pub driver : StorageDriver S
  pub instance_id : Option InstanceId
  pub session : Exec S Error Unit

-- volume.OnVolume: a hook that may refuse a volume and may change it; `none` is nil.
abbrev pub OnVolume : Type 0 → Type 0
OnVolume S = Option (Volume → Exec S Error (Bool × Volume))

-- json.Marshal and schema.Validate for the schemas that the handlers give to their tasks: the error, if there is one.
pub record Schemas : Type 0 where
  pub volume : Volume → Option Error
  pub volume_map : VolumeMap → Option Error
  pub service_volume_map : Dict Text VolumeMap → Option Error
  pub volume_attach_response : Volume × Text → Option Error
  pub snapshot : Snapshot → Option Error
  pub snapshot_map : SnapshotMap → Option Error
  pub service_snapshot_map : Dict Text SnapshotMap → Option Error

-- The store of a request has the values of its path, query and body; `now` is the time of the reads.
-- `schemas` is `none` where the validation of results is not enabled.
pub record Request : Type 0 where
  pub store : KeyValueStore
  pub now : ℕ
  pub schemas : Option Schemas

-- The schema of a task, which may be nil.
abbrev pub Schema : Type 0 → Type 0
Schema A = Schemas → A → Option Error

abbrev pub no_schema : {A : Type 0} → Schema A
no_schema schemas a = none

abbrev refused : {A : Type 0} → A → Option Error → Result Error A
refused a none = ok a
refused a (some e) = err e

abbrev validated : {A : Type 0} → Option Schemas → Schema A → Result Error A → Result Error A
validated none schema r = r
validated (some schemas) schema (ok a) = refused a (schema schemas a)
validated (some schemas) schema (err e) = err e

-- The end of execTask: the result of a task's run is validated.
abbrev pub exec_validated : {S A : Type 0} → Request → Schema A → Exec S Error A → Exec S Error A
exec_validated rq schema run s = (validated rq.schemas schema (run s).0, (run s).1)

-- How the wait for a task ends.
pub data Waited : Type 0 where
  completed timed_out : Waited

-- What is written to the client: the task itself, with its status code, or the task's result.
pub data Response (A : Type 0) : Type 0 where
  task_json : ℕ → Response A
  result_json : ℕ → A → Response A

abbrev pub status_ok : ℕ
status_ok = 200

abbrev pub status_created : ℕ
status_created = 201

abbrev pub status_accepted : ℕ
status_accepted = 202

abbrev pub status_no_content : ℕ
status_no_content = 204

abbrev pub status_reset_content : ℕ
status_reset_content = 205

abbrev pub status_request_timeout : ℕ
status_request_timeout = 408

abbrev finished : {A : Type 0} → ℕ → Result Error A → Result Error (Response A)
finished status (ok a) = ok (result_json status a)
finished status (err e) = err e

abbrev waited : {A : Type 0} → ℕ → Result Error A → Waited → Result Error (Response A)
waited status r completed = finished status r
waited status r timed_out = ok (task_json status_request_timeout)

-- WriteTask, for a task that ends with the result `r`
unfoldable pub write_task :
    {A : Type 0} → Bool → Waited → ℕ → Result Error A → Result Error (Response A)
write_task async w status r = if async then ok (task_json status_accepted) else waited status r w

-- The task of a handler is run and handed over. Its effects are there in the end also if the
-- client does not wait for them.
unfoldable pub respond :
    {S A : Type 0} → Request → Schema A → Waited → ℕ → Exec S Error A → Exec S Error (Response A)
unfolding write_task
respond rq schema w status run s =
    let (r, s') = exec_validated rq schema run s in
    (write_task (get_bool (codes "async") rq.now rq.store) w status r, s')

abbrev approved : {S : Type 0} → (Volume → Text) → Bool × Volume → Exec S Error Volume
approved named (ok', v) = if ok' then pure v else raise (not_found (named v))

-- The block around OnVolume of the handlers that answer with a volume; `named` is what the error
-- names when the hook refuses the volume.
unfoldable pub check_volume_as :
    {S : Type 0} → (Volume → Text) → OnVolume S → Volume → Exec S Error Volume
check_volume_as named none v = pure v
check_volume_as named (some hook) v = do r ← hook v; approved named r

abbrev pub check_volume : {S : Type 0} → OnVolume S → Volume → Exec S Error Volume
unfolding check_volume_as
check_volume = check_volume_as (λ v. v.id)

-- The attachment state that a handler sets if nobody has.
unfoldable pub default_state : ℕ → Volume → Volume
default_state st v = if v.attachment_state == 0 then record v { attachment_state = st } else v

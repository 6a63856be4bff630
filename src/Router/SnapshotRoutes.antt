-- ===== src/Router/SnapshotRoutes.antt =====
-- The handlers of api/server/router/snapshot/snapshot_routes.go, but for the one that goes over all
-- services, which is in Batch.antt.
use libstorage.Base.{List, [], ◌∷◌, none, codes, Exec, pure, ◌>>=◌, text_eq}
use libstorage.Base.Dict.{put}
use libstorage.Types.Models.{Volume, Snapshot, SnapshotMap}
use libstorage.Types.Errors.{Error}
use libstorage.Store.Typed.{get_string, get_string_ptr, get_int64_ptr}
use libstorage.Router.{
  StorageService, OnVolume, Request, Waited, Response, respond, no_schema, check_volume,
  check_volume_as, status_ok, status_created, status_reset_content,
}

-- The loop that keys the driver's snapshots by their IDs.
unfoldable pub by_id : List Snapshot → SnapshotMap → SnapshotMap
by_id [] m = m
by_id (obj ∷ objs) m = by_id objs (put obj.id obj m)

module _ {S : Type 0} (hook : OnVolume S) (svc : StorageService S) where
  open svc use {driver}

  unfoldable pub snapshots_task : Request → Exec S Error SnapshotMap
  unfolding by_id
  snapshots_task rq = do objs ← driver.snapshots rq.store; pure (by_id objs [])

  unfoldable pub snapshots_for_service : Request → Waited → Exec S Error (Response SnapshotMap)
  unfolding respond snapshots_task
  snapshots_for_service rq w =
      respond rq (λ schemas. schemas.snapshot_map) w status_ok (snapshots_task rq)

  unfoldable pub snapshot_inspect : Request → Waited → Exec S Error (Response Snapshot)
  unfolding respond
  snapshot_inspect rq w =
      respond rq (λ schemas. schemas.snapshot) w status_ok
        (driver.snapshot_inspect (get_string (codes "snapshotID") rq.now rq.store) rq.store)

  unfoldable pub snapshot_remove : Request → Waited → Exec S Error (Response Unit)
  unfolding respond
  snapshot_remove rq w =
      respond rq no_schema w status_reset_content
        (driver.snapshot_remove (get_string (codes "snapshotID") rq.now rq.store) rq.store)

  -- volumeCreate of this router. Unlike the handler of the same name in the volume router it passes
  -- no encryption options, and it sets no attachment state.
  unfoldable pub create_from_snapshot_task : Request → Exec S Error Volume
  unfolding check_volume_as
  create_from_snapshot_task rq = do
    v ←
        driver.volume_create_from_snapshot (get_string (codes "snapshotID") rq.now rq.store)
          (get_string (codes "name") rq.now rq.store)
          (record {
            availability_zone = get_string_ptr (codes "availabilityZone") rq.now rq.store;
            iops = get_int64_ptr (codes "iops") rq.now rq.store;
            size = get_int64_ptr (codes "size") rq.now rq.store;
            type = get_string_ptr (codes "type") rq.now rq.store;
            encrypted = none;
            encryption_key = none;
            opts = rq.store;
          })
    check_volume hook v

  unfoldable pub create_from_snapshot : Request → Waited → Exec S Error (Response Volume)
  unfolding respond create_from_snapshot_task
  create_from_snapshot rq w =
      respond rq (λ schemas. schemas.volume) w status_created (create_from_snapshot_task rq)

  unfoldable pub snapshot_copy : Request → Waited → Exec S Error (Response Snapshot)
  unfolding respond
  snapshot_copy rq w =
      respond rq (λ schemas. schemas.snapshot) w status_created
        (driver.snapshot_copy (get_string (codes "snapshotID") rq.now rq.store)
          (get_string (codes "snapshotName") rq.now rq.store)
          (get_string (codes "destinationID") rq.now rq.store) rq.store)

-- ===== src/Router/Batch.antt =====
-- The listings over all services: `volumes` of api/server/router/volume/volume_routes.go and
-- `snapshots` of api/server/router/snapshot/snapshot_routes.go. Each service runs its tasks one at a
-- time, and the services run side by side; the model runs the tasks of one request in the order of
-- the list of services, which may be any. The maps of tasks and replies are keyed by the names of
-- the services, which are distinct.
pub mod Replies
use libstorage.Base.{
  ℕ, List, [], ◌∷◌, Bool, true, false, Option, none, some, Text, codes, Result, ok, err, Exec, pure,
  raise, continue, ◌>>=◌, ◌>>◌, text_eq,
}
use libstorage.Base.Dict.{Dict, put}
use libstorage.Types.Models.{Volume, VolumeMap, SnapshotMap}
use libstorage.Types.Values.{Value}
use libstorage.Types.Errors.{
  Error, Completed, missing_instance_id, batch_process, service_volumes, service_snapshots,
}
use libstorage.Filter.{Filter}
use libstorage.Router.{
  StorageService, OnVolume, Request, Waited, Response, respond, exec_validated, status_ok,
  status_reset_content,
}
use libstorage.Router.VolumeRoutes.{get_filtered_volumes}
use libstorage.Router.Filtered.{parse_filter, with_filter, listing}
use libstorage.Router.SnapshotRoutes.{snapshots_task}

module _ {A : Type 0} where
  abbrev pub collect_one :
      (Dict Text A → Completed) → Dict Text A → Text → Result Error A → Result Error (Dict Text A)
  collect_one completed reply k (ok a) = ok (put k a reply)
  collect_one completed reply k (err e) = err (batch_process (completed reply) e)

  -- The loop over the tasks that have ended; an error names what was collected before it.
  unfoldable pub collect :
      (Dict Text A → Completed)
      → List (Text × Result Error A)
      → Dict Text A
      → Result Error (Dict Text A)
  collect completed [] reply = ok reply
  collect completed ((k, r) ∷ tasks) reply = elim (collect_one completed reply k r) [
    | ok reply' ↦ collect completed tasks reply'
    | err e ↦ err e
  ]

module _ {S A : Type 0} where
  -- The tasks of all services, and how each one ends.
  unfoldable pub run_all :
      (StorageService S → Exec S Error A)
      → List (StorageService S)
      → S
      → List (Text × Result Error A) × S
  run_all task [] s = ([], s)
  run_all task (svc ∷ svcs) s =
      let (r, s') = task svc s in
      let (rest, s'') = run_all task svcs s' in ((svc.name, r) ∷ rest, s'')

  unfoldable pub collect_all :
      (Dict Text A → Completed)
      → (StorageService S → Exec S Error A)
      → List (StorageService S)
      → Exec S Error (Dict Text A)
  unfolding run_all collect
  collect_all completed task svcs s =
      let (tasks, s') = run_all task svcs s in (collect completed tasks [], s')

module _ {S : Type 0} (hook : OnVolume S) (svcs : List (StorageService S)) where
  abbrev volumes_task : Request → Option Filter → StorageService S → Exec S Error VolumeMap
  unfolding get_filtered_volumes
  volumes_task rq flt svc =
      exec_validated rq (λ schemas. schemas.volume_map) (do svc.session; listing hook svc rq flt)

  abbrev volumes_filtered :
      (Filter → Value)
      → Request
      → Waited
      → Result Error (Option Filter)
      → Exec S Error (Response (Dict Text VolumeMap))
  unfolding get_filtered_volumes
  volumes_filtered boxed rq w (err e) = raise e
  volumes_filtered boxed rq w (ok flt) =
      let rq' = with_filter boxed rq flt in
      respond rq' (λ schemas. schemas.service_volume_map) w status_ok
        (collect_all service_volumes (volumes_task rq' flt) svcs)

  unfoldable pub volumes :
      (Filter → Value) → Request → Waited → Exec S Error (Response (Dict Text VolumeMap))
  unfolding respond collect_all parse_filter get_filtered_volumes
  volumes boxed rq w = volumes_filtered boxed rq w (parse_filter rq)

  unfoldable pub snapshots : Request → Waited → Exec S Error (Response (Dict Text SnapshotMap))
  unfolding respond collect_all snapshots_task
  snapshots rq w =
      respond rq (λ schemas. schemas.service_snapshot_map) w status_ok
        (collect_all service_snapshots
          (λ svc.
            exec_validated rq (λ schemas. schemas.snapshot_map)
              (do svc.session; snapshots_task hook svc rq))
          svcs)

-- ===== src/Router/DetachAll.antt =====
-- volumeDetachAll of api/server/router/volume/volume_routes.go. Its closures read the variable
-- `service` of the enclosing loop when they run, in other goroutines, and not when they are made:
-- the name that a run sees is an input of the model. A run reads it at most once.
pub mod Captured
use libstorage.Base.{
  ℕ, List, [], ◌∷◌, none, some, Text, Result, ok, err, Exec, continue, ◌>>=◌, if◌then◌else◌,
  text_eq,
}
use libstorage.Base.Dict.{Dict, put}
use libstorage.Types.Models.{Volume, VolumeMap}
use libstorage.Types.Errors.{Error, missing_instance_id, batch_process, service_volumes}
use libstorage.Router.{
  StorageService, OnVolume, Request, Waited, Response, respond, no_schema, status_reset_content,
  check_volume_as, default_state,
}
use libstorage.Router.VolumeRoutes.{has_instance_id, detached, detach_opts, note_detached}

abbrev pub Reply : Type 0
Reply = Dict Text VolumeMap

-- The deferred function: only a map with an entry is put into the shared reply.
abbrev note_service : Text → VolumeMap → Reply → Reply
note_service seen [] reply = reply
note_service seen (e ∷ m) reply = put seen (e ∷ m) reply

abbrev outcome {ℓ} :
    {S : Type ℓ}
    → Result Error (Unit {0})
    → VolumeMap
    → S
    → (Result Error (Unit {0}) × VolumeMap) × S
outcome r m s = ((r, m), s)

module _ {S : Type 0} (hook : OnVolume S) (rq : Request) where
  -- The loop over the volumes of a service. An error ends it, and the volumes that were detached
  -- before are kept.
  unfoldable pub detach_loop :
      StorageService S → List Volume → VolumeMap → S → (Result Error (Unit {0}) × VolumeMap) × S
  unfolding check_volume_as default_state
  detach_loop svc [] m s = outcome (ok tt) m s
  detach_loop svc (v ∷ vs) m s =
      let (r, s') =
        continue (svc.driver.volume_detach v.id (detach_opts hook svc rq) s).0 (detached hook svc)
          (svc.driver.volume_detach v.id (detach_opts hook svc rq) s).1 in
      elim r [
        | ok o ↦ detach_loop svc vs (note_detached hook svc o m) s'
        | err e ↦ outcome (err e) m s'
      ]

  abbrev detach_found :
      StorageService S → Result Error (List Volume) → S → (Result Error (Unit {0}) × VolumeMap) × S
  unfolding detach_loop
  detach_found svc (ok vs) s = detach_loop svc vs [] s
  detach_found svc (err e) s = outcome (err e) [] s

  abbrev detach_logged_in :
      StorageService S → Result Error (Unit {0}) → S → (Result Error (Unit {0}) × VolumeMap) × S
  unfolding detach_loop
  detach_logged_in svc (ok _) s =
      let (r, s') = svc.driver.volumes (record { attachments = 0; opts = rq.store }) s in
      detach_found svc r s'
  detach_logged_in svc (err e) s = outcome (err e) [] s

  -- The run for one service: how it ends, and what it has detached.
  unfoldable pub detach_service :
      StorageService S → Text → S → (Result Error (Unit {0}) × VolumeMap) × S
  unfolding detach_loop
  detach_service svc seen s =
      if has_instance_id hook svc
      then (let (r, s') = svc.session s in detach_logged_in svc r s')
      else outcome (err (missing_instance_id seen)) [] s

  -- The runs for all services, each with the name that it sees.
  unfoldable pub detach_services :
      List (StorageService S × Text)
      → Reply
      → S
      → (List (Text × Result Error (Unit {0})) × Reply) × S
  unfolding detach_service
  detach_services [] reply s = (([], reply), s)
  detach_services ((svc, seen) ∷ svcs) reply s =
      let ((r, m), s') = detach_service svc seen s in
      let ((rs, reply'), s'') = detach_services svcs (note_service seen m reply) s' in
      (((svc.name, r) ∷ rs, reply'), s'')

  -- The loop over the tasks that have ended.
  abbrev first_error : List (Text × Result Error (Unit {0})) → Reply → Result Error Reply
  first_error [] reply = ok reply
  first_error ((k, ok _) ∷ rs) reply = first_error rs reply
  first_error ((k, err e) ∷ rs) reply = err (batch_process (service_volumes reply) e)

  abbrev detach_all_services : List (StorageService S × Text) → Exec S Error Reply
  unfolding detach_services
  detach_all_services svcs s =
      let ((rs, reply), s') = detach_services svcs [] s in (first_error rs reply, s')

  unfoldable pub volume_detach_all :
      List (StorageService S × Text) → Waited → Exec S Error (Response Reply)
  unfolding respond detach_services
  volume_detach_all svcs w =
      respond rq (λ schemas. schemas.service_volume_map) w status_reset_content
        (detach_all_services svcs)

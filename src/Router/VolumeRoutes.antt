-- ===== src/Router/VolumeRoutes.antt =====
-- The handlers of api/server/router/volume/volume_routes.go for one service; the listing with its
-- filter is in Filtered.antt, and the two that go over all services are in Batch.antt and DetachAll.antt. A handler is its checks and its task, run by `respond`. Logging
-- is left out.
pub mod Attachments
pub mod Listing
pub mod Replies
pub mod Named
use libstorage.Base.{
  ℕ, ◌+◌, List, [], ◌∷◌, Bool, true, false, ◌&&◌, ◌||◌, not, Option, none, some, Text, codes,
  Result, ok, err, Exec, pure, raise, continue, ◌>>=◌, if◌then◌else◌, ◌==◌, nat_eq, text_eq, ltb,
  to_lower, equal_fold,
}
use libstorage.Base.Dict.{put}
use libstorage.Types.Attachments.{mine, attached, unattached, requires_instance_id}
use libstorage.Types.Models.{
  InstanceId, Volume, VolumeAttachment, VolumeMap, Snapshot, volume_attached, volume_available,
  volume_unavailable,
}
use libstorage.Types.Values.{Value}
use libstorage.Types.Errors.{
  Error, goof, not_found, missing_instance_id, batch_process, bad_filter, panicked, volumes,
}
use libstorage.Store.{KeyValueStore, is_set, set_value}
use libstorage.Store.Typed.{
  get_string, get_string_ptr, get_bool, get_bool_ptr, get_int64_ptr, get_attachments,
}
use libstorage.Filter.{
  Filter, filter, FilterOperator, filter_equality_match, Failure, error, panic, out_of_fuel,
  compile,
}
use libstorage.Router.{
  VolumesOpts, VolumeCreateOpts, VolumeAttachOpts, VolumeDetachOpts, StorageDriver, StorageService,
  OnVolume, Request, Waited, Response, respond, no_schema, check_volume, check_volume_as,
  default_state, status_ok, status_created, status_no_content, status_reset_content,
}
use libstorage.Router.Included.{
  includes, same_instance, attached_to, known_instance, ascertained_state, handle_vol_attachments,
  name_filter, name_matches,
}

module _ {S : Type 0} (hook : OnVolume S) (iid : Option InstanceId) (attachments : ℕ) where
  abbrev pub put_if : Bool × Volume → VolumeMap → VolumeMap
  put_if (ok', v) m = if ok' then put v.id v m else m

  abbrev offer : OnVolume S → Volume → VolumeMap → Exec S Error VolumeMap
  offer none v m = pure (put v.id v m)
  offer (some h) v m = do r ← h v; pure (put_if r m)

  abbrev offer_included : Bool × Volume → VolumeMap → Exec S Error VolumeMap
  offer_included (included, v) m = if included then offer hook v m else pure m

  -- One round of the loop of getFilteredVolumes.
  unfoldable pub filter_volume : Option Text → Volume → VolumeMap → Exec S Error VolumeMap
  filter_volume name obj m =
      if name_matches name obj
      then offer_included (handle_vol_attachments iid obj attachments) m
      else pure m

  unfoldable pub filter_volumes : Option Text → List Volume → VolumeMap → Exec S Error VolumeMap
  filter_volumes name [] m = pure m
  filter_volumes name (obj ∷ objs) m = do m' ← filter_volume name obj m; filter_volumes name objs m'

module _ {S : Type 0} (hook : OnVolume S) (svc : StorageService S) where
  open svc use {driver}

  abbrev missing : {A : Type 0} → Exec S Error A
  missing = raise (missing_instance_id svc.name)

  abbrev pub has_instance_id : Bool
  has_instance_id = elim svc.instance_id [ none ↦ false | some iid ↦ true ]

  -- getFilteredVolumes
  unfoldable pub get_filtered_volumes : VolumesOpts → Option Filter → Exec S Error VolumeMap
  unfolding filter_volumes
  get_filtered_volumes opts flt =
      if requires_instance_id opts.attachments && not has_instance_id then missing else do
        objs ← driver.volumes opts
        filter_volumes hook svc.instance_id opts.attachments (name_filter flt) objs []

  abbrev pub first_named : Text → List Volume → Option Volume
  first_named n [] = none
  first_named n (v ∷ vs) = if equal_fold v.name n then some v else first_named n vs

  -- What volumeInspect does with the volume that it found; `named` is what an error names.
  abbrev shown : (Volume → Text) → Bool × Volume → Exec S Error Volume
  unfolding check_volume_as
  shown named (included, v) =
      if included then check_volume_as named hook v else raise (not_found (named v))

  abbrev found_by_name : Text → ℕ → Option Volume → Exec S Error Volume
  found_by_name n attachments none = raise (not_found n)
  found_by_name n attachments (some v) =
      shown (λ _. n) (handle_vol_attachments svc.instance_id v attachments)

  -- The two tasks of volumeInspect.
  unfoldable pub inspect_by_name : Request → ℕ → Exec S Error Volume
  unfolding check_volume_as handle_vol_attachments
  inspect_by_name rq attachments = do
    vols ← driver.volumes (record { attachments = attachments; opts = rq.store })
    let n = get_string (codes "volumeID") rq.now rq.store
    found_by_name n attachments (first_named n vols)

  unfoldable pub inspect_by_id : Request → ℕ → Exec S Error Volume
  unfolding check_volume_as handle_vol_attachments
  inspect_by_id rq attachments = do
    v ←
        driver.volume_inspect (get_string (codes "volumeID") rq.now rq.store)
          (record { attachments = attachments; opts = rq.store })
    shown (λ u. u.id) (handle_vol_attachments svc.instance_id v attachments)

  abbrev inspect_task : Request → ℕ → Exec S Error Volume
  inspect_task rq attachments =
      if (is_set (codes "byName") rq.now rq.store).0
      then inspect_by_name rq attachments
      else inspect_by_id rq attachments

  unfoldable pub volume_inspect : Request → Waited → Exec S Error (Response Volume)
  unfolding respond inspect_by_name inspect_by_id
  volume_inspect rq w =
      let attachments = get_attachments rq.now rq.store in
      if not has_instance_id && requires_instance_id attachments
      then missing
      else respond rq (λ schemas. schemas.volume) w status_ok (inspect_task rq attachments)

  unfoldable pub create_task : Request → Exec S Error Volume
  unfolding check_volume_as default_state
  create_task rq = do
    v ← driver.volume_create (get_string (codes "name") rq.now rq.store) (record {
      availability_zone = get_string_ptr (codes "availabilityZone") rq.now rq.store;
      iops = get_int64_ptr (codes "iops") rq.now rq.store;
      size = get_int64_ptr (codes "size") rq.now rq.store;
      type = get_string_ptr (codes "type") rq.now rq.store;
      encrypted = get_bool_ptr (codes "encrypted") rq.now rq.store;
      encryption_key = get_string_ptr (codes "encryptionKey") rq.now rq.store;
      opts = rq.store;
    })
    v' ← check_volume hook v
    pure (default_state volume_available v')

  unfoldable pub volume_create : Request → Waited → Exec S Error (Response Volume)
  unfolding respond create_task
  volume_create rq w = respond rq (λ schemas. schemas.volume) w status_created (create_task rq)

  unfoldable pub copy_task : Request → Exec S Error Volume
  unfolding check_volume_as default_state
  copy_task rq = do
    v ←
        driver.volume_copy (get_string (codes "volumeID") rq.now rq.store)
          (get_string (codes "volumeName") rq.now rq.store) rq.store
    v' ← check_volume hook v
    pure (default_state volume_available v')

  unfoldable pub volume_copy : Request → Waited → Exec S Error (Response Volume)
  unfolding respond copy_task
  volume_copy rq w = respond rq (λ schemas. schemas.volume) w status_created (copy_task rq)

  unfoldable pub volume_snapshot : Request → Waited → Exec S Error (Response Snapshot)
  unfolding respond
  volume_snapshot rq w =
      respond rq (λ schemas. schemas.snapshot) w status_created
        (driver.volume_snapshot (get_string (codes "volumeID") rq.now rq.store)
          (get_string (codes "snapshotName") rq.now rq.store) rq.store)

  unfoldable pub attach_task : Request → Exec S Error (Volume × Text)
  unfolding check_volume_as default_state
  attach_task rq = do
    (v, token) ← driver.volume_attach (get_string (codes "volumeID") rq.now rq.store) (record {
      next_device = get_string_ptr (codes "nextDeviceName") rq.now rq.store;
      force = get_bool (codes "force") rq.now rq.store;
      opts = rq.store;
    })
    v' ← check_volume hook v
    pure (default_state volume_attached v', token)

  unfoldable pub volume_attach : Request → Waited → Exec S Error (Response (Volume × Text))
  unfolding respond attach_task
  volume_attach rq w =
      if has_instance_id
      then respond rq (λ schemas. schemas.volume_attach_response) w status_ok (attach_task rq)
      else missing

  abbrev pub detach_opts : Request → VolumeDetachOpts
  detach_opts rq = record { force = get_bool (codes "force") rq.now rq.store; opts = rq.store }

  -- What follows a detach for the volume that it returns; nil is passed on.
  abbrev pub detached : Option Volume → Exec S Error (Option Volume)
  detached none = pure none
  detached (some v) = do v' ← check_volume hook v; pure (some (default_state volume_available v'))

  unfoldable pub detach_task : Request → Exec S Error (Option Volume)
  unfolding check_volume_as default_state
  detach_task rq = do
    o ← driver.volume_detach (get_string (codes "volumeID") rq.now rq.store) (detach_opts rq)
    detached o

  unfoldable pub volume_detach : Request → Waited → Exec S Error (Response (Option Volume))
  unfolding respond detach_task
  volume_detach rq w =
      if has_instance_id
      then respond rq no_schema w status_reset_content (detach_task rq)
      else missing

  -- The loop of volumeDetachAllForService over the driver's volumes; `reply` is what it has
  -- detached so far.
  abbrev pub note_detached : Option Volume → VolumeMap → VolumeMap
  note_detached none reply = reply
  note_detached (some v) reply = put v.id v reply

  abbrev batch_error : VolumeMap → Result Error (Option Volume) → Result Error (Option Volume)
  batch_error reply (ok o) = ok o
  batch_error reply (err e) = err (batch_process (volumes reply) e)

  abbrev detach_or_batch_error : Request → Volume → VolumeMap → Exec S Error (Option Volume)
  detach_or_batch_error rq v reply s =
      let r = driver.volume_detach v.id (detach_opts rq) s in (batch_error reply r.0, r.1)

  unfoldable pub detach_each : Request → List Volume → VolumeMap → Exec S Error VolumeMap
  unfolding check_volume_as default_state
  detach_each rq [] reply = pure reply
  detach_each rq (v ∷ vs) reply = do
    o ← detach_or_batch_error rq v reply
    o' ← detached o
    detach_each rq vs (note_detached o' reply)

  unfoldable pub detach_all_task : Request → Exec S Error VolumeMap
  unfolding detach_each
  detach_all_task rq = do
    vs ← driver.volumes (record { attachments = 0; opts = rq.store })
    detach_each rq vs []

  unfoldable pub volume_detach_all_for_service :
      Request → Waited → Exec S Error (Response VolumeMap)
  unfolding respond detach_all_task
  volume_detach_all_for_service rq w =
      if has_instance_id
      then respond rq (λ schemas. schemas.volume_map) w status_reset_content (detach_all_task rq)
      else missing

  unfoldable pub volume_remove : Request → Waited → Exec S Error (Response Unit)
  unfolding respond
  volume_remove rq w =
      respond rq no_schema w status_no_content
        (driver.volume_remove (get_string (codes "volumeID") rq.now rq.store) (detach_opts rq))

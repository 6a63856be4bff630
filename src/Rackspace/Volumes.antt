-- ===== src/Rackspace/Volumes.antt =====
-- The operations of drivers/storage/rackspace/storage/rackspace_storage.go as a storage driver of the routes.
use libstorage.Base.{
  ℕ, zero, suc, List, [], ◌∷◌, Bool, true, false, not, Option, none, some, Text, codes, Result, ok,
  err, Exec, pure, raise, ◌>>=◌, ◌>>◌, if◌then◌else◌, ◌==◌, text_eq, ltb,
}
use libstorage.Base.Int.{ℤ, pos, negsuc}
use libstorage.Types.Attachments.{vol_att_req_true}
use libstorage.Types.Errors.{Error, goof, panicked, endless}
use libstorage.Types.Models.{InstanceId, Volume, Snapshot}
use libstorage.Router.{
  VolumesOpts, VolumeCreateOpts, VolumeAttachOpts, VolumeDetachOpts, StorageDriver,
}
use libstorage.Store.{KeyValueStore, new_store}
use libstorage.Rackspace.{
  Rackspace, Gophercloud, RsVolume, explain, get_volumes, translate_volume, translate_snapshot,
  translate_snapshots,
}

abbrev pub not_implemented : Error
not_implemented = goof (codes "not implemented")

abbrev pub volume_id_required : Error
volume_id_required = goof (codes "volumeId is required")

abbrev pub min_size : ℕ
min_size = 75

-- createVolumeEnsureSize
abbrev pub ensure_size : ℤ → ℤ
ensure_size (negsuc n) = pos min_size
ensure_size (pos zero) = pos 0
ensure_size (pos (suc n)) = if ltb (suc n) min_size then pos min_size else pos (suc n)

abbrev number_of : Option ℤ → ℤ
number_of none = pos 0
number_of (some n) = n

abbrev text_of : Option Text → Text
text_of none = []
text_of (some t) = t

abbrev first : {S A : Type 0} → List A → Exec S Error A
first [] = raise panicked
first (a ∷ as') = pure a

abbrev must_instance_id : {S : Type 0} → Option InstanceId → Exec S Error InstanceId
must_instance_id none = raise panicked
must_instance_id (some iid) = pure iid

abbrev any_there : {A : Type 0} → List A → Bool
any_there [] = false
any_there (a ∷ as') = true

abbrev is_attached : Volume → Bool
is_attached v = any_there v.attachments

abbrev created : {S : Type 0} → Result Error RsVolume × S → Result Error RsVolume × S
created (ok v, s) = (ok v, s)
created (err e, s) = (err (goof (codes "error creating volume")), s)

module _ {S : Type 0} (d : Rackspace) (g : Gophercloud S) where
  -- VolumeInspect; there is one volume for an ID.
  unfoldable pub inspect_volume : Text → ℕ → Exec S Error Volume
  unfolding get_volumes
  inspect_volume [] mask = raise (goof (codes "no volumeID specified"))
  inspect_volume (c ∷ id) mask = do vols ← get_volumes g (c ∷ id) [] mask; first vols

  unfoldable pub create_volume : Text → Text → Text → VolumeCreateOpts → Exec S Error Volume
  unfolding translate_volume
  create_volume name source_id snapshot_id opts = do
    v ← (λ s. created (
        g.create_volume
          (record {
            name = name;
            size = ensure_size (number_of opts.size);
            snapshot_id = snapshot_id;
            volume_type = text_of opts.type;
          })
          s))
    explain (codes "error waiting for volume creation to complete") (g.wait_for_available v.id)
    translate_volume v vol_att_req_true

  unfoldable pub volumes : VolumesOpts → Exec S Error (List Volume)
  unfolding get_volumes
  volumes opts = get_volumes g [] [] opts.attachments

  unfoldable pub volume_inspect : Text → VolumesOpts → Exec S Error Volume
  unfolding inspect_volume
  volume_inspect id opts = inspect_volume id opts.attachments

  unfoldable pub volume_create : Text → VolumeCreateOpts → Exec S Error Volume
  unfolding create_volume
  volume_create name opts = create_volume name [] [] opts

  unfoldable pub volume_create_from_snapshot : Text → Text → VolumeCreateOpts → Exec S Error Volume
  unfolding create_volume
  volume_create_from_snapshot snapshot_id name opts = create_volume name [] snapshot_id opts

  abbrev pub or_reference_error : Result Error Volume × S → Result Error Volume × S
  or_reference_error (ok v, s) = (ok v, s)
  or_reference_error (err panicked, s) = (err panicked, s)
  or_reference_error (err e, s) =
      (err (goof (codes "error getting reference volume for volume copy")), s)

  unfoldable pub volume_copy : Text → Text → KeyValueStore → Exec S Error Volume
  unfolding inspect_volume create_volume
  volume_copy id name opts = do
    v ← (λ s. or_reference_error (inspect_volume id 0 s))
    create_volume name id [] (record {
      availability_zone = some v.availability_zone;
      iops = none;
      size = none;
      type = some v.type;
      encrypted = none;
      encryption_key = none;
      opts = new_store;
    })

  unfoldable pub inspect_snapshot : Text → Exec S Error Snapshot
  unfolding translate_snapshot
  inspect_snapshot id = do
    s ← explain (codes "error getting snapshot") (g.get_snapshot id)
    pure (translate_snapshot s)

  abbrev or_again : Bool → (S → Result Error (Unit {0}) × S) → S → Result Error (Unit {0}) × S
  or_again false again s = (ok tt, s)
  or_again true again s = again (g.sleep s)

  abbrev looked_at :
      Result Error Snapshot × S → (S → Result Error (Unit {0}) × S) → Result Error (Unit {0}) × S
  looked_at (err e, s) again = (err e, s)
  looked_at (ok snap, s) again = or_again (snap.status == codes "creating") again s

  unfoldable pub snapshot_rounds : ℕ → Text → Exec S Error (Unit {0})
  unfolding inspect_snapshot
  snapshot_rounds zero id s = (err endless, s)
  snapshot_rounds (suc n) id s =
      looked_at (explain (codes "Error getting snapshot") (inspect_snapshot id) s)
        (snapshot_rounds n id)

  unfoldable pub wait_snapshot_status : Text → Exec S Error (Unit {0})
  unfolding snapshot_rounds
  wait_snapshot_status [] = raise (goof (codes "Missing snapshot ID"))
  wait_snapshot_status (c ∷ id) = snapshot_rounds d.rounds (c ∷ id)

  -- The error of the wait is dropped.
  abbrev dropped : Snapshot → Result Error (Unit {0}) × S → Result Error Snapshot × S
  dropped snap (ok u, s) = (ok snap, s)
  dropped snap (err endless, s) = (err endless, s)
  dropped snap (err e, s) = (ok snap, s)

  unfoldable pub volume_snapshot : Text → Text → KeyValueStore → Exec S Error Snapshot
  unfolding wait_snapshot_status translate_snapshot
  volume_snapshot id name opts = do
    snap ← explain (codes "error creating snapshot") (g.create_snapshot name id)
    (λ s. dropped (translate_snapshot snap) (wait_snapshot_status snap.id s))

  abbrev is_there : Bool → Volume → (S → Result Error Volume × S) → S → Result Error Volume × S
  is_there true v again s = (ok v, s)
  is_there false v again s = again (g.sleep s)

  abbrev looked :
      Bool → Result Error Volume × S → (S → Result Error Volume × S) → Result Error Volume × S
  looked needed (err e, s) again = (err e, s)
  looked needed (ok v, s) again =
      is_there (if needed then is_attached v else not (is_attached v)) v again s

  unfoldable pub attach_rounds : ℕ → Text → Bool → Exec S Error Volume
  unfolding inspect_volume
  attach_rounds zero id needed s = (err endless, s)
  attach_rounds (suc n) id needed s =
      looked needed
        (explain (codes "error getting volume when waiting") (inspect_volume id vol_att_req_true) s)
        (attach_rounds n id needed)

  unfoldable pub wait_volume_attach_status : Text → Bool → Exec S Error Volume
  unfolding attach_rounds
  wait_volume_attach_status [] needed = raise volume_id_required
  wait_volume_attach_status (c ∷ id) needed = attach_rounds d.rounds (c ∷ id) needed

  -- The instance of the first attachment of the first volume: both are read without a look at the length.
  abbrev first_instance : List Volume → Exec S Error InstanceId
  first_instance vols = do v ← first vols; a ← first v.attachments; must_instance_id a.instance_id

  -- An error of the wait is dropped, and nil is the answer.
  abbrev pub or_none : Result Error Volume × S → Result Error (Option Volume) × S
  or_none (ok v, s) = (ok (some v), s)
  or_none (err panicked, s) = (err panicked, s)
  or_none (err endless, s) = (err endless, s)
  or_none (err e, s) = (ok none, s)

  unfoldable pub detach_volume : Text → Exec S Error (Option Volume)
  unfolding get_volumes wait_volume_attach_status
  detach_volume [] = raise (goof (codes "volumeId is required for VolumeDetach"))
  detach_volume (c ∷ id) = do
    vols ← get_volumes g (c ∷ id) [] vol_att_req_true
    iid ← first_instance vols
    explain (codes "error detaching volume") (g.detach iid.id (c ∷ id))
    (λ s. or_none (wait_volume_attach_status (c ∷ id) false s))

  unfoldable pub volume_detach : Text → VolumeDetachOpts → Exec S Error (Option Volume)
  unfolding detach_volume
  volume_detach id opts = detach_volume id

  unfoldable pub volume_attached : Text → Exec S Error Bool
  unfolding inspect_volume
  volume_attached [] = raise volume_id_required
  volume_attached (c ∷ id) = do
    v ←
        explain (codes "error getting volume when waiting")
          (inspect_volume (c ∷ id) vol_att_req_true)
    pure (is_attached v)

  abbrev detached_if : Bool → Text → Text → Exec S Error (Unit {0})
  detached_if false t id = pure tt
  detached_if true t id = do explain t (detach_volume id); pure tt

  unfoldable pub volume_remove : Text → VolumeDetachOpts → Exec S Error (Unit {0})
  unfolding volume_attached detach_volume
  volume_remove [] opts = raise volume_id_required
  volume_remove (c ∷ id) opts = do
    attached ← explain (codes "error retrieving attachment status") (volume_attached (c ∷ id))
    detached_if attached (codes "error detaching before volume removal") (c ∷ id)
    explain (codes "error removing volume") (g.delete_volume (c ∷ id))

  abbrev pub forced : Bool → Text → Exec S Error (Unit {0})
  forced false id = pure tt
  forced true id = do detach_volume id; pure tt

  unfoldable pub volume_attach : Text → VolumeAttachOpts → Exec S Error (Volume × Text)
  unfolding detach_volume wait_volume_attach_status
  volume_attach id opts = do
    iid ← must_instance_id d.instance_id
    forced opts.force id
    device ←
        explain (codes "error attaching volume") (g.attach iid.id id (text_of opts.next_device))
    v ← explain (codes "error waiting for volume to attach") (wait_volume_attach_status id true)
    pure (v, device)

  abbrev pub rackspace_driver : StorageDriver S
  rackspace_driver = record {
    volumes = volumes;
    volume_inspect = volume_inspect;
    volume_create = volume_create;
    volume_create_from_snapshot = volume_create_from_snapshot;
    volume_copy = volume_copy;
    volume_snapshot = volume_snapshot;
    volume_attach = volume_attach;
    volume_detach = volume_detach;
    volume_remove = volume_remove;
    snapshots = λ o. do
      ss ← explain (codes "error listing volume snapshots") g.list_snapshots
      pure (translate_snapshots ss);
    snapshot_inspect = λ i o. inspect_snapshot i;
    snapshot_copy = λ i n t o. raise not_implemented;
    snapshot_remove = λ i o. explain (codes "error removing snapshot") (g.delete_snapshot i);
  }

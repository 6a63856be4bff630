-- ===== src/Ebs/Volumes.antt =====
-- The operations of drivers/storage/ebs/storage/ebs_storage.go. Those on snapshots are not implemented.
use libstorage.Base.{
  ℕ, List, [], ◌∷◌, true, Option, none, some, Text, codes, Exec, pure, raise, continue, ◌>>=◌, ◌>>◌,
  if◌then◌else◌,
}
use libstorage.Types.Attachments.{vol_att_req_true}
use libstorage.Types.Errors.{Error, goof, panicked}
use libstorage.Types.Models.{Volume, VolumeAttachment}
use libstorage.Store.{KeyValueStore}
use libstorage.Router.{
  VolumesOpts, VolumeCreateOpts, VolumeAttachOpts, VolumeDetachOpts, StorageDriver,
}
use libstorage.Ebs.{
  Ebs, Ec2, Ec2Volume, explain, returned, get_volume, to_types_volume, no_volume_returned,
  too_many_volumes_returned,
}
use libstorage.Ebs.Create.{create_volume, must_instance_id}
use libstorage.Ebs.Wait.{wait_volume_complete, wait_attach, wait_detach}

abbrev pub not_implemented : Error
not_implemented = goof (codes "not implemented")

abbrev pub already_attached : Error
already_attached = goof (codes "volume already attached to a host")

abbrev pub already_detached : Error
already_detached = goof (codes "volume already detached")

abbrev pub missing_next_device : Error
missing_next_device = goof (codes "missing next device")

abbrev some_volume : {S A : Type 0} → List A → Exec S Error (List A)
some_volume [] = raise no_volume_returned
some_volume (v ∷ vs) = pure (v ∷ vs)

-- vols[0]
abbrev first : {S A : Type 0} → List A → Exec S Error A
first [] = raise panicked
first (v ∷ vs) = pure v

abbrev no_such_name : {S : Type 0} → List Volume → Exec S Error (Unit {0})
no_such_name [] = pure tt
no_such_name (v ∷ vs) = raise (goof (codes "volume name already exists"))

abbrev only_one : {S : Type 0} → List Ec2Volume → Exec S Error Ec2Volume
only_one [] = raise no_volume_returned
only_one (v ∷ []) = pure v
only_one (v ∷ w ∷ vs) = raise too_many_volumes_returned

abbrev must_device : {S : Type 0} → Option Text → Exec S Error Text
must_device none = raise missing_next_device
must_device (some device) = pure device

module _ {S : Type 0} (d : Ebs) (ec2 : Ec2 S) where
  abbrev found : Text → Text → Exec S Error (List Ec2Volume)
  found volume_id volume_name =
      explain (codes "error getting volume") (get_volume d ec2 volume_id volume_name)

  abbrev convert : List Ec2Volume → ℕ → Exec S Error (List Volume)
  convert vs attachments =
      explain (codes "error converting to types.Volume")
        (returned (to_types_volume d vs attachments))

  unfoldable pub volumes : VolumesOpts → Exec S Error (List Volume)
  volumes opts = do ec2vols ← found [] []; some_volume ec2vols; convert ec2vols opts.attachments

  unfoldable pub volume_inspect : Text → VolumesOpts → Exec S Error Volume
  volume_inspect volume_id opts = do
    ec2vols ← found volume_id []
    some_volume ec2vols
    vols ← convert ec2vols opts.attachments
    first vols

  abbrev inspect_again : Text → KeyValueStore → Exec S Error Volume
  inspect_again volume_id opts =
      volume_inspect volume_id (record { attachments = vol_att_req_true; opts = opts })

  unfoldable pub volume_create : Text → VolumeCreateOpts → Exec S Error Volume
  volume_create volume_name opts = do
    ec2vols ← found [] volume_name
    vols ← convert ec2vols 0
    no_such_name vols
    vol ← explain (codes "error creating volume") (create_volume d ec2 volume_name opts)
    inspect_again vol.volume_id opts.opts

  unfoldable pub volume_remove : Text → VolumeDetachOpts → Exec S Error (Unit {0})
  volume_remove volume_id opts =
      explain (codes "error deleting volume") (ec2.delete_volume volume_id)

  -- The volumes with this ID, with all their attachments.
  unfoldable pub review : Text → Exec S Error (List Volume)
  review volume_id = do ec2vols ← found volume_id []; convert ec2vols vol_att_req_true

  abbrev detach_reviewed : Text → VolumeDetachOpts → List Volume → Exec S Error Volume
  detach_reviewed volume_id opts [] = raise no_volume_returned
  detach_reviewed volume_id opts (v ∷ vs) = elim v.attachments [
    | [] ↦ raise already_detached
    | a ∷ as' ↦ do
      explain (codes "error detaching volume") (ec2.detach_volume volume_id opts.force)
      explain (codes "error waiting for volume detach")
          (wait_volume_complete d ec2 volume_id wait_detach)
      explain (codes "error getting volume") (inspect_again volume_id opts.opts)
  ]

  unfoldable pub volume_detach : Text → VolumeDetachOpts → Exec S Error Volume
  volume_detach volume_id opts = do vols ← review volume_id; detach_reviewed volume_id opts vols

  -- attachVolume
  unfoldable pub attach_volume : Text → Text → Text → Exec S Error (Unit {0})
  attach_volume volume_id volume_name device = do
    ec2vols ← found volume_id volume_name
    only_one ec2vols
    iid ← must_instance_id d.instance_id
    ec2.attach_volume device iid.id volume_id

  abbrev pub make_free : Text → VolumeAttachOpts → List VolumeAttachment → Exec S Error (Unit {0})
  make_free volume_id opts [] = pure tt
  make_free volume_id opts (a ∷ as') =
      if opts.force
      then (do
        explain (codes "error detaching volume")
            (volume_detach volume_id (record { force = true; opts = opts.opts }))
        pure tt)
      else raise already_attached

  abbrev attach_reviewed : Text → VolumeAttachOpts → List Volume → Exec S Error (Volume × Text)
  attach_reviewed volume_id opts [] = raise (goof (codes "no volume found"))
  attach_reviewed volume_id opts (v ∷ vs) = do
    make_free volume_id opts v.attachments
    device ← must_device opts.next_device
    explain (codes "error attaching volume") (attach_volume volume_id v.name device)
    explain (codes "error waiting for volume attach")
        (wait_volume_complete d ec2 volume_id wait_attach)
    vol ← explain (codes "error getting volume") (inspect_again volume_id opts.opts)
    pure (vol, device)

  unfoldable pub volume_attach : Text → VolumeAttachOpts → Exec S Error (Volume × Text)
  volume_attach volume_id opts = do vols ← review volume_id; attach_reviewed volume_id opts vols

  abbrev pub ebs_driver : StorageDriver S
  ebs_driver = record {
    volumes = volumes;
    volume_inspect = volume_inspect;
    volume_create = volume_create;
    volume_create_from_snapshot = λ i n o. raise not_implemented;
    volume_copy = λ i n o. raise not_implemented;
    volume_snapshot = λ i n o. raise not_implemented;
    volume_attach = volume_attach;
    volume_detach =
        λ i o s. continue (volume_detach i o s).0 (λ v. pure (some v)) (volume_detach i o s).1;
    volume_remove = volume_remove;
    snapshots = λ o. raise not_implemented;
    snapshot_inspect = λ i o. raise not_implemented;
    snapshot_copy = λ i n t o. raise not_implemented;
    snapshot_remove = λ i o. raise not_implemented;
  }

-- ===== src/Gcepd/Volumes.antt =====
-- The operations of drivers/storage/gcepd/storage/gce_storage.go as a storage driver of the routes. Those on
-- snapshots are not implemented.
use libstorage.Base.{
  ℕ, List, [], ◌∷◌, Bool, Option, none, some, Text, codes, Result, ok, err, Exec, pure, raise,
  ◌>>=◌, ◌>>◌, if◌then◌else◌, nat_eq, text_eq, equal_fold,
}
use libstorage.Types.Attachments.{vol_att_none, volume_attachments_requested}
use libstorage.Types.Errors.{Error, goof, panicked}
use libstorage.Types.Models.{Volume}
use libstorage.Router.{
  VolumesOpts, VolumeCreateOpts, VolumeAttachOpts, VolumeDetachOpts, StorageDriver,
}
use libstorage.Gcepd.{
  Gcepd, Compute, Disk, explain, valid_zone, returned, to_type_volume, get_disks,
  get_aggregated_disks, get_disk, get_instance, wait_until_operation_is_finished, tag_key, tag_of,
}
use libstorage.Gcepd.Requests.{
  not_implemented, is_valid_disk_name, must_zone, must_instance_id, first, must_find, create_zone,
  big_enough, must_size, disk_type, disk_type_uri, source_of,
}
use libstorage.Gcepd.Detach.{detach_volume}

module _ {S : Type 0} (d : Gcepd) (gce : Compute S) where
  abbrev zone_in : Exec S Error (Option Text)
  unfolding valid_zone
  zone_in = returned (valid_zone d)

  abbrev ask_disks : Option Text → Exec S Error (List Disk)
  unfolding get_disks get_aggregated_disks
  ask_disks none = get_aggregated_disks d gce
  ask_disks (some []) = get_aggregated_disks d gce
  ask_disks (some (c ∷ zone)) = get_disks d gce (c ∷ zone)

  abbrev convert : List Disk → ℕ → Exec S Error (List Volume)
  unfolding to_type_volume
  convert disks mask =
      explain (codes "error converting to types.Volume") (returned (to_type_volume d disks mask))

  abbrev convert_some : List Disk → ℕ → Exec S Error (List Volume)
  unfolding to_type_volume
  convert_some [] mask = pure []
  convert_some (disk ∷ disks) mask = convert (disk ∷ disks) mask

  unfoldable pub volumes : VolumesOpts → Exec S Error (List Volume)
  unfolding valid_zone get_disks get_aggregated_disks to_type_volume
  volumes opts = do
    zone ← zone_in
    disks ← explain (codes "Unable to get disks from GCE API") (ask_disks zone)
    convert_some disks opts.attachments

  unfoldable pub inspect_volume : Text → ℕ → Exec S Error Volume
  unfolding valid_zone get_disk to_type_volume
  inspect_volume volume_id mask = do
    own ← zone_in
    zone ← must_zone (codes "VolumeInspect") own
    there ← explain (codes "Unable to get disk from GCE API") (get_disk d gce zone volume_id)
    disk ← must_find (codes "No Volume Found") there
    vols ← convert (disk ∷ []) mask
    first vols

  unfoldable pub volume_inspect : Text → VolumesOpts → Exec S Error Volume
  unfolding inspect_volume
  volume_inspect volume_id opts = inspect_volume volume_id opts.attachments

  -- What comes of a label is only logged; a disk that is gone is dereferenced.
  abbrev ignored : Result Error (Unit {0}) × S → Result Error (Unit {0}) × S
  ignored (ok u, s) = (ok tt, s)
  ignored (err panicked, s) = (err panicked, s)
  ignored (err e, s) = (ok tt, s)

  abbrev label_disk : Text → Text → Option Disk → S → Result Error (Unit {0}) × S
  label_disk zone name none s = (err panicked, s)
  label_disk zone name (some disk) s =
      ignored (gce.set_labels zone name ((tag_key, d.tag) ∷ []) disk.label_fingerprint s)

  abbrev labelled : Text → Text → Result Error (Option Disk) × S → Result Error (Unit {0}) × S
  labelled zone name (err e, s) = (ok tt, s)
  labelled zone name (ok there, s) = label_disk zone name there s

  abbrev add_label : Option Text → Text → Text → Exec S Error (Unit {0})
  unfolding get_disk
  add_label none zone name = pure tt
  add_label (some tag) zone name = λ s. labelled zone name (get_disk d gce zone name s)

  unfoldable pub create_volume : Text → Text → VolumeCreateOpts → Exec S Error (Unit {0})
  unfolding get_disk wait_until_operation_is_finished equal_fold
  create_volume zone name opts = do
    size ← must_size (big_enough opts.size)
    op ← explain (codes "Failed to initiate disk creation") (
        gce.insert_disk zone (record {
          name = name;
          size_gb = size;
          type = disk_type_uri zone (disk_type d.default_disk_type opts.type);
        }))
    wait_until_operation_is_finished d gce zone op
    add_label (tag_of d) zone name

  abbrev must_be_new : Option Disk → Exec S Error (Unit {0})
  must_be_new none = pure tt
  must_be_new (some disk) = raise (goof (codes "volume name already exists"))

  unfoldable pub volume_create : Text → VolumeCreateOpts → Exec S Error Volume
  unfolding valid_zone is_valid_disk_name get_disk create_volume inspect_volume
  volume_create name opts = do
    own ← zone_in
    zone ← returned (create_zone own opts.availability_zone)
    if is_valid_disk_name name
        then pure tt
        else raise (goof (codes "Volume name does not meet GCE naming requirements"))
    there ← explain (codes "error querying for existing volume") (get_disk d gce zone name)
    must_be_new there
    explain (codes "error creating volume") (create_volume zone name opts)
    inspect_volume name vol_att_none

  unfoldable pub volume_remove : Text → VolumeDetachOpts → Exec S Error (Unit {0})
  unfolding valid_zone wait_until_operation_is_finished
  volume_remove volume_id opts = do
    own ← zone_in
    zone ← must_zone (codes "VolumeRemove") own
    op ← explain (codes "Failed to initiate disk deletion") (gce.delete_disk zone volume_id)
    wait_until_operation_is_finished d gce zone op

  -- attachVolume
  unfoldable pub attach_volume : Text → Text → Text → Exec S Error (Unit {0})
  unfolding wait_until_operation_is_finished
  attach_volume instance' zone name = do
    op ←
        gce.attach_disk zone instance' (record { source = source_of zone name; device_name = name })
    wait_until_operation_is_finished d gce zone op

  abbrev pub make_free : Disk → Bool → List Text → Exec S Error (Unit {0})
  make_free disk force [] = pure tt
  make_free disk force (user ∷ users) =
      if force
      then explain (codes "Error detaching volume during force attach") (detach_volume d gce disk)
      else raise (goof (codes "Volume already attached to different host"))

  unfoldable pub volume_attach : Text → VolumeAttachOpts → Exec S Error (Volume × Text)
  unfolding valid_zone get_instance get_disk detach_volume attach_volume inspect_volume
  volume_attach volume_id opts = do
    own ← zone_in
    zone ← must_zone (codes "VolumeAttach") own
    iid ← must_instance_id d.instance_id
    instance' ← get_instance d gce zone iid.id
    must_find (codes "Instance to attach to not found") instance'
    there ← get_disk d gce zone volume_id
    disk ← must_find (codes "Volume not found") there
    make_free disk opts.force disk.users
    attach_volume iid.id zone volume_id
    vol ←
        explain (codes "Error getting volume")
          (inspect_volume volume_id volume_attachments_requested)
    pure (vol, volume_id)

  abbrev must_be_attached : List Text → Exec S Error (Unit {0})
  must_be_attached [] = raise (goof (codes "Volume already detached"))
  must_be_attached (user ∷ users) = pure tt

  unfoldable pub volume_detach : Text → VolumeDetachOpts → Exec S Error (Option Volume)
  unfolding valid_zone get_disk detach_volume inspect_volume
  volume_detach volume_id opts = do
    own ← zone_in
    zone ← must_zone (codes "VolumeDetach") own
    there ← get_disk d gce zone volume_id
    disk ← must_find (codes "Volume not found") there
    must_be_attached disk.users
    explain (codes "Error detaching disk") (detach_volume d gce disk)
    vol ←
        explain (codes "Error getting volume")
          (inspect_volume volume_id volume_attachments_requested)
    pure (some vol)

  abbrev pub gcepd_driver : StorageDriver S
  gcepd_driver = record {
    volumes = volumes;
    volume_inspect = volume_inspect;
    volume_create = volume_create;
    volume_create_from_snapshot = λ i n o. raise not_implemented;
    volume_copy = λ i n o. raise not_implemented;
    volume_snapshot = λ i n o. raise not_implemented;
    volume_attach = volume_attach;
    volume_detach = volume_detach;
    volume_remove = volume_remove;
    snapshots = λ o. raise not_implemented;
    snapshot_inspect = λ i o. raise not_implemented;
    snapshot_copy = λ i n t o. raise not_implemented;
    snapshot_remove = λ i o. raise not_implemented;
  }

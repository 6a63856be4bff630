-- ===== src/Dobs/Volumes.antt =====
-- The operations of drivers/storage/dobs/storage/dobs_storage.go as a storage driver of the routes. Those on
-- snapshots are not implemented.
use libstorage.Base.{
  text_eq, ℕ, List, [], ◌∷◌, Bool, Option, none, some, Text, codes, Exec, pure, raise, ◌>>=◌, ◌>>◌,
  if◌then◌else◌,
}
use libstorage.Base.Dict.{get}
use libstorage.Base.Int.{ℤ, parse_int}
use libstorage.Types.Attachments.{vol_att_req_true}
use libstorage.Types.Errors.{Error, goof, panicked}
use libstorage.Types.Models.{Volume}
use libstorage.Router.{
  VolumesOpts, VolumeCreateOpts, VolumeAttachOpts, VolumeDetachOpts, StorageDriver,
}
use libstorage.Dobs.{
  Dobs, Godo, explain, must_instance_id, to_types_volume, to_types_volumes, detach_volume,
  wait_for_action,
}

abbrev pub not_implemented : Error
not_implemented = goof (codes "not implemented")

abbrev pub already_attached : Error
already_attached = goof (codes "volume already attached")

abbrev pub already_detached : Error
already_detached = goof (codes "volume already detached")

-- The region of the instance ID, which an empty zone is replaced by.
abbrev region_of : Option Text → Text
region_of none = []
region_of (some region) = region

abbrev zone_of : {S : Type 0} → Dobs → Option Text → Exec S Error Text
unfolding get
zone_of d (some (c ∷ region)) = pure (c ∷ region)
zone_of d _ = do
  iid ← must_instance_id d.instance_id
  pure (region_of (get iid.fields (codes "region")))

abbrev must_size : {S : Type 0} → Option ℤ → Exec S Error ℤ
must_size none = raise panicked
must_size (some size) = pure size

-- strconv.Atoi of the ID of the instance
abbrev droplet_of : {S : Type 0} → Option ℤ → Exec S Error ℤ
droplet_of none = raise (goof (codes "invalid syntax"))
droplet_of (some droplet) = pure droplet

module _ {S : Type 0} (d : Dobs) (godo : Godo S) where
  unfoldable pub volumes : VolumesOpts → Exec S Error (List Volume)
  unfolding to_types_volumes
  volumes opts = do
    vs ← godo.list_volumes
    (λ s. pure (to_types_volumes d godo vs opts.attachments s) s)

  unfoldable pub inspect_volume : Text → ℕ → Exec S Error Volume
  unfolding to_types_volume
  inspect_volume volume_id mask = do
    v ← godo.get_volume volume_id
    (λ s. pure (to_types_volume d godo v mask s) s)

  unfoldable pub volume_inspect : Text → VolumesOpts → Exec S Error Volume
  unfolding inspect_volume
  volume_inspect volume_id opts = inspect_volume volume_id opts.attachments

  unfoldable pub volume_create : Text → VolumeCreateOpts → Exec S Error Volume
  unfolding inspect_volume get
  volume_create name opts = do
    zone ← zone_of d opts.availability_zone
    size ← must_size opts.size
    v ← godo.create_volume (record { region = zone; name = name; size_giga_bytes = size })
    inspect_volume v.id vol_att_req_true

  -- What removal and attach do with a volume that is attached.
  abbrev pub freed : Text → Bool → List ℤ → Exec S Error (Unit {0})
  freed volume_id force [] = pure tt
  freed volume_id force (droplet ∷ droplets) =
      if force then detach_volume d godo volume_id else raise already_attached

  unfoldable pub volume_remove : Text → VolumeDetachOpts → Exec S Error (Unit {0})
  unfolding detach_volume
  volume_remove volume_id opts = do
    v ← godo.get_volume volume_id
    freed volume_id opts.force v.droplet_ids
    godo.delete_volume volume_id

  unfoldable pub volume_attach : Text → VolumeAttachOpts → Exec S Error (Volume × Text)
  unfolding detach_volume wait_for_action inspect_volume parse_int
  volume_attach volume_id opts = do
    v ← explain (codes "error retrieving volume") (godo.get_volume volume_id)
    freed volume_id opts.force v.droplet_ids
    iid ← must_instance_id d.instance_id
    droplet ← droplet_of (parse_int iid.id)
    action ← godo.attach volume_id droplet
    wait_for_action d godo volume_id action
    attached ← explain (codes "error retrieving volume") (inspect_volume volume_id vol_att_req_true)
    pure (attached, attached.name)

  abbrev must_be_attached : List ℤ → Exec S Error (Unit {0})
  must_be_attached [] = raise already_detached
  must_be_attached (droplet ∷ droplets) = pure tt

  unfoldable pub volume_detach : Text → VolumeDetachOpts → Exec S Error (Option Volume)
  unfolding detach_volume inspect_volume
  volume_detach volume_id opts = do
    v ← explain (codes "error getting volume") (godo.get_volume volume_id)
    must_be_attached v.droplet_ids
    detach_volume d godo volume_id
    detached ←
        explain (codes "error getting volume information")
          (inspect_volume volume_id vol_att_req_true)
    pure (some detached)

  abbrev pub dobs_driver : StorageDriver S
  dobs_driver = record {
    volumes = volumes;
    volume_inspect = volume_inspect;
    volume_create = volume_create;
    volume_create_from_snapshot = λ i n o. raise not_implemented;
    volume_copy = λ i n o. raise not_implemented;
    volume_snapshot = λ i n o. raise not_implemented;
    volume_attach = volume_attach;
    volume_detach = volume_detach;
    volume_remove = volume_remove;
    snapshots = λ o. raise not_implemented;
    snapshot_inspect = λ i o. raise not_implemented;
    snapshot_copy = λ i n t o. raise not_implemented;
    snapshot_remove = λ i o. raise not_implemented;
  }

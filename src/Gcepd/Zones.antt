-- ===== src/Gcepd/Zones.antt =====
-- The zones of drivers/storage/gcepd/storage/gce_storage.go.
use libstorage.Base.{
  ℕ, [], ◌∷◌, true, false, none, some, Text, codes, ok, err, ◌≡◌, ◌≢◌, arith, ◌==◌, text_eq,
}
use libstorage.Router.{VolumesOpts, VolumeCreateOpts, VolumeAttachOpts, VolumeDetachOpts}
use libstorage.Gcepd.{Gcepd, Compute, valid_zone, get_client_zone, no_access_to_zone, get_disk}
use libstorage.Gcepd.Volumes.{
  volumes, volume_inspect, volume_create, volume_remove, volume_attach, volume_detach,
  create_volume, inspect_volume,
}
use libstorage.Gcepd.Requests.{zone_required, is_valid_disk_name}

valid_zone_refused :
    (d : Gcepd) (zone : Text)
    → get_client_zone d.instance_id ≡ some zone
    → d.zone ≢ []
    → (zone == d.zone) ≡ false
    → valid_zone d ≡ err no_access_to_zone
unfolding valid_zone
valid_zone_refused d zone client own other = ground (arith, client, own, other)

module _ {S : Type 0} (d : Gcepd) (gce : Compute S) where
  -- A driver that is restricted to a zone, and a client in another zone: Volumes, VolumeInspect, VolumeCreate,
  -- VolumeRemove, VolumeAttach and VolumeDetach each answer with the error that the zone is not accessible, and
  -- make no call of the service.
  pub other_zone_refused :
      (zone : Text) (s : S)
      → get_client_zone d.instance_id ≡ some zone
      → d.zone ≢ []
      → (zone == d.zone) ≡ false
      → ((opts : VolumesOpts) → volumes d gce opts s ≡ (err no_access_to_zone, s))
        × ((id : Text) (opts : VolumesOpts)
            → volume_inspect d gce id opts s ≡ (err no_access_to_zone, s))
        × ((name : Text) (opts : VolumeCreateOpts)
            → volume_create d gce name opts s ≡ (err no_access_to_zone, s))
        × ((id : Text) (opts : VolumeDetachOpts)
            → volume_remove d gce id opts s ≡ (err no_access_to_zone, s))
        × ((id : Text) (opts : VolumeAttachOpts)
            → volume_attach d gce id opts s ≡ (err no_access_to_zone, s))
        × ((id : Text) (opts : VolumeDetachOpts)
            → volume_detach d gce id opts s ≡ (err no_access_to_zone, s))
  unfolding volumes volume_inspect volume_create volume_remove volume_attach volume_detach
  other_zone_refused zone s client own other =
      let refused = valid_zone_refused d zone client own other in
      (
        λ opts. rw refused,
        λ id opts. rw refused,
        λ name opts. rw refused,
        λ id opts. rw refused,
        λ id opts. rw refused,
        λ id opts. rw refused,
      )

  -- Where neither the client nor the driver has a zone, and the request for a new volume names one, the name is
  -- valid and not taken in that zone, and the disk is created without an error: the request fails
  -- all the same, since the new volume is inspected without a zone, and the disk stays.
  create_in_named_zone_fails :
      (name : Text) (opts : VolumeCreateOpts) (c : ℕ) (zone : Text) (s s1 s2 : S)
      → valid_zone d ≡ ok none
      → opts.availability_zone ≡ some (c ∷ zone)
      → is_valid_disk_name name ≡ true
      → get_disk d gce (c ∷ zone) name s ≡ (ok none, s1)
      → create_volume d gce (c ∷ zone) name opts s1 ≡ (ok tt, s2)
      → volume_create d gce name opts s ≡ (err (zone_required (codes "VolumeInspect")), s2)
  unfolding volume_create inspect_volume
  create_in_named_zone_fails name opts c zone s s1 s2 nowhere named valid fresh created =
      rw (nowhere, named, valid, fresh, created)

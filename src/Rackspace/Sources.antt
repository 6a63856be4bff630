-- ===== src/Rackspace/Sources.antt =====
-- What a copy and an attach by force come to in drivers/storage/rackspace/storage/rackspace_storage.go.
use libstorage.Base.{ℕ, [], ◌∷◌, true, some, Text, ok, err, ◌≡◌}
use libstorage.Types.Attachments.{vol_att_req_true}
use libstorage.Types.Errors.{panicked}
use libstorage.Types.Models.{InstanceId, Volume}
use libstorage.Router.{VolumeAttachOpts}
use libstorage.Store.{KeyValueStore}
use libstorage.Rackspace.{Rackspace, Gophercloud, get_volumes}
use libstorage.Rackspace.Volumes.{
  inspect_volume, create_volume, volume_copy, volume_attach, detach_volume,
}

module _ {S : Type 0} (d : Rackspace) (g : Gophercloud S) where
  -- Copies of two volumes of one type end alike, in one answer and one state: nothing of a source but its type
  -- reaches the service.
  copy_ignores_source :
      (i j name : Text) (opts opts' : KeyValueStore) (v w : Volume) (s s1 : S)
      → inspect_volume d g i 0 s ≡ (ok v, s1)
      → inspect_volume d g j 0 s ≡ (ok w, s1)
      → v.type ≡ w.type
      → volume_copy d g i name opts s ≡ volume_copy d g j name opts' s
  unfolding volume_copy create_volume
  copy_ignores_source i j name opts opts' v w s s1 first second same = rw (first, second, same)

  -- An attach by force of a volume that is there and not attached panics, before the service is asked to attach it.
  force_attach_panics :
      (c : ℕ) (id : Text) (opts : VolumeAttachOpts) (iid : InstanceId) (v : Volume) (s s1 : S)
      → d.instance_id ≡ some iid
      → opts.force ≡ true
      → get_volumes g (c ∷ id) [] vol_att_req_true s ≡ (ok (v ∷ []), s1)
      → v.attachments ≡ []
      → volume_attach d g (c ∷ id) opts s ≡ (err panicked, s1)
  unfolding volume_attach detach_volume
  force_attach_panics c id opts iid v s s1 own force found free = rw (own, force, found, free)

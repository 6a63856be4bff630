-- ===== src/Ebs/Attached.antt =====
-- What an attach and a creation of drivers/storage/ebs/storage/ebs_storage.go leave behind when they fail.
use libstorage.Base.{List, [], ◌∷◌, ◌≡◌, refl, true, none, Text, ok, err}
use libstorage.Types.Attachments.{bit_set}
use libstorage.Types.Errors.{panicked}
use libstorage.Types.Models.{Volume, VolumeAttachment}
use libstorage.Router.{VolumeCreateOpts, VolumeAttachOpts}
use libstorage.Ebs.{Ebs, Ec2, get_volume, to_types_volume}
use libstorage.Ebs.Create.{create_volume, get_instance}
use libstorage.Ebs.Volumes.{
  review, volume_detach, volume_attach, volume_create, missing_next_device,
}

module _ {S : Type 0} (d : Ebs) (ec2 : Ec2 S) where
  -- An attach by force, without a device, of a volume that is attached: where the detach succeeds, the
  -- attach then fails, and leaves the world as it is after the detach.
  attach_by_force_detaches :
      (volume_id : Text) (opts : VolumeAttachOpts) (v : Volume) (vs : List Volume)
      (a : VolumeAttachment) (as' : List VolumeAttachment) (detached : Volume) (s s1 s2 : S)
      → review d ec2 volume_id s ≡ (ok (v ∷ vs), s1)
      → v.attachments ≡ a ∷ as'
      → opts.force ≡ true
      → opts.next_device ≡ none
      → volume_detach d ec2 volume_id (record { force = true; opts = opts.opts }) s1
        ≡ (ok detached, s2)
      → volume_attach d ec2 volume_id opts s ≡ (err missing_next_device, s2)
  unfolding volume_attach
  attach_by_force_detaches volume_id opts v vs a as' detached s s1 s2 there held by_force no_device
        freed =
      rw (there, held, by_force, freed, no_device) refl

  -- A creation without an availability zone panics, once there is no volume of this name and the instance
  -- has been found.
  pub create_without_zone_panics :
      (name : Text) (opts : VolumeCreateOpts) (zone : Text) (s s1 s2 : S)
      → get_volume d ec2 [] name s ≡ (ok [], s1)
      → get_instance d ec2 s1 ≡ (ok zone, s2)
      → opts.availability_zone ≡ none
      → volume_create d ec2 name opts s ≡ (err panicked, s2)
  unfolding volume_create create_volume to_types_volume bit_set
  create_without_zone_panics name opts zone s s1 s2 absent running no_zone =
      rw (absent, running, no_zone) refl

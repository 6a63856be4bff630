-- ===== src/Vfs/Tests.antt =====
-- Runs of the vfs driver on two volumes and files that can be created.
use libstorage.Base.{◌≡◌, refl, [], ◌∷◌, false, none, some, codes, ok, text_beq, nat_eq, text_eq}
use libstorage.Base.Int.{pos}
use libstorage.Base.Dict.{get}
use libstorage.Types.Models.{Volume}
use libstorage.Store.{new_store}
use libstorage.Router.{VolumesOpts, VolumeCreateOpts, VolumeAttachOpts, VolumeDetachOpts}
use libstorage.Linux.Sample.{this_instance, here, data_volume}
use libstorage.Vfs.{VfsState, Environment}
use libstorage.Vfs.Volumes.{volume_create, volume_attach, volume_detach, blank_volume}
use libstorage.Vfs.Triples.{FailsByError}
use libstorage.Vfs.Invariant.{IsKept, operations-IsKept}
use libstorage.Vfs.Volumes.{volume_remove}
use libstorage.Vfs.Attach.{new_attachment, with_new, detach-attach}

abbrev disk : Environment
disk = record { create_error = λ id. none; now = 7; stores = λ a. new_store }

abbrev first : Volume
first = record blank_volume { id = codes "vfs-000"; name = codes "a" }

abbrev second : Volume
second = record data_volume { id = codes "vfs-001"; attachments = [] }

abbrev two_volumes : VfsState
two_volumes = record {
  volumes = (codes "vfs-001", second) ∷ (codes "vfs-000", first) ∷ [];
  snapshots = [];
  vol_count = pos 1;
  snap_count = pos 0;
}

abbrev plain : VolumeCreateOpts
plain = record {
  availability_zone = none;
  iops = none;
  size = some (pos 3);
  type = none;
  encrypted = none;
  encryption_key = none;
  opts = new_store;
}

abbrev no_force : VolumeDetachOpts
no_force = record { force = false; opts = new_store }

abbrev on_xvdb : VolumeAttachOpts
on_xvdb = record { next_device = some (codes "/dev/xvdb"); force = false; opts = new_store }

abbrev all : VolumesOpts
all = record { attachments = 0; opts = new_store }

second_there : get two_volumes.volumes (codes "vfs-001") ≡ some second
unfolding get text_beq
second_there = refl

first_there : get two_volumes.volumes (codes "vfs-000") ≡ some first
unfolding get text_beq
first_there = refl

detach-attach_example :
    let attached = volume_attach disk (some this_instance) (codes "vfs-001") on_xvdb two_volumes in
    let detached = volume_detach disk (some this_instance) (codes "vfs-001") no_force attached.1 in
    (attached.0
      ≡ ok (
        record second {
          attachments =
              new_attachment disk this_instance
                (codes "vfs-001")
                second
                two_volumes
                on_xvdb
                no_force
              ∷ [];
        },
        codes "/dev/xvdb",
      ))
    × (get attached.1.volumes (codes "vfs-001")
        ≡ some (with_new disk this_instance (codes "vfs-001") second two_volumes on_xvdb no_force))
    × (detached.0 ≡ ok (some (record second { attachments = [] })))
    × (get detached.1.volumes (codes "vfs-001") ≡ get two_volumes.volumes (codes "vfs-001"))
detach-attach_example =
    detach-attach disk this_instance (codes "vfs-001") second two_volumes on_xvdb no_force
      (codes "vfs-001") refl second_there refl tt

second_alone : get ((codes "vfs-000", first) ∷ []) (codes "vfs-001") ≡ none
unfolding get text_beq
second_alone = refl

no_failure : FailsByError disk
no_failure id h = cc

-- The second volume is attached.
abbrev held : VfsState
held = record two_volumes {
  volumes =
      (codes "vfs-001", record second { attachments = here ∷ [] }) ∷ (codes "vfs-000", first) ∷ [];
}

operations-IsKept_example :
    IsKept (volume_create disk (codes "new") plain held)
    × IsKept (volume_attach disk (some this_instance) (codes "vfs-001") on_xvdb held)
    × IsKept (volume_detach disk (some this_instance) (codes "vfs-001") no_force held)
    × IsKept (volume_remove (codes "vfs-001") no_force held)
operations-IsKept_example =
    operations-IsKept disk this_instance held no_failure (((λ h. cc), tt), (tt, tt))
      (codes "vfs-001") (codes "new") plain on_xvdb no_force

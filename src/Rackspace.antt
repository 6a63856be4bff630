-- ===== src/Rackspace.antt =====
-- The rackspace storage driver of drivers/storage/rackspace/storage/rackspace_storage.go, over the services for blocks
-- and computers as a record of functions on a world of type `S`: here the search for volumes and snapshots, and their
-- conversion. Init, the options of the login and logging are left out.
pub mod Volumes
mod Sources
use libstorage.Base.{
  ℕ, zero, suc, List, [], ◌∷◌, Bool, true, false, Option, none, some, Text, codes, Result, ok, err,
  Exec, pure, raise, ◌>>=◌, ◌>>◌, if◌then◌else◌, ◌==◌, text_eq,
}
use libstorage.Base.Int.{ℤ, pos}
use libstorage.Types.Attachments.{requested, devices}
use libstorage.Types.Errors.{Error, goof, wrap, panicked, endless}
use libstorage.Types.Models.{InstanceId, Volume, VolumeAttachment, Snapshot}

-- An attachment is a map; `none` stands for a value that is missing or no string.
pub record RsAttachment : Type 0 where
  pub volume_id : Option Text
  pub server_id : Option Text
  pub device : Option Text

pub record RsVolume : Type 0 where
  pub name : Text
  pub id : Text
  pub availability_zone : Text
  pub status : Text
  pub volume_type : Text
  pub size : ℤ
  pub attachments : List RsAttachment

-- `created` is what time.Parse makes of CreatedAt, in seconds, if it is a time.
pub record RsSnapshot : Type 0 where
  pub name : Text
  pub volume_id : Text
  pub id : Text
  pub size : ℤ
  pub created : Option ℤ
  pub description : Text
  pub status : Text

pub record CreateOpts : Type 0 where
  pub name : Text
  pub size : ℤ
  pub snapshot_id : Text
  pub volume_type : Text

-- `wait_for_available` is volumes.WaitForStatus; an attach takes the instance, the volume and a device, which may be
-- empty, and gives the device; a detach takes the instance and the volume.
pub record Gophercloud (S : Type 0) : Type 0 where
  pub get_volume : Text → Exec S Error RsVolume
  pub list_volumes : Exec S Error (List RsVolume)
  pub create_volume : CreateOpts → Exec S Error RsVolume
  pub wait_for_available : Text → Exec S Error (Unit {0})
  pub delete_volume : Text → Exec S Error (Unit {0})
  pub attach : Text → Text → Text → Exec S Error Text
  pub detach : Text → Text → Exec S Error (Unit {0})
  pub list_snapshots : Exec S Error (List RsSnapshot)
  pub get_snapshot : Text → Exec S Error RsSnapshot
  pub create_snapshot : Text → Text → Exec S Error RsSnapshot
  pub delete_snapshot : Text → Exec S Error (Unit {0})
  pub sleep : S → S

-- The instance ID of the context; `rounds` bounds the waits.
pub record Rackspace : Type 0 where
  pub instance_id : Option InstanceId
  pub rounds : ℕ

abbrev pub explained : {S A : Type 0} → Text → Result Error A × S → Result Error A × S
explained t (ok a, s) = (ok a, s)
explained t (err e, s) = (err (wrap t e), s)

-- goof.WithFieldsE
abbrev pub explain : {S A : Type 0} → Text → Exec S Error A → Exec S Error A
explain t m s = explained t (m s)

-- A type assertion on a value of an attachment.
abbrev pub must_string : {S : Type 0} → Option Text → Exec S Error Text
must_string none = raise panicked
must_string (some t) = pure t

abbrev pub translate_attachment : {S : Type 0} → Bool → RsAttachment → Exec S Error VolumeAttachment
translate_attachment with_devices att = do
  volume_id ← must_string att.volume_id
  server_id ← must_string att.server_id
  device ← if with_devices then must_string att.device else pure []
  pure (record {
    device_name = device;
    mount_point = [];
    instance_id = some (record {
      id = server_id;
      driver = codes "rackspace";
      service = [];
      fields = [];
      metadata = [];
    });
    status = [];
    volume_id = volume_id;
    fields = [];
  })

unfoldable pub translate_attachments :
    {S : Type 0} → Bool → List RsAttachment → Exec S Error (List VolumeAttachment)
translate_attachments with_devices [] = pure []
translate_attachments with_devices (att ∷ atts) = do
  a ← translate_attachment with_devices att
  as' ← translate_attachments with_devices atts
  pure (a ∷ as')

unfoldable pub translate_volume : {S : Type 0} → RsVolume → ℕ → Exec S Error Volume
unfolding translate_attachments requested devices
translate_volume v mask = do
  atts ← if requested mask then translate_attachments (devices mask) v.attachments else pure []
  pure (record {
    attachments = atts;
    attachment_state = 0;
    availability_zone = v.availability_zone;
    encrypted = false;
    iops = pos 0;
    name = v.name;
    network_name = [];
    size = v.size;
    status = v.status;
    id = v.id;
    type = v.volume_type;
    fields = [];
  })

unfoldable pub translate_volumes : {S : Type 0} → List RsVolume → ℕ → Exec S Error (List Volume)
unfolding translate_volume
translate_volumes [] mask = pure []
translate_volumes (v ∷ vs) mask = do
  vol ← translate_volume v mask
  vols ← translate_volumes vs mask
  pure (vol ∷ vols)

abbrev epoch_of : Option ℤ → ℤ
epoch_of none = pos 0
epoch_of (some t) = t

unfoldable pub translate_snapshot : RsSnapshot → Snapshot
translate_snapshot s = record {
  description = s.description;
  name = s.name;
  encrypted = false;
  id = s.id;
  start_time = epoch_of s.created;
  status = s.status;
  volume_id = s.volume_id;
  volume_size = s.size;
  fields = [];
}

unfoldable pub translate_snapshots : List RsSnapshot → List Snapshot
unfolding translate_snapshot
translate_snapshots [] = []
translate_snapshots (s ∷ ss) = translate_snapshot s ∷ translate_snapshots ss

-- The first volume with the name, if there is a name.
abbrev first_named : Text → List RsVolume → List RsVolume
first_named name [] = []
first_named name (v ∷ vs) =
    let rest = first_named name vs in if v.name == name then v ∷ [] else rest

abbrev pub filtered : Text → List RsVolume → List RsVolume
filtered [] vs = vs
filtered (c ∷ name) vs = first_named (c ∷ name) vs

module _ {S : Type 0} (g : Gophercloud S) where
  abbrev ask_volumes : Text → Text → Exec S Error (List RsVolume)
  ask_volumes [] name = do
    vs ← explain (codes "error listing volumes") g.list_volumes
    pure (filtered name vs)
  ask_volumes (c ∷ id) name = do
    v ← explain (codes "error getting volumes") (g.get_volume (c ∷ id))
    pure (v ∷ [])

  -- getVolume
  unfoldable pub get_volumes : Text → Text → ℕ → Exec S Error (List Volume)
  unfolding translate_volumes
  get_volumes id name mask = do vs ← ask_volumes id name; translate_volumes vs mask

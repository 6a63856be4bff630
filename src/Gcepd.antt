-- ===== src/Gcepd.antt =====
-- The gcepd storage driver of drivers/storage/gcepd/storage/gce_storage.go, over the compute service of Google
-- as a record of functions on a world of type `S`: here the zones, the search for disks and their conversion,
-- and the waits. Init, the sessions and logging are left out, and the project of all calls is not named.
pub mod Requests
pub mod Detach
pub mod Volumes
pub mod Zones
mod Tests
use libstorage.Base.{
  ℕ, zero, suc, ◌+◌, List, [], ◌∷◌, ◌++◌, Bool, true, false, ◌||◌, Option, none, some, Text, codes,
  Result, ok, err, Exec, pure, raise, continue, ◌>>=◌, ◌>>◌, if◌then◌else◌, ◌==◌, nat_eq, text_eq,
}
use libstorage.Base.Dict.{Dict, get}
use libstorage.Base.Int.{ℤ, pos}
use libstorage.Base.Split.{split}
use libstorage.Types.Attachments.{requested, devices}
use libstorage.Types.Errors.{Error, goof, wrap, panicked, endless}
use libstorage.Types.Models.{InstanceId, Volume, VolumeAttachment}

pub record Disk : Type 0 where
  pub name : Text
  pub zone : Text
  pub status : Text
  pub type : Text
  pub size_gb : ℤ
  pub users : List Text
  pub self_link : Text
  pub label_fingerprint : Text

pub record AttachedDisk : Type 0 where
  pub source : Text
  pub device_name : Text

pub record NewDisk : Type 0 where
  pub name : Text
  pub size_gb : ℤ
  pub type : Text

pub record Operation : Type 0 where
  pub name : Text
  pub status : Text
  pub error : Option Text

-- An error of the service has a code.
pub data CallError : Type 0 where
  googleapi : ℕ → CallError
  other : Error → CallError

-- The calls take the zone first. A list is asked for with the tag of its filter; `get_instance` gives the
-- disks of an instance; `aggregated_disks` gives the lists of all zones.
pub record Compute (S : Type 0) : Type 0 where
  pub list_disks : Text → Option Text → Exec S Error (List Disk)
  pub aggregated_disks : Option Text → Exec S Error (List (List Disk))
  pub get_disk : Text → Text → Exec S CallError Disk
  pub get_instance : Text → Text → Exec S CallError (List AttachedDisk)
  pub insert_disk : Text → NewDisk → Exec S Error Operation
  pub delete_disk : Text → Text → Exec S Error Operation
  pub set_labels : Text → Text → List (Text × Text) → Text → Exec S Error (Unit {0})
  pub attach_disk : Text → Text → AttachedDisk → Exec S Error Operation
  pub detach_disk : Text → Text → Text → Exec S Error Operation
  pub get_operation : Text → Text → Exec S Error Operation
  pub sleep : S → S

-- The driver, its configuration, and what the context of a call has. `rounds` bounds the waits.
pub record Gcepd : Type 0 where
  pub zone : Text
  pub default_disk_type : Text
  pub tag : Text
  pub instance_id : Option InstanceId
  pub local_devices : Option (Dict Text Text)
  pub rounds : ℕ

abbrev pub tag_key : Text
tag_key = codes "libstoragetag"

abbrev pub no_access_to_zone : Error
no_access_to_zone = goof (codes "No access to given zone")

abbrev pub explained : {S A : Type 0} → Text → Result Error A × S → Result Error A × S
explained t (ok a, s) = (ok a, s)
explained t (err e, s) = (err (wrap t e), s)

-- goof.WithError
abbrev pub explain : {S A : Type 0} → Text → Exec S Error A → Exec S Error A
explain t m s = explained t (m s)

abbrev pub some_text : Option Text → Option Text
some_text none = none
some_text (some []) = none
some_text (some (c ∷ s)) = some (c ∷ s)

-- getClientZone
unfoldable pub get_client_zone : Option InstanceId → Option Text
unfolding get
get_client_zone none = none
get_client_zone (some iid) = some_text (get iid.fields (codes "zone"))

abbrev allowed_zone : Text → Text → Result Error (Option Text)
allowed_zone zone [] = ok (some zone)
allowed_zone zone (c ∷ own) = if zone == c ∷ own then ok (some zone) else err no_access_to_zone

abbrev zone_for : Text → Option Text → Result Error (Option Text)
zone_for own none = ok (some_text (some own))
zone_for own (some zone) = allowed_zone zone own

-- validZone
unfoldable pub valid_zone : Gcepd → Result Error (Option Text)
unfolding get_client_zone
valid_zone d = zone_for d.zone (get_client_zone d.instance_id)

abbrev pub returned : {S A : Type 0} → Result Error A → Exec S Error A
returned r s = (r, s)

abbrev pub tag_of : Gcepd → Option Text
tag_of d = some_text (some d.tag)

abbrev last_part : List Text → Text
last_part [] = []
last_part (p ∷ []) = p
last_part (p ∷ q ∷ ps) = last_part (q ∷ ps)

-- utils.GetIndex
unfoldable pub get_index : Text → Text
unfolding split
get_index href = last_part (split b'/' href)

abbrev mapped_device : Option Text → Text
mapped_device none = []
mapped_device (some device) = device

-- `ld` is the device map, if devices are asked for.
abbrev device_of : Option (Dict Text Text) → Text → Text
unfolding get
device_of none name = []
device_of (some ld) name = mapped_device (get ld name)

unfoldable pub get_attachment : Text → Option (Dict Text Text) → List Text → List VolumeAttachment
unfolding get_index get
get_attachment name ld [] = []
get_attachment name ld (link ∷ links) =
    record {
      device_name = device_of ld name;
      mount_point = [];
      instance_id = some (record {
        id = get_index link;
        driver = codes "gcepd";
        service = [];
        fields = [];
        metadata = [];
      });
      status = [];
      volume_id = name;
      fields = [];
    }
    ∷ get_attachment name ld links

unfoldable pub to_volumes : Bool → Option (Dict Text Text) → List Disk → List Volume
unfolding get_index get_attachment
to_volumes with_attachments ld [] = []
to_volumes with_attachments ld (disk ∷ disks) =
    record {
      attachments = if with_attachments then get_attachment disk.name ld disk.users else [];
      attachment_state = 0;
      availability_zone = get_index disk.zone;
      encrypted = false;
      iops = pos 0;
      name = disk.name;
      network_name = [];
      size = disk.size_gb;
      status = disk.status;
      id = disk.name;
      type = get_index disk.type;
      fields = [];
    }
    ∷ to_volumes with_attachments ld disks

abbrev converted : ℕ → Bool → Option (Dict Text Text) → List Disk → Result Error (List Volume)
unfolding requested to_volumes
converted mask false ld disks = ok (to_volumes (requested mask) none disks)
converted mask true none disks = err (goof (codes "error getting local devices from context"))
converted mask true (some ld) disks = ok (to_volumes (requested mask) (some ld) disks)

-- toTypeVolume
unfoldable pub to_type_volume : Gcepd → List Disk → ℕ → Result Error (List Volume)
unfolding devices requested to_volumes
to_type_volume d disks mask = converted mask (devices mask) d.local_devices disks

abbrev pub found : {S A : Type 0} → Result CallError A × S → Result Error (Option A) × S
found (ok a, s) = (ok (some a), s)
found (err (googleapi code), s) =
    if code == 404 then (ok none, s) else (err (goof (codes "googleapi")), s)
found (err (other e), s) = (err e, s)

abbrev joined : {A : Type 0} → List (List A) → List A
joined [] = []
joined (xs ∷ xss) = xs ++ joined xss

module _ {S : Type 0} (d : Gcepd) (gce : Compute S) where
  unfoldable pub get_disks : Text → Exec S Error (List Disk)
  get_disks zone = gce.list_disks zone (tag_of d)

  unfoldable pub get_aggregated_disks : Exec S Error (List Disk)
  get_aggregated_disks = do lists ← gce.aggregated_disks (tag_of d); pure (joined lists)

  unfoldable pub get_disk : Text → Text → Exec S Error (Option Disk)
  get_disk zone name s = found (gce.get_disk zone name s)

  unfoldable pub get_instance : Text → Text → Exec S Error (Option (List AttachedDisk))
  get_instance zone name s = found (gce.get_instance zone name s)

  abbrev done : Option Text → S → Result Error (Unit {0}) × S
  done none s = (ok tt, s)
  done (some e) s = (err (goof e), s)

  abbrev finished_or_unknown : Bool → Operation → S → Result Error (Unit {0}) × S
  finished_or_unknown true op s = done op.error s
  finished_or_unknown false op s = (err (goof (codes "Unknown status")), s)

  abbrev pub waits_on :
      Bool → Operation → (S → Result Error (Unit {0}) × S) → S → Result Error (Unit {0}) × S
  waits_on true op again s = again s
  waits_on false op again s = finished_or_unknown (op.status == codes "DONE") op s

  abbrev pub is_underway : Operation → Bool
  is_underway op = op.status == codes "PENDING" || op.status == codes "RUNNING"

  abbrev looked :
      Result Error Operation × S → (S → Result Error (Unit {0}) × S) → Result Error (Unit {0}) × S
  looked (err e, s) again = (err e, s)
  looked (ok op, s) again = waits_on (is_underway op) op again s

  unfoldable pub wait_rounds : ℕ → Text → Text → Exec S Error (Unit {0})
  wait_rounds zero zone name s = (err endless, s)
  wait_rounds (suc n) zone name s =
      looked (gce.get_operation zone name (gce.sleep s)) (wait_rounds n zone name)

  unfoldable pub wait_until_operation_is_finished : Text → Operation → Exec S Error (Unit {0})
  unfolding wait_rounds
  wait_until_operation_is_finished zone op = wait_rounds d.rounds zone op.name

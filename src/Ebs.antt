-- ===== src/Ebs.antt =====
-- The ebs storage driver of drivers/storage/ebs/storage/ebs_storage.go. Here is what its operations
-- share: the EC2 service as an interface that acts on a world of type `S`, the context and the
-- configuration, the search for volumes and their conversion. What EC2 returns has all the fields that
-- the driver dereferences, but for the input and output operations per second. Sessions and logging are
-- left out.
pub mod Wait
pub mod Create
pub mod Volumes
pub mod Polls
pub mod Attached
mod Tests
use libstorage.Base.{
  ℕ, zero, suc, ◌+◌, List, [], ◌∷◌, ◌++◌, Bool, true, false, Option, none, some, Text, codes,
  Result, ok, err, Exec, pure, raise, continue, ◌>>=◌, if◌then◌else◌, ◌==◌, text_eq, drop,
}
use libstorage.Base.Dict.{Dict, get}
use libstorage.Base.Int.{ℤ, pos}
use libstorage.Base.Split.{index_of}
use libstorage.Types.Attachments.{devices, requested}
use libstorage.Types.Errors.{Error, goof, wrap, panicked}
use libstorage.Types.Models.{InstanceId, Volume, VolumeAttachment}

pub record Ec2Attachment : Type 0 where
  pub device : Text
  pub volume_id : Text
  pub instance_id : Text
  pub state : Text

pub record Ec2Volume : Type 0 where
  pub volume_id : Text
  pub availability_zone : Text
  pub encrypted : Bool
  pub state : Text
  pub volume_type : Text
  pub size : ℤ
  pub iops : Option ℤ
  pub attachments : List Ec2Attachment
  pub tags : List (Text × Text)

-- DescribeVolumesInput, with a list of one value in each filter.
pub record DescribeVolumes : Type 0 where
  pub filters : List (Text × Text)
  pub volume_ids : List Text

pub record CreateVolume : Type 0 where
  pub size : Option ℤ
  pub availability_zone : Option Text
  pub encrypted : Option Bool
  pub volume_type : Option Text
  pub snapshot_id : Option Text
  pub iops : Option ℤ
  pub kms_key_id : Option Text

-- `describe_instances` gives the availability zones of the instances of each reservation.
pub record Ec2 (S : Type 0) : Type 0 where
  pub describe_volumes : DescribeVolumes → Exec S Error (List Ec2Volume)
  pub describe_instances : Text → Exec S Error (List (List Text))
  pub create_volume : CreateVolume → Exec S Error Ec2Volume
  pub create_tags : Text → List (Text × Text) → Exec S Error (Unit {0})
  pub delete_volume : Text → Exec S Error (Unit {0})
  pub attach_volume : Text → Text → Text → Exec S Error (Unit {0})
  pub detach_volume : Text → Bool → Exec S Error (Unit {0})
  pub sleep : S → S

-- The driver and the context of a call. `rounds` bounds the loop that waits for a volume.
pub record Ebs : Type 0 where
  pub name : Text
  pub tag : Text
  pub kms_key_id : Text
  pub instance_id : Option InstanceId
  pub local_devices : Option (Dict Text Text)
  pub rounds : ℕ

abbrev pub no_volume_returned : Error
no_volume_returned = goof (codes "no volume returned")

abbrev pub too_many_volumes_returned : Error
too_many_volumes_returned = goof (codes "too many volumes returned")

abbrev explained : {S A : Type 0} → Text → Result Error A × S → Result Error A × S
explained t (ok a, s) = (ok a, s)
explained t (err e, s) = (err (wrap t e), s)

-- goof.WithError
abbrev pub explain : {S A : Type 0} → Text → Exec S Error A → Exec S Error A
explain t m s = explained t (m s)

abbrev pub returned : {S A : Type 0} → Result Error A → Exec S Error A
returned r s = (r, s)

abbrev filled : Option Text → Option Text
filled none = none
filled (some []) = none
filled (some (c ∷ s)) = some (c ∷ s)

-- mustAvailabilityZone
abbrev zone_of : Option InstanceId → Option Text
unfolding get
zone_of none = none
zone_of (some iid) = filled (get iid.fields (codes "availabilityZone"))

abbrev zone_filter : Option Text → List (Text × Text)
zone_filter none = []
zone_filter (some z) = (codes "availability-zone", z) ∷ []

abbrev filter_by : Text → Text → List (Text × Text)
filter_by name [] = []
filter_by name (c ∷ s) = (name, c ∷ s) ∷ []

abbrev ids_of : Text → List Text
ids_of [] = []
ids_of (c ∷ s) = (c ∷ s) ∷ []

abbrev pub describe_input : Option InstanceId → Text → Text → DescribeVolumes
unfolding get
describe_input iid volume_id volume_name = record {
  filters =
      zone_filter (zone_of iid)
      ++ (filter_by (codes "tag:Name") volume_name ++ filter_by (codes "volume-id") volume_id);
  volume_ids = ids_of volume_id;
}

-- strings.Replace of the first "sd" by the prefix of the next device.
abbrev taken : ℕ → Text → Text
taken zero s = []
taken (suc n) [] = []
taken (suc n) (c ∷ s) = c ∷ taken n s

abbrev replace_at : Text → Option ℕ → Text
replace_at device none = device
replace_at device (some i) = taken i device ++ (codes "xvd" ++ drop (i + 2) device)

unfoldable pub local_name : Text → Text
unfolding index_of
local_name device = replace_at device (index_of (codes "sd") device)

abbrev pub get_name : List (Text × Text) → Text
get_name [] = []
get_name ((key, value) ∷ tags) =
    let rest = get_name tags in if key == codes "Name" then value else rest

abbrev or_zero : Option ℤ → ℤ
or_zero none = pos 0
or_zero (some n) = n

abbrev keep_known : Text → Option Text → Text
keep_known device none = []
keep_known device (some v) = device

-- `ld` is the map of local devices, if devices are asked for.
unfoldable pub device_of : Option (Dict Text Text) → Text → Text
unfolding get local_name
device_of none device = []
device_of (some ld) device = keep_known (local_name device) (get ld (local_name device))

abbrev pub to_attachments :
    Text → Option (Dict Text Text) → List Ec2Attachment → List VolumeAttachment
to_attachments driver ld [] = []
to_attachments driver ld (a ∷ as') =
    record {
      device_name = device_of ld a.device;
      mount_point = [];
      instance_id = some (record {
        id = a.instance_id;
        driver = driver;
        service = [];
        fields = [];
        metadata = [];
      });
      status = a.state;
      volume_id = a.volume_id;
      fields = [];
    }
    ∷ to_attachments driver ld as'

abbrev pub to_volumes : Text → Bool → Option (Dict Text Text) → List Ec2Volume → List Volume
to_volumes driver with_attachments ld [] = []
to_volumes driver with_attachments ld (v ∷ vs) =
    record {
      attachments = if with_attachments then to_attachments driver ld v.attachments else [];
      attachment_state = 0;
      availability_zone = v.availability_zone;
      encrypted = v.encrypted;
      iops = or_zero v.iops;
      name = get_name v.tags;
      network_name = [];
      size = v.size;
      status = v.state;
      id = v.volume_id;
      type = v.volume_type;
      fields = [];
    }
    ∷ to_volumes driver with_attachments ld vs

abbrev converted :
    Ebs → ℕ → Bool → Option (Dict Text Text) → List Ec2Volume → Result Error (List Volume)
unfolding requested
converted d attachments false ld vs = ok (to_volumes d.name (requested attachments) none vs)
converted d attachments true none vs = err (goof (codes "error getting local devices from context"))
converted d attachments true (some ld) vs =
    ok (to_volumes d.name (requested attachments) (some ld) vs)

unfoldable pub to_types_volume : Ebs → List Ec2Volume → ℕ → Result Error (List Volume)
unfolding devices requested
to_types_volume d vs attachments = converted d attachments (devices attachments) d.local_devices vs

unfoldable pub get_volume : {S : Type 0} → Ebs → Ec2 S → Text → Text → Exec S Error (List Ec2Volume)
unfolding get
get_volume d ec2 volume_id volume_name =
    ec2.describe_volumes (describe_input d.instance_id volume_id volume_name)

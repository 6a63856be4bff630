-- ===== src/Types/Models.antt =====
-- The records of api/types/types_model.go and api/types/types_instanceid.go that the routes pass on.
use libstorage.Base.{ℕ, List, Bool, Option, Text}
use libstorage.Base.Dict.{Dict}
use libstorage.Base.Int.{ℤ}

pub record InstanceId : Type 0 where
  pub id : Text
  pub driver : Text
  pub service : Text
  pub fields : Dict Text Text
  pub metadata : Text

-- `instance_id` is a pointer, and `none` is nil.
pub record VolumeAttachment : Type 0 where
  pub device_name : Text
  pub mount_point : Text
  pub instance_id : Option InstanceId
  pub status : Text
  pub volume_id : Text
  pub fields : Dict Text Text

-- VolumeAttachmentStates: 0 is a state that nobody has set; drivers set no negative one.
abbrev pub volume_attachment_state_unknown : ℕ
volume_attachment_state_unknown = 1

abbrev pub volume_attached : ℕ
volume_attached = 2

abbrev pub volume_available : ℕ
volume_available = 3

abbrev pub volume_unavailable : ℕ
volume_unavailable = 4

pub record Volume : Type 0 where
  pub attachments : List VolumeAttachment
  pub attachment_state : ℕ
  pub availability_zone : Text
  pub encrypted : Bool
  pub iops : ℤ
  pub name : Text
  pub network_name : Text
  pub size : ℤ
  pub status : Text
  pub id : Text
  pub type : Text
  pub fields : Dict Text Text

pub record Snapshot : Type 0 where
  pub description : Text
  pub name : Text
  pub encrypted : Bool
  pub id : Text
  pub start_time : ℤ
  pub status : Text
  pub volume_id : Text
  pub volume_size : ℤ
  pub fields : Dict Text Text

abbrev pub VolumeMap : Type 0
VolumeMap = Dict Text Volume

abbrev pub SnapshotMap : Type 0
SnapshotMap = Dict Text Snapshot

-- ===== src/Linux/Volumes.antt =====
-- List, Inspect, Create and Remove of drivers/integration/linux/linux.go.
use libstorage.Base.{
  ℕ, List, [], ◌∷◌, Option, none, some, Text, codes, Exec, pure, raise, ◌>>=◌, if◌then◌else◌, ◌==◌,
  text_eq, to_lower,
}
use libstorage.Base.Int.{ℤ}
use libstorage.Base.Dict.{Dict}
use libstorage.Types.Models.{Volume, VolumeAttachment}
use libstorage.Types.Errors.{Error, goof, not_found}
use libstorage.Store.{KeyValueStore, is_set}
use libstorage.Store.Typed.{get_string, get_int64, get_attachments}
use libstorage.Router.{VolumeCreateOpts, VolumeDetachOpts}
use libstorage.Linux.{Client, Config, is_empty, volume_inspect_by_id_or_name}

-- The entries of the map that List makes of a volume; "service" and "server" have one value.
pub record VolumeStatus : Type 0 where
  pub name : Text
  pub size : ℤ
  pub iops : ℤ
  pub type : Text
  pub availability_zone : Text
  pub fields : Dict Text Text
  pub service : Text
  pub server : Text

pub record VolumeMapping : Type 0 where
  pub name : Text
  pub volume_mount_point : Text
  pub volume_status : VolumeStatus

abbrev pub first_mount_point : List VolumeAttachment → Text
first_mount_point [] = []
first_mount_point (a ∷ as') = a.mount_point

abbrev pub volume_mapping : Text → Volume → VolumeMapping
volume_mapping service v = record {
  name = v.name;
  volume_mount_point = first_mount_point v.attachments;
  volume_status = record {
    name = v.name;
    size = v.size;
    iops = v.iops;
    type = v.type;
    availability_zone = v.availability_zone;
    fields = v.fields;
    service = service;
    server = service;
  };
}

-- The loop of List.
abbrev pub volume_mappings : Text → List Volume → List VolumeMapping
volume_mappings service [] = []
volume_mappings service (v ∷ vs) = volume_mapping service v ∷ volume_mappings service vs

-- The loop of Inspect.
abbrev pub first_mapping : Text → List VolumeMapping → Option VolumeMapping
first_mapping n [] = none
first_mapping n (o ∷ objs) = if to_lower n == to_lower o.name then some o else first_mapping n objs

module _ {S : Type 0} (c : Client S) where
  abbrev mapped : Option Text → List Volume → Exec S Error (List VolumeMapping)
  mapped none vols = raise (goof (codes "service name is missing"))
  mapped (some service) vols = pure (volume_mappings service vols)

  unfoldable pub list : KeyValueStore → ℕ → Exec S Error (List VolumeMapping)
  list opts now = do
    vols ← c.volumes (get_attachments now opts) (some opts)
    mapped c.service_name vols

  abbrev mapping_or_error : Text → Option VolumeMapping → Exec S Error VolumeMapping
  mapping_or_error volume_name none = raise (not_found volume_name)
  mapping_or_error volume_name (some o) = pure o

  unfoldable pub inspect : Text → KeyValueStore → ℕ → Exec S Error VolumeMapping
  unfolding list
  inspect volume_name opts now = do
    objs ← list opts now
    mapping_or_error volume_name (first_mapping volume_name objs)

  unfoldable pub remove : Text → VolumeDetachOpts → Exec S Error (Unit {0})
  unfolding volume_inspect_by_id_or_name
  remove volume_name opts =
      if is_empty volume_name then raise (goof (codes "missing volume name or ID")) else do
        vol ← volume_inspect_by_id_or_name c [] volume_name 0
        c.volume_remove vol.id opts.force opts.opts

module _ (d : Config) where
  -- The options that Create passes on: each from the caller's store where that has it, and
  -- from the configuration otherwise.
  unfoldable pub create_opts : VolumeCreateOpts → ℕ → VolumeCreateOpts
  create_opts opts now =
      let st = opts.opts in
      let set = λ (k : Text). (is_set k now st).0 in
      record {
        availability_zone = some (
            if set (codes "availabilityZone")
            then get_string (codes "availabilityZone") now st
            else d.availability_zone);
        iops = some (if set (codes "iops") then get_int64 (codes "iops") now st else d.iops);
        size = some (if set (codes "size") then get_int64 (codes "size") now st else d.size);
        type = some (
            if set (codes "type")
            then get_string (codes "type") now st
            else if set (codes "volumeType")
            then get_string (codes "volumeType") now st
            else d.volume_type);
        encrypted = opts.encrypted;
        encryption_key = opts.encryption_key;
        opts = st;
      }

  unfoldable pub create :
      {S : Type 0} → Client S → Text → VolumeCreateOpts → ℕ → Exec S Error (Option Volume)
  unfolding create_opts
  create c volume_name opts now =
      if is_empty volume_name
      then raise (goof (codes "missing volume name or ID"))
      else c.volume_create volume_name (create_opts opts now)

-- ===== src/Ebs/Create.antt =====
-- createVolume of drivers/storage/ebs/storage/ebs_storage.go, with the names of volumes.
use libstorage.Base.{
  suc, List, [], ◌∷◌, ◌++◌, Bool, true, Option, none, some, Text, codes, Exec, pure, raise, ◌>>=◌,
  ◌>>◌, if◌then◌else◌, text_eq, drop, length,
}
use libstorage.Base.Int.{ℤ, pos}
use libstorage.Base.Split.{is_prefix}
use libstorage.Types.Errors.{Error, panicked}
use libstorage.Types.Models.{InstanceId}
use libstorage.Router.{VolumeCreateOpts}
use libstorage.Ebs.{Ebs, Ec2, Ec2Volume, CreateVolume, explain}
use libstorage.Ebs.Wait.{wait_volume_complete, wait_create}

abbrev tag_prefix : Text → Text
tag_prefix tag = tag ++ codes "/"

unfoldable pub get_printable_name : Text → Text → Text
unfolding is_prefix
get_printable_name tag name =
    if is_prefix (tag_prefix tag) name then drop (length (tag_prefix tag)) name else name

unfoldable pub get_full_name : Text → Text → Text
get_full_name [] name = name
get_full_name (c ∷ tag) name = tag_prefix (c ∷ tag) ++ name

abbrev pub must_instance_id : {S : Type 0} → Option InstanceId → Exec S Error InstanceId
must_instance_id none = raise panicked
must_instance_id (some iid) = pure iid

abbrev first_instance : {S : Type 0} → List (List Text) → Exec S Error Text
first_instance ((zone ∷ zones) ∷ reservations) = pure zone
first_instance reservations = raise panicked

-- The zone of the options is a pointer that is not tested for nil.
abbrev ensure_zone : {S : Type 0} → Option Text → Text → Exec S Error Text
ensure_zone none server = raise panicked
ensure_zone (some []) server = pure server
ensure_zone (some (c ∷ zone)) server = pure (c ∷ zone)

abbrev positive_only : Option ℤ → Option ℤ
positive_only (some (pos (suc n))) = some (pos (suc n))
positive_only n = none

abbrev server_key : Text → Option Text
server_key [] = none
server_key (c ∷ key) = some (c ∷ key)

-- The key of the client, or the one of the configuration.
abbrev client_key : Option Text → Text → Option Text
client_key (some (c ∷ key)) configured = some (c ∷ key)
client_key key configured = server_key configured

abbrev kms_key : Option Bool → Option Text → Text → Option Text
kms_key (some true) key configured = client_key key configured
kms_key encrypted key configured = none

module _ {S : Type 0} (d : Ebs) (ec2 : Ec2 S) where
  unfoldable pub get_instance : Exec S Error Text
  get_instance = do
    iid ← must_instance_id d.instance_id
    reservations ←
        explain (codes "error retrieving instance with EC2 API call")
          (ec2.describe_instances iid.id)
    first_instance reservations

  unfoldable pub create_tags : Text → Text → Exec S Error (Unit {0})
  unfolding get_full_name get_printable_name
  create_tags id name = explain (codes "error creating tags") (
      ec2.create_tags id ((codes "Name", get_full_name d.tag (get_printable_name d.tag name)) ∷ []))

  abbrev pub create_input : Text → VolumeCreateOpts → CreateVolume
  create_input zone opts = record {
    size = opts.size;
    availability_zone = some zone;
    encrypted = opts.encrypted;
    volume_type = opts.type;
    snapshot_id = none;
    iops = positive_only opts.iops;
    kms_key_id = kms_key opts.encrypted opts.encryption_key d.kms_key_id;
  }

  -- Without a snapshot, as the only caller has it.
  unfoldable pub create_volume : Text → VolumeCreateOpts → Exec S Error Ec2Volume
  create_volume volume_name opts = do
    server ← explain (codes "error creating volume with EC2 API call") get_instance
    zone ← ensure_zone opts.availability_zone server
    resp ← explain (codes "error creating volume") (ec2.create_volume (create_input zone opts))
    explain (codes "error creating tags") (create_tags resp.volume_id volume_name)
    explain (codes "error waiting for volume creation")
        (wait_volume_complete d ec2 resp.volume_id wait_create)
    pure resp

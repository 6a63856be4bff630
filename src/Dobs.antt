-- ===== src/Dobs.antt =====
-- The dobs storage driver of drivers/storage/dobs/storage/dobs_storage.go, over the DigitalOcean service as
-- a record of functions on a world of type `S`. The client that Init makes, InstanceInspect but for the
-- region, and logging are left out.
pub mod Volumes
pub mod Waits
mod Tests
use libstorage.Base.{
  ℕ, zero, suc, ◌+◌, ◌*◌, List, [], ◌∷◌, ◌++◌, Bool, true, false, Option, none, some, Text, codes,
  Result, ok, err, Exec, pure, raise, continue, ◌>>=◌, ◌>>◌, if◌then◌else◌, ◌==◌, text_eq,
}
use libstorage.Base.Dict.{get}
use libstorage.Base.Int.{ℤ, pos, format_int}
use libstorage.Types.Attachments.{requested, devices}
use libstorage.Types.Errors.{Error, goof, wrap, panicked}
use libstorage.Types.Models.{InstanceId, Volume, VolumeAttachment}

pub record DoVolume : Type 0 where
  pub id : Text
  pub region_slug : Text
  pub name : Text
  pub size_giga_bytes : ℤ
  pub droplet_ids : List ℤ

pub record Action : Type 0 where
  pub id : ℤ
  pub status : Text

pub record VolumeCreateRequest : Type 0 where
  pub region : Text
  pub name : Text
  pub size_giga_bytes : ℤ

-- `eval_symlinks` gives a path also where it fails; `sleep` takes the milliseconds.
pub record Godo (S : Type 0) : Type 0 where
  pub list_volumes : Exec S Error (List DoVolume)
  pub get_volume : Text → Exec S Error DoVolume
  pub create_volume : VolumeCreateRequest → Exec S Error DoVolume
  pub delete_volume : Text → Exec S Error (Unit {0})
  pub attach : Text → ℤ → Exec S Error Action
  pub detach : Text → Exec S Error Action
  pub get_action : Text → ℤ → Exec S Error Action
  pub eval_symlinks : Text → S → Text
  pub sleep : ℕ → S → S

-- The driver's name, and the instance ID of the context.
pub record Dobs : Type 0 where
  pub name : Text
  pub instance_id : Option InstanceId

abbrev pub volume_prefix : Text
volume_prefix = codes "scsi-0DO_Volume_"

abbrev pub action_completed : Text
action_completed = codes "completed"

-- goof.WithError
abbrev pub explained : {S A : Type 0} → Text → Result Error A × S → Result Error A × S
explained t (ok a, s) = (ok a, s)
explained t (err e, s) = (err (wrap t e), s)

abbrev pub explain : {S A : Type 0} → Text → Exec S Error A → Exec S Error A
explain t m s = explained t (m s)

-- context.MustInstanceID
abbrev pub must_instance_id : {S : Type 0} → Option InstanceId → Exec S Error InstanceId
must_instance_id none = raise panicked
must_instance_id (some iid) = pure iid

abbrev status_of : List VolumeAttachment → Text
status_of [] = codes "detached"
status_of (a ∷ as') = codes "attached"

module _ {S : Type 0} (d : Dobs) (godo : Godo S) where
  unfoldable pub device_name : Text → S → Text
  device_name name s = godo.eval_symlinks (codes "/dev/disk/by-id/" ++ (volume_prefix ++ name)) s

  -- The loop over the droplets of a volume.
  unfoldable pub to_attachments : DoVolume → Bool → List ℤ → S → List VolumeAttachment
  unfolding device_name format_int
  to_attachments v with_devices [] s = []
  to_attachments v with_devices (droplet ∷ droplets) s =
      record {
        device_name = if with_devices then device_name v.name s else [];
        mount_point = [];
        instance_id = some (record {
          id = format_int droplet;
          driver = d.name;
          service = [];
          fields = [];
          metadata = [];
        });
        status = [];
        volume_id = v.id;
        fields = [];
      }
      ∷ to_attachments v with_devices droplets s

  abbrev attachments_of : DoVolume → ℕ → S → List VolumeAttachment
  unfolding to_attachments requested devices
  attachments_of v mask s =
      if requested mask then to_attachments v (devices mask) v.droplet_ids s else []

  unfoldable pub to_types_volume : DoVolume → ℕ → S → Volume
  unfolding to_attachments requested devices
  to_types_volume v mask s = record {
    attachments = attachments_of v mask s;
    attachment_state = 0;
    availability_zone = v.region_slug;
    encrypted = false;
    iops = pos 0;
    name = v.name;
    network_name = [];
    size = v.size_giga_bytes;
    status = status_of (attachments_of v mask s);
    id = v.id;
    type = [];
    fields = [];
  }

  unfoldable pub to_types_volumes : List DoVolume → ℕ → S → List Volume
  unfolding to_types_volume
  to_types_volumes [] mask s = []
  to_types_volumes (v ∷ vs) mask s = to_types_volume v mask s ∷ to_types_volumes vs mask s

  -- waitForAction: at most ten looks at the action, each after a longer sleep. It gives no error where
  -- no look finds the action completed.
  abbrev pub or_again : Bool → S → (S → Result Error (Unit {0}) × S) → Result Error (Unit {0}) × S
  or_again true s again = (ok tt, s)
  or_again false s again = again s

  abbrev looked :
      Result Error Action × S → (S → Result Error (Unit {0}) × S) → Result Error (Unit {0}) × S
  looked (err e, s) again = (err e, s)
  looked (ok a, s) again = or_again (a.status == action_completed) s again

  unfoldable pub wait_looks : ℕ → ℕ → Text → ℤ → Exec S Error (Unit {0})
  wait_looks zero i volume_id action_id s = (ok tt, s)
  wait_looks (suc n) i volume_id action_id s =
      looked (godo.get_action volume_id action_id (godo.sleep (i * 15) s))
        (wait_looks n (suc i) volume_id action_id)

  unfoldable pub wait_for_action : Text → Action → Exec S Error (Unit {0})
  unfolding wait_looks
  wait_for_action volume_id action = wait_looks 10 0 volume_id action.id

  -- volumeDetach
  unfoldable pub detach_volume : Text → Exec S Error (Unit {0})
  unfolding wait_for_action
  detach_volume volume_id = do action ← godo.detach volume_id; wait_for_action volume_id action

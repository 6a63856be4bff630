-- ===== src/Linux.antt =====
-- The linux integration driver of drivers/integration/linux/linux.go and linux_utils.go, which mounts
-- volumes for a container runtime. Here is what its operations share: the client and the operating
-- system as an interface, the configuration, and the search for a volume. Logging is left out.
pub mod Volumes
pub mod Mounts
pub mod Local
pub mod Found
pub mod Inspected
pub mod Attached
pub mod Detached
pub mod Sample
mod Tests
use libstorage.Base.{
  ℕ, List, [], ◌∷◌, ◌++◌, Bool, true, false, ◌&&◌, not, Option, none, some, Text, codes, Result, ok,
  err, Exec, pure, raise, continue, ◌>>=◌, if◌then◌else◌, ◌==◌, text_eq, equal_fold,
}
use libstorage.Base.Int.{ℤ}
use libstorage.Base.Paths.{path_join}
use libstorage.Types.Models.{InstanceId, Volume, VolumeAttachment}
use libstorage.Types.Errors.{Error, goof, not_found, panicked}
use libstorage.Store.{KeyValueStore}
use libstorage.Router.{VolumeCreateOpts}

-- The configuration that the driver reads.
pub record Config : Type 0 where
  pub volume_root_path : Text
  pub mount_dir_path : Text
  pub volume_type : Text
  pub iops : ℤ
  pub size : ℤ
  pub availability_zone : Text
  pub fs_type : Text
  pub volume_create_implicit : Bool

-- The client and the operating system, acting on a world of type `S`. A nil store or volume is
-- `none`; `mounts` gives the mount points of a device. Options that the driver always fills in the
-- same way (an empty store, the settings of the device scan) are no arguments.
pub record Client (S : Type 0) : Type 0 where
  pub volumes : ℕ → Option KeyValueStore → Exec S Error (List Volume)
  pub service_name : Option Text
  pub volume_inspect : Text → ℕ → Exec S Error (Option Volume)
  pub volume_create : Text → VolumeCreateOpts → Exec S Error (Option Volume)
  pub volume_attach : Text → Bool → Exec S Error (Volume × Text)
  pub volume_detach : Text → Bool → Exec S Error (Option Volume)
  pub volume_remove : Text → Bool → KeyValueStore → Exec S Error (Unit {0})
  pub instance_inspect : Exec S Error InstanceId
  pub wait_for_device : Text → KeyValueStore → Exec S Error (Unit {0})
  pub mounts : Text → KeyValueStore → Exec S Error (List Text)
  pub unmount : Text → KeyValueStore → Exec S Error (Unit {0})
  pub format : Text → Text → Bool → Exec S Error (Unit {0})
  pub mkdir_all : Text → Exec S Error (Unit {0})
  pub mount : Text → Text → Exec S Error (Unit {0})

abbrev pub is_err_not_found : Error → Bool
is_err_not_found (not_found t) = true
is_err_not_found e = false

abbrev pub is_empty : Text → Bool
is_empty [] = true
is_empty (c ∷ s) = false

abbrev pub both_names : Text → Text → Text
both_names volume_id volume_name =
    codes "volumeID=" ++ (volume_id ++ (codes ",volumeName=" ++ volume_name))

abbrev explained : {S A : Type 0} → (Error → Error) → Result Error A → S → Result Error A × S
explained f (ok a) s = (ok a, s)
explained f (err e) s = (err (f e), s)

-- A call whose error is replaced.
abbrev pub explain : {S A : Type 0} → (Error → Error) → Exec S Error A → Exec S Error A
explain f m s = explained f (m s).0 (m s).1

abbrev find_at :
    Text
    → VolumeAttachment
    → Option InstanceId
    → Result Error (Option VolumeAttachment)
    → Result Error (Option VolumeAttachment)
find_at id a none rest = err panicked
find_at id a (some iid) rest = if iid.id == id then ok (some a) else rest

-- The loops of Mount and Unmount for the attachment of the instance. An attachment with no
-- instance ID before it makes them dereference nil.
unfoldable pub find_attachment :
    Text → List VolumeAttachment → Result Error (Option VolumeAttachment)
find_attachment id [] = ok none
find_attachment id (a ∷ as') = find_at id a a.instance_id (find_attachment id as')

abbrev pub first_by_name : Text → List Volume → Option Volume
first_by_name n [] = none
first_by_name n (v ∷ vs) = if equal_fold n v.name then some v else first_by_name n vs

module _ {S : Type 0} (c : Client S) where
  abbrev found_or_error : Text → Text → Option Volume → Exec S Error Volume
  found_or_error volume_id volume_name none = raise (not_found (both_names volume_id volume_name))
  found_or_error volume_id volume_name (some v) = pure v

  abbrev inspect_found : ℕ → Option Volume → Exec S Error (Option Volume)
  inspect_found attachments none = pure none
  inspect_found attachments (some v) = c.volume_inspect v.id attachments

  -- volumeInspectByIDOrName
  unfoldable pub volume_inspect_by_id_or_name : Text → Text → ℕ → Exec S Error Volume
  volume_inspect_by_id_or_name volume_id volume_name attachments =
      if not (is_empty volume_id) && not (is_empty volume_name)
      then raise (goof (codes "specify either volumeID or volumeName"))
      else if not (is_empty volume_id)
      then (do
        obj ← c.volume_inspect volume_id attachments
        found_or_error volume_id volume_name obj)
      else do
        objs ← c.volumes 0 none
        obj ← inspect_found attachments (first_by_name volume_name objs)
        found_or_error volume_id volume_name obj

module _ (d : Config) where
  unfoldable pub volume_mount_path : Text → Text
  unfolding path_join
  volume_mount_path target = path_join target d.volume_root_path

  unfoldable pub get_volume_mount_path : {S : Type 0} → Text → Exec S Error Text
  unfolding path_join
  get_volume_mount_path volume_name =
      if is_empty volume_name
      then raise (goof (codes "missing volume name"))
      else pure (path_join d.mount_dir_path volume_name)

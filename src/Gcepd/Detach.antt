-- ===== src/Gcepd/Detach.antt =====
-- How a disk is detached from its instances in drivers/storage/gcepd/storage/gce_storage.go.
use libstorage.Base.{
  List, [], ◌∷◌, ◌++◌, Option, none, some, Text, codes, Result, ok, err, Exec, pure, raise, ◌>>=◌,
  ◌>>◌, nat_eq, text_eq,
}
use libstorage.Types.Errors.{Error, panicked}
use libstorage.Gcepd.{
  Gcepd, Compute, Disk, AttachedDisk, Operation, explain, explained, get_index, get_instance,
  wait_until_operation_is_finished,
}
use libstorage.Gcepd.Requests.{must_find, source_device}

-- The instances that a disk is detached from: the operations to wait for, and the last error.
pub record Detaching : Type 0 where
  pub ops : List Operation
  pub async_err : Option Error

module _ {S : Type 0} (d : Gcepd) (gce : Compute S) where
  -- getAttachedDeviceName; an instance that is gone is dereferenced.
  abbrev device_on : Text → Option (List AttachedDisk) → Exec S Error Text
  device_on link none = raise panicked
  device_on link (some disks) =
      must_find (codes "Unable to find attached volume on instance") (source_device link disks)

  unfoldable pub get_attached_device_name : Text → Text → Text → Exec S Error Text
  unfolding get_instance
  get_attached_device_name zone instance' link = do
    disks ← get_instance d gce zone instance'
    device_on link disks

  abbrev noted : Detaching → Result Error Operation × S → Result Error Detaching × S
  noted t (ok op, s) = (ok (record t { ops = t.ops ++ op ∷ [] }), s)
  noted t (err e, s) = (ok (record t { async_err = some e }), s)

  abbrev detach_from : Text → Text → Text → Text → Detaching → Exec S Error Detaching
  detach_from zone instance' device link t = λ s.
      noted t (explained (codes "Error detaching disk") (gce.detach_disk zone instance' device s))

  unfoldable pub detach_users : Text → Text → List Text → Detaching → Exec S Error Detaching
  unfolding get_attached_device_name get_index
  detach_users zone link [] t = pure t
  detach_users zone link (user ∷ users) t = do
    device ←
        explain (codes "Unable to get device name from instance")
          (get_attached_device_name zone (get_index user) link)
    t' ← detach_from zone (get_index user) device link t
    detach_users zone link users t'

  unfoldable pub wait_all : Text → List Operation → Exec S Error (Unit {0})
  unfolding wait_until_operation_is_finished
  wait_all zone [] = pure tt
  wait_all zone (op ∷ ops) = do wait_until_operation_is_finished d gce zone op; wait_all zone ops

  abbrev or_error : Option Error → Exec S Error (Unit {0})
  or_error none = pure tt
  or_error (some e) = raise e

  -- detachVolume
  unfoldable pub detach_volume : Disk → Exec S Error (Unit {0})
  unfolding detach_users wait_all get_index
  detach_volume disk = do
    t ←
        detach_users (get_index disk.zone) disk.self_link disk.users
          (record { ops = []; async_err = none })
    wait_all (get_index disk.zone) t.ops
    or_error t.async_err

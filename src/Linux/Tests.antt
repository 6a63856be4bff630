-- ===== src/Linux/Tests.antt =====
-- Runs of the driver of drivers/integration/linux with a client that counts its calls.
use libstorage.Base.{
  ◌≡◌, refl, List, [], ◌∷◌, true, false, codes, ok, err, ◌⊎◌, All, In, text_beq, to_lower, text_eq,
  nat_eq, equal_fold,
}
use libstorage.Base.Paths.{path_join, clean}
use libstorage.Types.Attachments.{vol_att_req_true}
use libstorage.Types.Errors.{not_found}
use libstorage.Store.{new_store}
use libstorage.Store.Typed.{get_bool}
use libstorage.Linux.{both_names, volume_inspect_by_id_or_name}
use libstorage.Linux.Sample.{this_instance, here, data_volume, client, config, mount_opts}
use libstorage.Linux.Volumes.{VolumeMapping, volume_mappings, list, inspect}
use libstorage.Linux.Mounts.{mount, mount_mask, unmount}
use libstorage.Linux.Inspected.{has_name, inspect-list}
use libstorage.Linux.Attached.{HasAttachment, mount-HasAttachment}
use libstorage.Linux.Found.{Found, for_name}
use libstorage.Linux.Local.{IsLocal}
use libstorage.Linux.Detached.{Unmounting, next, all_gone, unmount_then_detach}

joined : path_join (codes "/var//lib/./x/..") (codes "data") ≡ codes "/var/lib/data"
unfolding path_join clean text_beq
joined = refl

joined_above : path_join (codes "/a") (codes "../../b") ≡ codes "/b"
unfolding path_join clean text_beq
joined_above = refl

abbrev mappings : List VolumeMapping
mappings = volume_mappings (codes "ebs") (data_volume ∷ [])

lists : list client new_store 0 4 ≡ (ok mappings, 5)
unfolding list
lists = refl

inspect-list_example :
    ((o : VolumeMapping) × (inspect client (codes "DATA") new_store 0 4 ≡ (ok o, 5))
      × In o mappings
      × (has_name (codes "DATA") o ≡ true))
    ⊎ ((inspect client (codes "DATA") new_store 0 4 ≡ (err (not_found (codes "DATA")), 5))
        × All (λ o. has_name (codes "DATA") o ≡ false) mappings)
inspect-list_example = inspect-list client (codes "DATA") new_store 0 mappings 4 5 lists

mount-HasAttachment_example : HasAttachment (mount client config [] (codes "data") mount_opts 0 4).0
mount-HasAttachment_example = mount-HasAttachment client config [] (codes "data") mount_opts 0 4

is_missing :
    volume_inspect_by_id_or_name client [] (codes "logs") (mount_mask client config false) 4
    ≡ (err (not_found (both_names [] (codes "logs"))), 5)
unfolding volume_inspect_by_id_or_name equal_fold text_beq to_lower
is_missing = refl

is_here : IsLocal (codes "i-1") (here ∷ []) here
is_here = record {
  before = [];
  rest = [];
  whole = refl;
  elsewhere = tt;
  own = (this_instance, refl, refl);
}

data_volume-Found_for_unmount : Found client vol_att_req_true 4 [] (codes "data") data_volume 6
unfolding equal_fold text_beq to_lower
data_volume-Found_for_unmount = for_name [] data_volume [] refl tt refl refl

one_mount_point : Unmounting client new_store 0 (codes "/mnt" ∷ []) 8 (ok tt, 9)
one_mount_point = next refl all_gone

unmount_then_detach_example :
    unmount client [] (codes "data") new_store 0 4
    ≡ client.volume_detach (codes "v-1") (get_bool (codes "force") 0 new_store) 9
unmount_then_detach_example =
    unmount_then_detach client new_store 0 [] (codes "data") data_volume this_instance here
      (codes "/mnt" ∷ []) 4 6 7 8 (ok tt, 9) refl data_volume-Found_for_unmount refl is_here refl
      refl one_mount_point

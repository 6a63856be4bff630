-- ===== src/Gcepd/Requests.antt =====
-- The requests of drivers/storage/gcepd/storage/gce_storage.go as they are looked at before they are made: the
-- zone, the name, the size and the type of a new disk, and what has to be there.
use libstorage.Base.{
  ℕ, List, [], ◌∷◌, ◌++◌, Bool, true, false, ◌||◌, ◌&&◌, Option, none, some, Text, codes, Result,
  ok, err, Exec, pure, raise, if◌then◌else◌, ◌==◌, nat_eq, text_eq, equal_fold, ltb, leb,
}
use libstorage.Base.Int.{ℤ, pos, negsuc}
use libstorage.Types.Errors.{Error, goof, panicked}
use libstorage.Types.Models.{InstanceId}
use libstorage.Gcepd.{AttachedDisk}

abbrev pub zone_required : Text → Error
zone_required op = goof (codes "Zone is required for " ++ op)

abbrev pub not_implemented : Error
not_implemented = goof (codes "not implemented")

abbrev pub min_disk_size_gb : ℕ
min_disk_size_gb = 10

abbrev pub is_lower : ℕ → Bool
is_lower c = leb b'a' c && leb c b'z'

abbrev pub is_name_end : ℕ → Bool
is_name_end c = is_lower c || (leb b'0' c && leb c b'9')

-- `(?:[-a-z0-9]*[a-z0-9])?$`
unfoldable pub matches_rest : Text → Bool
matches_rest [] = true
matches_rest (c ∷ []) = is_name_end c
matches_rest (c ∷ e ∷ s) = (is_name_end c || c == b'-') && matches_rest (e ∷ s)

unfoldable pub is_valid_disk_name : Text → Bool
unfolding matches_rest
is_valid_disk_name [] = false
is_valid_disk_name (c ∷ s) = is_lower c && matches_rest s

abbrev pub must_zone : {S : Type 0} → Text → Option Text → Exec S Error Text
must_zone op none = raise (zone_required op)
must_zone op (some []) = raise (zone_required op)
must_zone op (some (c ∷ zone)) = pure (c ∷ zone)

abbrev pub must_instance_id : {S : Type 0} → Option InstanceId → Exec S Error InstanceId
must_instance_id none = raise panicked
must_instance_id (some iid) = pure iid

abbrev pub first : {S A : Type 0} → List A → Exec S Error A
first [] = raise panicked
first (v ∷ vs) = pure v

abbrev pub must_find : {S A : Type 0} → Text → Option A → Exec S Error A
must_find t none = raise (goof t)
must_find t (some a) = pure a

-- The zone of a new volume: that of the client or the driver, and that of the request, if there are both, are one.
abbrev pub create_zone : Option Text → Option Text → Result Error Text
create_zone none none = err (zone_required (codes "VolumeCreate"))
create_zone none (some []) = err (zone_required (codes "VolumeCreate"))
create_zone none (some (c ∷ zone)) = ok (c ∷ zone)
create_zone (some []) none = err (zone_required (codes "VolumeCreate"))
create_zone (some []) (some []) = err (zone_required (codes "VolumeCreate"))
create_zone (some []) (some (c ∷ zone)) = ok (c ∷ zone)
create_zone (some (c ∷ own)) none = ok (c ∷ own)
create_zone (some (c ∷ own)) (some []) = ok (c ∷ own)
create_zone (some (c ∷ own)) (some (e ∷ zone)) =
    if (c ∷ own) == (e ∷ zone)
    then ok (c ∷ own)
    else err (goof (codes "Cannot create volume in given zone"))

abbrev pub big_enough : Option ℤ → Option ℤ
big_enough none = none
big_enough (some (negsuc n)) = none
big_enough (some (pos n)) = if ltb n min_disk_size_gb then none else some (pos n)

abbrev pub must_size : {S : Type 0} → Option ℤ → Exec S Error ℤ
must_size none = raise (goof (codes "Minimum disk size is 10 GB"))
must_size (some size) = pure size

abbrev pub disk_type : Text → Option Text → Text
unfolding equal_fold
disk_type default none = default
disk_type default (some []) = default
disk_type default (some (c ∷ t)) =
    if equal_fold (codes "pd-ssd") (c ∷ t)
    then codes "pd-ssd"
    else if equal_fold (codes "pd-standard") (c ∷ t)
    then codes "pd-standard"
    else default

abbrev pub disk_type_uri : Text → Text → Text
disk_type_uri zone type = codes "zones/" ++ (zone ++ (codes "/diskTypes/" ++ type))

abbrev pub source_of : Text → Text → Text
source_of zone name = codes "zones/" ++ (zone ++ (codes "/disks/" ++ name))

abbrev pub source_device : Text → List AttachedDisk → Option Text
source_device link [] = none
source_device link (a ∷ as') =
    let rest = source_device link as' in if a.source == link then some a.device_name else rest

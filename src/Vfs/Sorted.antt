-- ===== src/Vfs/Sorted.antt =====
-- The listing of drivers/storage/vfs/storage/vfs_storage.go.
use mathlib.Core.List.{Perm, map}
use mathlib.Core.List.Perm
use libstorage.Base.{◌≡◌, refl, List, [], ◌∷◌, false, Option, Text, ok}
use libstorage.Base.Dict.{Dict}
use libstorage.Base.Order.{sort_by, IsSorted, sort_by-IsSorted, sort_by-Perm}
use libstorage.Types.Attachments.{mine, bit_set}
use libstorage.Types.Models.{InstanceId, Volume}
use libstorage.Router.{VolumesOpts}
use libstorage.Vfs.{VfsState, read_all, contents, file_name}
use libstorage.Vfs.Volumes.{volumes, presented_all, presented, is_blank}

presented_all-zero :
    (iid : Option InstanceId) (vs : List Volume) (s : VfsState)
    → presented_all iid 0 vs s ≡ (ok vs, s)
unfolding presented_all presented mine bit_set
presented_all-zero iid [] s = refl
presented_all-zero iid (v ∷ vs) s = rw (presented_all-zero iid vs s) refl

contents-map : {A : Type 0} (m : Dict Text A) → contents m ≡ map (λ q. q.1) m
contents-map [] = refl
contents-map ((k, a) ∷ m) = rw (contents-map m) refl

contents-Perm : {A : Type 0} {l m : Dict Text A} → Perm l m → Perm (contents l) (contents m)
contents-Perm {A} {l} {m} p = rw (contents-map l, contents-map m) (Perm.map (λ q. q.1) p)

-- The listing of volumes for which no attachments are asked, with an instance ID that is not blank or
-- with none: it answers with the volumes of all files, each once, in the order of their IDs, and
-- changes no file.
pub volumes-IsSorted :
    (iid : Option InstanceId) (opts : VolumesOpts) (s : VfsState)
    → is_blank iid ≡ false
    → opts.attachments ≡ 0
    → (vs : List Volume) × (volumes iid opts s ≡ (ok vs, s))
      × IsSorted (λ v. v.id) vs
      × Perm vs (contents s.volumes)
unfolding volumes read_all
volumes-IsSorted iid opts s named plain = (
  sort_by (λ v. v.id) (read_all s.volumes),
  rw (named, plain, presented_all-zero iid (read_all s.volumes) s) refl,
  sort_by-IsSorted (λ v. v.id) (read_all s.volumes),
  Perm.trans (sort_by-Perm (λ v. v.id) (read_all s.volumes))
      (contents-Perm (sort_by-Perm file_name s.volumes)),
)

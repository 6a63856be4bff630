-- ===== src/Vfs.antt =====
-- The vfs storage driver of drivers/storage/vfs/storage: volumes and snapshots as JSON files, one in
-- each, in two directories without subdirectories. A directory is a dictionary from file names
-- (without .json), which are the IDs, to what the files hold; the files are those that the driver
-- writes. What encoding/json makes of a volume and back is the volume, but for an empty map of
-- fields, which is left out and comes back as nil. Sessions and logging are left out.
pub mod Volumes
pub mod Snapshots
pub mod Driver
pub mod Files
pub mod Restart
pub mod Attach
pub mod Sorted
pub mod Triples
pub mod Invariant
mod Tests
use libstorage.Base.{
  ℕ, zero, suc, ◌+◌, List, [], ◌∷◌, ◌++◌, Bool, true, false, ◌&&◌, Option, none, some, Text, codes,
  Result, ok, err, Exec, pure, raise, continue, ◌>>=◌, text_eq, length,
}
use libstorage.Base.Int.{ℤ, pos, negsuc, increment, padded}
use libstorage.Base.Dict.{Dict, get, put, delete}
use libstorage.Base.Order.{sort_by}
use libstorage.Types.Models.{InstanceId, Volume, Snapshot}
use libstorage.Types.Errors.{Error, not_found, panicked}
use libstorage.Store.{KeyValueStore, keys}
use libstorage.Store.Typed.{get_store, get_string}

-- The two directories, and the counters of the driver. They are int64 as `increment` has it.
pub record VfsState : Type 0 where
  pub volumes : Dict Text Volume
  pub snapshots : Dict Text Snapshot
  pub vol_count : ℤ
  pub snap_count : ℤ

-- What surrounds the driver: the error of os.Create for a file, if it has one; the time; and the
-- stores that the values of a store refer to.
pub record Environment : Type 0 where
  pub create_error : Text → Option Error
  pub now : ℕ
  pub stores : ℕ → KeyValueStore

abbrev pub less_one : ℕ → ℤ
less_one zero = negsuc 0
less_one (suc n) = pos n

-- Init, on the directories that it finds.
unfoldable pub init : Dict Text Volume → Dict Text Snapshot → VfsState
init volumes snapshots = record {
  volumes = volumes;
  snapshots = snapshots;
  vol_count = less_one (length volumes);
  snap_count = less_one (length snapshots);
}

abbrev pub Vfs : Type 0 → Type 0
Vfs A = Exec VfsState Error A

abbrev pub volume_id : ℤ → Text
volume_id n = codes "vfs-" ++ padded 3 n

abbrev pub snapshot_id : Text → ℤ → Text
snapshot_id id n = id ++ b'-' ∷ padded 3 n

unfoldable pub new_volume_id : Vfs Text
new_volume_id s = let n = increment s.vol_count in (ok (volume_id n), record s { vol_count = n })

unfoldable pub new_snapshot_id : Text → Vfs Text
new_snapshot_id id s =
    let n = increment s.snap_count in (ok (snapshot_id id n), record s { snap_count = n })

abbrev pub found : {A : Type 0} → Text → Option A → Vfs A
found id none = raise (not_found id)
found id (some a) = pure a

unfoldable pub get_volume_by_id : Text → Vfs Volume
get_volume_by_id id s = found id (get s.volumes id) s

unfoldable pub get_snapshot_by_id : Text → Vfs Snapshot
get_snapshot_by_id id s = found id (get s.snapshots id) s

-- The file names that filepath.Glob gives are sorted.
abbrev pub file_name : {A : Type 0} → Text × A → Text
file_name (id, a) = id ++ codes ".json"

abbrev pub contents : {A : Type 0} → Dict Text A → List A
contents [] = []
contents ((id, a) ∷ m) = a ∷ contents m

unfoldable pub read_all : {A : Type 0} → Dict Text A → List A
unfolding sort_by
read_all m = contents (sort_by file_name m)

module _ (e : Environment) where
  unfoldable pub written : Option Error → VfsState → VfsState → Result Error (Unit {0}) × VfsState
  written none s s' = (ok tt, s')
  written (some x) s s' = (err x, s)

  unfoldable pub write_volume : Volume → Vfs (Unit {0})
  unfolding written
  write_volume v s = written (e.create_error v.id) s (record s { volumes = put v.id v s.volumes })

  unfoldable pub write_snapshot : Snapshot → Vfs (Unit {0})
  unfolding written
  write_snapshot v s =
      written (e.create_error v.id) s (record s { snapshots = put v.id v s.snapshots })

  abbrev strings_of : List Text → KeyValueStore → List (Text × Text)
  strings_of [] st = []
  strings_of (k ∷ ks) st = (k, get_string k e.now st) ∷ strings_of ks st

  abbrev strings_at : Option ℕ → List (Text × Text)
  unfolding keys
  strings_at none = []
  strings_at (some a) = strings_of (keys (e.stores a)) (e.stores a)

  -- The custom fields of the options: those of the store under "opts", if there is one.
  unfoldable pub custom_fields : KeyValueStore → List (Text × Text)
  unfolding keys
  custom_fields opts = strings_at (get_store (codes "opts") e.now opts)

unfoldable pub put_fields : List (Text × Text) → Dict Text Text → Dict Text Text
put_fields [] fields = fields
put_fields ((k, v) ∷ kvs) fields = put_fields kvs (put k v fields)

-- The same for the fields of a volume or a snapshot that was read from a file: an assignment to a nil
-- map panics.
unfoldable pub put_read_fields : List (Text × Text) → Dict Text Text → Vfs (Dict Text Text)
unfolding put_fields
put_read_fields [] fields = pure fields
put_read_fields (kv ∷ kvs) [] = raise panicked
put_read_fields (kv ∷ kvs) (f ∷ fs) = pure (put_fields (kv ∷ kvs) (f ∷ fs))

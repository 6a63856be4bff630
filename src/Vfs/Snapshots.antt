-- ===== src/Vfs/Snapshots.antt =====
-- The snapshot operations of drivers/storage/vfs/storage/vfs_storage.go.
use libstorage.Base.{
  List, [], false, Option, none, some, Text, codes, ok, err, pure, ◌>>=◌, ◌>>◌, text_eq,
}
use libstorage.Base.Int.{ℤ, pos}
use libstorage.Base.Dict.{Dict, get, delete}
use libstorage.Types.Models.{Snapshot}
use libstorage.Types.Errors.{not_found}
use libstorage.Store.{KeyValueStore}
use libstorage.Vfs.{
  Environment, Vfs, new_snapshot_id, get_volume_by_id, get_snapshot_by_id, read_all, write_snapshot,
  custom_fields, put_read_fields,
}

unfoldable pub snapshots : KeyValueStore → Vfs (List Snapshot)
unfolding read_all
snapshots opts s = (ok (read_all s.snapshots), s)

abbrev pub snapshot_inspect : Text → KeyValueStore → Vfs Snapshot
snapshot_inspect id opts = get_snapshot_by_id id

abbrev snapshot_removed : Text → Option Snapshot → Vfs (Unit {0})
snapshot_removed id none s = (err (not_found id), s)
snapshot_removed id (some v) s = (ok tt, record s { snapshots = delete id s.snapshots })

unfoldable pub snapshot_remove : Text → KeyValueStore → Vfs (Unit {0})
snapshot_remove id opts s = snapshot_removed id (get s.snapshots id) s

module _ (e : Environment) where
  abbrev online : Text → Text → Text → ℤ → Dict Text Text → Snapshot
  online id name volume_id size fields = record {
    description = [];
    name = name;
    encrypted = false;
    id = id;
    start_time = pos e.now;
    status = codes "online";
    volume_id = volume_id;
    volume_size = size;
    fields = fields;
  }

  abbrev stored_snapshot : KeyValueStore → Snapshot → Vfs Snapshot
  unfolding custom_fields put_read_fields write_snapshot
  stored_snapshot opts snap = do
    fields ← put_read_fields (custom_fields e opts) snap.fields
    let snap' = record snap { fields = fields }
    write_snapshot e snap'
    pure snap'

  unfoldable pub volume_snapshot : Text → Text → KeyValueStore → Vfs Snapshot
  unfolding get_volume_by_id new_snapshot_id custom_fields put_read_fields write_snapshot
  volume_snapshot volume_id name opts = do
    v ← get_volume_by_id volume_id
    id ← new_snapshot_id v.id
    stored_snapshot opts (online id name v.id v.size v.fields)

  -- The destination is not looked at.
  unfoldable pub snapshot_copy : Text → Text → Text → KeyValueStore → Vfs Snapshot
  unfolding get_snapshot_by_id new_snapshot_id custom_fields put_read_fields write_snapshot
  snapshot_copy snapshot_id name destination_id opts = do
    og_snap ← get_snapshot_by_id snapshot_id
    id ← new_snapshot_id og_snap.volume_id
    stored_snapshot opts (online id name og_snap.volume_id og_snap.volume_size og_snap.fields)

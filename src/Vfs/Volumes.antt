-- ===== src/Vfs/Volumes.antt =====
-- The volume operations of drivers/storage/vfs/storage/vfs_storage.go. `iid` is the instance ID of the
-- context, if it has one.
use libstorage.Base.{
  ℕ, ◌^◌, List, [], ◌∷◌, ◌++◌, Bool, false, ◌&&◌, Option, none, some, Text, codes, ok, err, pure,
  raise, continue, ◌>>=◌, ◌>>◌, if◌then◌else◌, ltb, text_eq, ◌==◌,
}
use libstorage.Base.Int.{pos}
use libstorage.Base.Dict.{get, delete}
use libstorage.Base.Order.{sort_by}
use libstorage.Types.Attachments.{mine}
use libstorage.Types.Models.{InstanceId, Volume, VolumeAttachment}
use libstorage.Types.Errors.{goof, not_found, panicked}
use libstorage.Store.{KeyValueStore}
use libstorage.Router.{VolumesOpts, VolumeCreateOpts, VolumeAttachOpts, VolumeDetachOpts}
use libstorage.Vfs.{
  Environment, Vfs, new_volume_id, get_volume_by_id, get_snapshot_by_id, read_all, write_volume,
  custom_fields, put_fields, put_read_fields, volume_id,
}

abbrev pub blank_volume : Volume
blank_volume = record {
  attachments = [];
  attachment_state = 0;
  availability_zone = [];
  encrypted = false;
  iops = pos 0;
  name = [];
  network_name = [];
  size = pos 0;
  status = [];
  id = [];
  type = [];
  fields = [];
}

abbrev pub or_else : {A : Type 0} → Option A → A → A
or_else none a = a
or_else (some b) a = b

-- An int that is greater than 0, by its 64-bit pattern.
abbrev pub is_positive : ℕ → Bool
is_positive a = ltb 0 a && ltb a (2 ^ 63)

abbrev keep_own :
    Option InstanceId
    → VolumeAttachment
    → Option InstanceId
    → Vfs (List VolumeAttachment)
    → Vfs (List VolumeAttachment)
keep_own iid a none rest = rest
keep_own none a (some i) rest = raise panicked
keep_own (some iid) a (some i) rest = do as' ← rest; pure (if i.id == iid.id then a ∷ as' else as')

-- The loops over the attachments of a volume. With no instance ID they dereference nil at an
-- attachment that has one.
unfoldable pub own_attachments :
    Option InstanceId → List VolumeAttachment → Vfs (List VolumeAttachment)
own_attachments iid [] = pure []
own_attachments iid (a ∷ as') = keep_own iid a a.instance_id (own_attachments iid as')

abbrev cleared : ℕ → Volume → Volume
cleared attachments v = if is_positive attachments then record v { attachment_state = 0 } else v

-- What Volumes and VolumeInspect do with a volume.
unfoldable pub presented : Option InstanceId → ℕ → Volume → Vfs Volume
unfolding own_attachments
presented iid attachments v =
    if mine attachments
    then (do
      as' ← own_attachments iid v.attachments
      pure (record (cleared attachments v) { attachments = as' }))
    else pure (cleared attachments v)

unfoldable pub presented_all : Option InstanceId → ℕ → List Volume → Vfs (List Volume)
unfolding presented
presented_all iid attachments [] = pure []
presented_all iid attachments (v ∷ vs) = do
  v' ← presented iid attachments v
  vs' ← presented_all iid attachments vs
  pure (v' ∷ vs')

abbrev pub is_blank : Option InstanceId → Bool
is_blank none = false
is_blank (some iid) = iid.id == []

unfoldable pub volumes : Option InstanceId → VolumesOpts → Vfs (List Volume)
unfolding read_all presented_all sort_by
volumes iid opts s =
    if is_blank iid
    then (err (goof (codes "missing instance ID")), s)
    else continue (presented_all iid opts.attachments (read_all s.volumes) s).0
        (λ vs. pure (sort_by (λ v. v.id) vs)) s

unfoldable pub volume_inspect : Option InstanceId → Text → VolumesOpts → Vfs Volume
unfolding get_volume_by_id presented
volume_inspect iid id opts = do
  v ← get_volume_by_id id
  (if mine opts.attachments && is_blank iid
      then raise (goof (codes "missing instance ID"))
      else presented iid opts.attachments v)

-- A volume with the options in place of the values of `v`.
abbrev pub with_opts : VolumeCreateOpts → Volume → Volume
with_opts opts v = record v {
  availability_zone = or_else opts.availability_zone v.availability_zone;
  iops = or_else opts.iops v.iops;
  size = or_else opts.size v.size;
  type = or_else opts.type v.type;
}

-- A new volume that takes over some values of a volume read from a file.
abbrev copied : Text → Text → Volume → Volume
copied id name v = record blank_volume {
  id = id;
  name = name;
  fields = v.fields;
  availability_zone = v.availability_zone;
  iops = v.iops;
  size = v.size;
  type = v.type;
}

abbrev pub removed : Text → Option Volume → Vfs (Unit {0})
removed id none s = (err (not_found id), s)
removed id (some v) s = (ok tt, record s { volumes = delete id s.volumes })

-- The error of os.Remove is ignored.
unfoldable pub volume_remove : Text → VolumeDetachOpts → Vfs (Unit {0})
volume_remove id opts s = removed id (get s.volumes id) s

abbrev pub must_instance_id : Option InstanceId → Vfs InstanceId
must_instance_id none = raise panicked
must_instance_id (some iid) = pure iid

abbrev pub attachment_to : InstanceId → Text → Text → VolumeAttachment
attachment_to iid volume_id device = record {
  device_name = device;
  mount_point = [];
  instance_id = some iid;
  status = codes "attached";
  volume_id = volume_id;
  fields = [];
}

abbrev drop_at :
    Text
    → VolumeAttachment
    → Option InstanceId
    → List VolumeAttachment
    → Vfs (Option (List VolumeAttachment))
    → Vfs (Option (List VolumeAttachment))
drop_at id a none as' rest = raise panicked
drop_at id a (some i) as' rest =
    if i.id == id
    then pure (some as')
    else do o ← rest; pure (elim o [ none ↦ none | some bs ↦ some (a ∷ bs) ])

-- The attachments without the first one of the instance, if there is one. An attachment with no
-- instance ID before it makes the loop dereference nil.
unfoldable pub drop_attachment : Text → List VolumeAttachment → Vfs (Option (List VolumeAttachment))
drop_attachment id [] = pure none
drop_attachment id (a ∷ as') = drop_at id a a.instance_id as' (drop_attachment id as')

module _ (e : Environment) where
  abbrev pub stored : Volume → Vfs Volume
  stored v = do write_volume e v; pure v

  unfoldable pub volume_create : Text → VolumeCreateOpts → Vfs Volume
  unfolding new_volume_id custom_fields put_fields write_volume
  volume_create name opts = do
    id ← new_volume_id
    stored (record (with_opts opts blank_volume) {
      id = id;
      name = name;
      encrypted = or_else opts.encrypted false;
      fields = put_fields (custom_fields e opts.opts) [];
    })

  abbrev stored_with_fields : KeyValueStore → Volume → Vfs Volume
  unfolding custom_fields put_read_fields write_volume
  stored_with_fields opts v = do
    fields ← put_read_fields (custom_fields e opts) v.fields
    stored (record v { fields = fields })

  unfoldable pub volume_create_from_snapshot : Text → Text → VolumeCreateOpts → Vfs Volume
  unfolding get_snapshot_by_id get_volume_by_id new_volume_id custom_fields put_read_fields
      write_volume
  volume_create_from_snapshot snapshot_id name opts = do
    snap ← get_snapshot_by_id snapshot_id
    og_vol ← get_volume_by_id snap.volume_id
    id ← new_volume_id
    stored_with_fields opts.opts (with_opts opts (copied id name og_vol))

  unfoldable pub volume_copy : Text → Text → KeyValueStore → Vfs Volume
  unfolding get_volume_by_id new_volume_id custom_fields put_read_fields write_volume
  volume_copy volume_id name opts = do
    og_vol ← get_volume_by_id volume_id
    id ← new_volume_id
    stored_with_fields opts (copied id name og_vol)

  unfoldable pub volume_attach : Option InstanceId → Text → VolumeAttachOpts → Vfs (Volume × Text)
  unfolding get_volume_by_id write_volume
  volume_attach iid volume_id opts = do
    vol ← get_volume_by_id volume_id
    inst ← must_instance_id iid
    let next_device = or_else opts.next_device []
    let att = attachment_to inst vol.id next_device
    write_volume e (record vol { attachments = vol.attachments ++ att ∷ [] })
    pure (record vol { attachments = att ∷ [] }, next_device)

  abbrev pub write_detached : Volume → Option (List VolumeAttachment) → Vfs (Unit {0})
  write_detached vol none = pure tt
  write_detached vol (some as') = write_volume e (record vol { attachments = as' })

  unfoldable pub volume_detach : Option InstanceId → Text → VolumeDetachOpts → Vfs (Option Volume)
  unfolding get_volume_by_id drop_attachment write_volume
  volume_detach iid volume_id opts = do
    vol ← get_volume_by_id volume_id
    inst ← must_instance_id iid
    o ← drop_attachment inst.id vol.attachments
    write_detached vol o
    pure (some (record vol { attachments = [] }))

-- ===== src/Linux/Mounts.antt =====
-- Mount, Unmount and Path of drivers/integration/linux/linux.go.
use libstorage.Base.{
  ℕ, List, [], ◌∷◌, Bool, ◌&&◌, ◌||◌, not, Option, none, some, Text, codes, Result, ok, err, Exec,
  pure, raise, ◌>>=◌, ◌>>◌, if◌then◌else◌, ◌==◌, nat_eq,
}
use libstorage.Types.Attachments.{
  vol_att_req_true, vol_att_req_with_dev_map_for_instance,
  vol_att_req_attached_to_instance_or_unattached,
}
use libstorage.Types.Models.{Volume, VolumeAttachment, volume_attached, volume_available}
use libstorage.Types.Errors.{Error, goof, wrapped}
use libstorage.Store.{KeyValueStore, new_store}
use libstorage.Store.Typed.{get_bool}
use libstorage.Router.{VolumeCreateOpts}
use libstorage.Linux.{
  Client, Config, is_empty, is_err_not_found, explain, find_attachment,
  volume_inspect_by_id_or_name, volume_mount_path, get_volume_mount_path,
}
use libstorage.Linux.Volumes.{create}

pub record VolumeMountOpts : Type 0 where
  pub overwrite_fs : Bool
  pub new_fs_type : Text
  pub preempt : Bool
  pub opts : KeyValueStore

-- The options of an implicit creation.
abbrev implicit_opts : VolumeCreateOpts
implicit_opts = record {
  availability_zone = none;
  iops = none;
  size = none;
  type = none;
  encrypted = none;
  encryption_key = none;
  opts = new_store;
}

module _ {S : Type 0} (c : Client S) where
  -- A call whose error is ignored.
  abbrev ignore : Exec S Error (Unit {0}) → Exec S Error (Unit {0})
  ignore m s = (ok tt, (m s).1)

  abbrev local_attachment : Error → Error → Option VolumeAttachment → Exec S Error VolumeAttachment
  local_attachment no_attachment no_device none = raise no_attachment
  local_attachment no_attachment no_device (some a) =
      if is_empty a.device_name then raise no_device else pure a

  abbrev lift : {A : Type 0} → Result Error A → Exec S Error A
  lift r s = (r, s)

  -- The attachment of the volume to this instance.
  unfoldable pub attachment_of : Error → Error → Volume → Exec S Error VolumeAttachment
  unfolding find_attachment
  attachment_of no_attachment no_device vol = do
    inst ← explain (λ _. goof (codes "problem getting instance ID")) c.instance_inspect
    o ← lift (find_attachment inst.id vol.attachments)
    local_attachment no_attachment no_device o

  -- The loop of Unmount over the mount points.
  unfoldable pub unmount_each : List Text → KeyValueStore → Exec S Error (Unit {0})
  unmount_each [] opts = pure tt
  unmount_each (p ∷ ps) opts = do c.unmount p opts; unmount_each ps opts

  unfoldable pub unmount_device :
      Volume → KeyValueStore → ℕ → VolumeAttachment → Exec S Error (Option Volume)
  unfolding unmount_each
  unmount_device vol opts now ma = do
    ps ← c.mounts ma.device_name opts
    unmount_each ps opts
    c.volume_detach vol.id (get_bool (codes "force") now opts)

  unfoldable pub unmount_found :
      KeyValueStore → ℕ → Volume → List VolumeAttachment → Exec S Error (Option Volume)
  unfolding attachment_of unmount_each unmount_device
  unmount_found opts now vol [] = pure none
  unmount_found opts now vol (a ∷ as') = do
    ma ←
        attachment_of (goof (codes "no attachment found for instance"))
          (goof (codes "no device name found for attachment")) vol
    unmount_device vol opts now ma

  unfoldable pub unmount : Text → Text → KeyValueStore → ℕ → Exec S Error (Option Volume)
  unfolding attachment_of unmount_each volume_inspect_by_id_or_name unmount_found
  unmount volume_id volume_name opts now =
      if is_empty volume_name && is_empty volume_id
      then raise (goof (codes "missing volume name or ID"))
      else do
        vol ← volume_inspect_by_id_or_name c volume_id volume_name vol_att_req_true
        unmount_found opts now vol vol.attachments

module _ {S : Type 0} (c : Client S) (d : Config) where
  abbrev created : Option Volume → Exec S Error Volume
  created none = raise (goof (codes "no volume returned or created"))
  created (some v) = pure v

  abbrev create_implicitly : Text → ℕ → Exec S Error Volume
  unfolding create
  create_implicitly volume_name now = do
    o ←
        explain (wrapped (codes "problem creating volume implicitly"))
          (create d c volume_name implicit_opts now)
    created o

  abbrev found_or_created : Text → ℕ → Result Error Volume → Exec S Error Volume
  unfolding create
  found_or_created volume_name now (ok v) = pure v
  found_or_created volume_name now (err e) =
      if is_err_not_found e && d.volume_create_implicit
      then create_implicitly volume_name now
      else raise e

  abbrev pub mount_mask : Bool → ℕ
  mount_mask preempt =
      if preempt
      then vol_att_req_with_dev_map_for_instance
      else vol_att_req_attached_to_instance_or_unattached

  unfoldable pub volume_to_mount : Text → Text → VolumeMountOpts → ℕ → Exec S Error Volume
  unfolding create volume_inspect_by_id_or_name
  volume_to_mount volume_id volume_name opts now s =
      let r = volume_inspect_by_id_or_name c volume_id volume_name (mount_mask opts.preempt) s in
      found_or_created volume_name now r.0 r.1

  abbrev wait_if_token : Text → KeyValueStore → Exec S Error (Unit {0})
  wait_if_token token opts =
      if is_empty token
      then pure tt
      else explain (wrapped (codes "problem with device discovery")) (c.wait_for_device token opts)

  -- The block of Mount that attaches the volume and looks at it anew.
  unfoldable pub attach_volume : VolumeMountOpts → Volume → Exec S Error Volume
  unfolding get_volume_mount_path volume_inspect_by_id_or_name
  attach_volume opts vol = do
    mp ← get_volume_mount_path d vol.name
    ignore c (c.unmount mp opts.opts)
    (vol', token) ← c.volume_attach vol.id opts.preempt
    wait_if_token token opts.opts
    volume_inspect_by_id_or_name c vol'.id [] vol_att_req_true

  unfoldable pub needs_attach : VolumeMountOpts → Volume → Bool
  needs_attach opts vol =
      vol.attachment_state == volume_available
      || (opts.preempt && not (vol.attachment_state == volume_attached))

  unfoldable pub ensure_attached : VolumeMountOpts → Volume → Exec S Error Volume
  unfolding needs_attach attach_volume
  ensure_attached opts vol = if needs_attach opts vol then attach_volume opts vol else pure vol

  -- The end of Mount for a device with no mount point. That the default file system type is
  -- written back to the caller's options is left out.
  unfoldable pub mount_device : VolumeMountOpts → Volume → Text → Exec S Error (Text × Volume)
  unfolding get_volume_mount_path volume_mount_path
  mount_device opts vol device = do
    c.format device (if is_empty opts.new_fs_type then d.fs_type else opts.new_fs_type)
        opts.overwrite_fs
    mount_path ← get_volume_mount_path d vol.name
    c.mkdir_all mount_path
    c.mount device mount_path
    pure (volume_mount_path d mount_path, vol)

  unfoldable pub mount_unless_mounted :
      VolumeMountOpts → Volume → Text → List Text → Exec S Error (Text × Volume)
  unfolding get_volume_mount_path volume_mount_path mount_device
  mount_unless_mounted opts vol device [] = mount_device opts vol device
  mount_unless_mounted opts vol device (p ∷ ps) = pure (volume_mount_path d p, vol)

  unfoldable pub mount_attached :
      VolumeMountOpts → Volume → List VolumeAttachment → Exec S Error (Text × Volume)
  unfolding attachment_of get_volume_mount_path volume_mount_path mount_unless_mounted
  mount_attached opts vol [] = raise (goof (codes "volume did not attach"))
  mount_attached opts vol (a ∷ as') = do
    ma ←
        attachment_of c (goof (codes "no local attachment found"))
          (goof (codes "no device name returned")) vol
    ps ← c.mounts ma.device_name opts.opts
    mount_unless_mounted opts vol ma.device_name ps

  unfoldable pub mount : Text → Text → VolumeMountOpts → ℕ → Exec S Error (Text × Volume)
  unfolding volume_to_mount ensure_attached mount_attached
  mount volume_id volume_name opts now = do
    vol ← volume_to_mount volume_id volume_name opts now
    vol' ← ensure_attached opts vol
    mount_attached opts vol' vol'.attachments

  abbrev first_path : List Text → Text
  unfolding volume_mount_path
  first_path [] = []
  first_path (p ∷ ps) = volume_mount_path d p

  abbrev path_of : KeyValueStore → List VolumeAttachment → Exec S Error Text
  unfolding volume_mount_path
  path_of opts [] = pure []
  path_of opts (a ∷ as') = do ps ← c.mounts a.device_name opts; pure (first_path ps)

  unfoldable pub path : Text → Text → KeyValueStore → Exec S Error Text
  unfolding volume_mount_path volume_inspect_by_id_or_name
  path volume_id volume_name opts = do
    vol ← volume_inspect_by_id_or_name c volume_id volume_name vol_att_req_true
    path_of opts vol.attachments

-- ===== src/Linux/Attached.antt =====
-- Mount of drivers/integration/linux/linux.go.
use libstorage.Base.{
  ℕ, ◌≡◌, ◌≢◌, refl, List, [], ◌∷◌, false, ◌&&◌, Text, Result, ok, err, continue-keeps, codes,
  if◌then◌else◌, nat_eq,
}
use libstorage.Types.Models.{Volume, VolumeAttachment}
use libstorage.Types.Errors.{Error, goof}
use libstorage.Linux.{
  Client, Config, is_empty, is_err_not_found, volume_inspect_by_id_or_name, get_volume_mount_path,
}
use libstorage.Linux.Found.{Found}
use libstorage.Linux.Mounts.{
  VolumeMountOpts, mount, mount_mask, mount_attached, mount_unless_mounted, mount_device,
  attachment_of, ensure_attached, volume_to_mount,
}

-- A mounted volume has an attachment.
abbrev pub HasAttachment : Result Error (Text × Volume) → Type 0
HasAttachment (ok (p, v)) = v.attachments ≢ []
HasAttachment (err e) = Unit

module _ {S : Type 0} (c : Client S) (d : Config) (volume_id volume_name : Text)
    (opts : VolumeMountOpts) (now : ℕ) (s : S) where
  unless_mounted-keeps :
      (vol : Volume) (device : Text) (ps : List Text) (s' : S)
      → vol.attachments ≢ []
      → HasAttachment (mount_unless_mounted c d opts vol device ps s').0
  unfolding mount_unless_mounted mount_device
  unless_mounted-keeps vol device (p ∷ ps) s' h = h
  unless_mounted-keeps vol device [] s' h =
      continue-keeps HasAttachment (λ e. tt)
        (c.format device (if is_empty opts.new_fs_type then d.fs_type else opts.new_fs_type)
          opts.overwrite_fs s')
        _
        (λ _ s1.
          continue-keeps HasAttachment (λ e. tt) (get_volume_mount_path d vol.name s1) _
            (λ mp s2.
              continue-keeps HasAttachment (λ e. tt) (c.mkdir_all mp s2) _
                (λ _ s3.
                  continue-keeps HasAttachment (λ e. tt) (c.mount device mp s3) _ (λ _ s4. h))))

  attached-keeps :
      (vol : Volume) (as' : List VolumeAttachment) (s' : S)
      → vol.attachments ≡ as'
      → HasAttachment (mount_attached c d opts vol as' s').0
  unfolding mount_attached
  attached-keeps vol [] s' e = tt
  attached-keeps vol (a ∷ as') s' e =
      continue-keeps HasAttachment (λ e. tt)
        (attachment_of c (goof (codes "no local attachment found"))
          (goof (codes "no device name returned")) vol s')
        _
        (λ ma s1.
          continue-keeps HasAttachment (λ e. tt) (c.mounts ma.device_name opts.opts s1) _
            (λ ps s2. unless_mounted-keeps vol ma.device_name ps s2 (λ h. cc)))

  -- Whatever the client and the operating system do: a volume that Mount returns has an attachment.
  pub mount-HasAttachment : HasAttachment (mount c d volume_id volume_name opts now s).0
  unfolding mount
  mount-HasAttachment =
      continue-keeps HasAttachment (λ e. tt) (volume_to_mount c d volume_id volume_name opts now s)
        _
        (λ vol s1.
          continue-keeps HasAttachment (λ e. tt) (ensure_attached c d opts vol s1) _
            (λ vol' s2. attached-keeps vol' vol'.attachments s2 refl))

  -- Where the search for the volume fails, and the error is not that there is none or volumes are not
  -- created implicitly, Mount fails with that error, and nothing is created, attached or mounted.
  pub mount_not_found :
      (e : Error) (s1 : S)
      → volume_inspect_by_id_or_name c volume_id volume_name (mount_mask c d opts.preempt) s
        ≡ (err e, s1)
      → is_err_not_found e && d.volume_create_implicit ≡ false
      → mount c d volume_id volume_name opts now s ≡ (err e, s1)
  unfolding mount volume_to_mount
  mount_not_found e s1 failed explicit = rw (failed, explicit) refl

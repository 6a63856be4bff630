-- ===== src/Os/Lost.antt =====
-- The options of a mount by drivers/os/linux/linux.go.
use libstorage.Base.{ℕ, ◌≡◌, refl, false, none, some, Text, codes, ok, text_eq, text_beq}
use libstorage.Os.{DeviceMountOpts, Kernel}
use libstorage.Os.Driver.{probe_fs_type, mount, is_nfs_device}

module _ {S : Type 0} (k : Kernel S) (file_mode : ℕ) (root_path : Text) where
  -- A device with an xfs file system that is no NFS device is mounted in the same way whatever the
  -- mount options are, where no executor takes the mount over.
  pub xfs_options_lost :
      (device mount_point options options' : Text) (opts : DeviceMountOpts) (s s1 : S)
      → is_nfs_device k device ≡ false
      → probe_fs_type k device s ≡ (ok (some (codes "xfs")), s1)
      → mount k file_mode root_path none device mount_point
          (record opts { mount_options = options })
          s
        ≡ mount k file_mode root_path none device mount_point
            (record opts { mount_options = options' })
            s
  unfolding mount text_beq
  xfs_options_lost device mount_point options options' opts s s1 local probed =
      rw (local, probed) refl

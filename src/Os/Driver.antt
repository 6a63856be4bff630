-- ===== src/Os/Driver.antt =====
-- The operations of drivers/os/linux/linux.go. `executor` is that of the client of the context, if the
-- context has a client with an executor and a service name.
use libstorage.Base.{
  ℕ, List, [], ◌∷◌, ◌++◌, Bool, true, false, ◌||◌, ◌&&◌, not, Option, none, some, Text, codes,
  Result, ok, err, Exec, pure, raise, ◌>>=◌, ◌>>◌, if◌then◌else◌, ◌==◌, text_eq, nat_eq, drop,
  length,
}
use libstorage.Base.Split.{is_prefix, index_of}
use libstorage.Types.Errors.{Error, goof, wrapped, wrap}
use libstorage.Store.{KeyValueStore}
use libstorage.Os.{
  MountInfo, DeviceMountOpts, DeviceFormatOpts, Kernel, Executor, supports_mount, supports_umount,
  supports_mounts,
}
use libstorage.Os.Table.{parse_mount_table, has_mount_point}
use libstorage.Os.Syscalls.{mount as mount_device, unmount as unmount_target}

abbrev pub unknown_file_system : Error
unknown_file_system = goof (codes "unknown file system")

abbrev pub unsupported_file_system : Error
unsupported_file_system = goof (codes "unsupported file system")

pub record ProbeData : Type 0 where
  pub fs_name : Text
  pub magic : Text
  pub offset : ℕ

abbrev pub probes : List ProbeData
probes =
    record { fs_name = codes "btrfs"; magic = codes "_BHRfS_M"; offset = 65600 }
    ∷ record { fs_name = codes "ext4"; magic = 83 ∷ 239 ∷ []; offset = 1080 }
    ∷ record { fs_name = codes "xfs"; magic = codes "XFSB"; offset = 0 }
    ∷ []

-- The end of the last magic number, that of btrfs.
abbrev pub max_len : ℕ
max_len = 65608

-- `none` is errUnknownFileSystem, which Format tells from all other errors.
unfoldable pub first_probe : List ProbeData → Text → Option Text
unfolding is_prefix
first_probe [] buffer = none
first_probe (p ∷ ps) buffer =
    let rest = first_probe ps buffer in
    if is_prefix p.magic (drop p.offset buffer) then some p.fs_name else rest

abbrev explained : {S A : Type 0} → (Error → Error) → Result Error A × S → Result Error A × S
explained f (ok a, s) = (ok a, s)
explained f (err e, s) = (err (f e), s)

abbrev command_result :
    {S : Type 0} → (Text → Error → Error) → (Text × Option Error) × S → Result Error (Unit {0}) × S
command_result f ((output, none), s) = (ok tt, s)
command_result f ((output, some e), s) = (err (f output e), s)

abbrev pub is_there : Option ℕ → Bool
is_there none = false
is_there (some i) = true

abbrev pub has_name : Option Text → Bool
has_name none = false
has_name (some fs_type) = not (fs_type == [])

module _ {S : Type 0} (k : Kernel S) where
  abbrev pub probe_buffer : Text → Exec S Error (Option Text)
  probe_buffer buffer =
      if length buffer == max_len
      then pure (first_probe probes buffer)
      else raise (goof (codes "error detecting filesystem"))

  unfoldable pub probe_fs_type : Text → Exec S Error (Option Text)
  unfolding first_probe
  probe_fs_type device = do buffer ← k.read device max_len; probe_buffer buffer

  abbrev pub mkfs : List Text → Exec S Error (Unit {0})
  mkfs command s =
      command_result (λ output e. wrapped (codes "error creating filesystem") e) (k.run command s)

  abbrev pub make_file_system : Text → Text → Exec S Error (Unit {0})
  make_file_system device new_fs_type =
      if new_fs_type == codes "ext4"
      then mkfs (codes "mkfs.ext4" ∷ codes "-F" ∷ device ∷ [])
      else if new_fs_type == codes "xfs"
      then mkfs (codes "mkfs.xfs" ∷ codes "-f" ∷ device ∷ [])
      else raise unsupported_file_system

  unfoldable pub format : Text → DeviceFormatOpts → Exec S Error (Unit {0})
  format device opts = do
    fs_type ← probe_fs_type device
    (if opts.overwrite_fs || not (has_name fs_type)
        then make_file_system device opts.new_fs_type
        else pure tt)

  unfoldable pub is_nfs_device : Text → Bool
  unfolding index_of
  is_nfs_device device = is_there (index_of (codes ":") device)

  abbrev nfs_mount : Text → Text → Exec S Error (Unit {0})
  nfs_mount device target s =
      command_result (λ output e. wrapped (codes "failed mounting: " ++ output) e)
        (k.run (codes "mount" ∷ device ∷ target ∷ []) s)

  -- The file mode and the root path are those of the configuration, and the executor that of the context.
  module _ (file_mode : ℕ) (root_path : Text) (executor : Option (Executor S)) where
    abbrev asked :
        {A : Type 0}
        → KeyValueStore
        → (ℕ → Bool)
        → Option (Executor S)
        → (Executor S → Exec S Error A)
        → Exec S Error A
        → Exec S Error A
    asked opts can none call otherwise = otherwise
    asked opts can (some x) call otherwise = do
      lsx_so ← x.supported opts
      (if can lsx_so then call x else otherwise)

    unfoldable pub get_mounts : KeyValueStore → Exec S Error (List MountInfo)
    unfolding parse_mount_table
    get_mounts opts = asked opts supports_mounts executor (λ x. x.mounts opts) (parse_mount_table k)

    abbrev matching : Text → Text → List MountInfo → List MountInfo
    matching device mount_point [] = []
    matching device mount_point (m ∷ ms) =
        let rest = matching device mount_point ms in
        if (m.mount_point == mount_point) || (m.source == device) then m ∷ rest else rest

    unfoldable pub mounts : Text → Text → KeyValueStore → Exec S Error (List MountInfo)
    unfolding get_mounts
    mounts device mount_point opts = do
      ms ← get_mounts opts
      (if (mount_point == []) && (device == [])
          then pure ms
          else if not (mount_point == []) && not (device == [])
          then raise (goof (codes "cannot specify mountPoint and deviceName"))
          else pure (matching device mount_point ms))

    unfoldable pub is_mounted : Text → KeyValueStore → Exec S Error Bool
    unfolding get_mounts
    is_mounted mount_point opts = do ms ← get_mounts opts; pure (has_mount_point k mount_point ms)

    abbrev known_type : Option Text → Exec S Error Text
    known_type none = raise unknown_file_system
    known_type (some fs_type) = pure fs_type

    abbrev make_path : Text → Exec S Error (Unit {0})
    make_path mount_point s =
        let mp = mount_point ++ root_path in
        (ok tt, k.chmod mp file_mode (k.mkdir_all mp file_mode s))

    abbrev mount_options : Text → DeviceMountOpts → Text
    mount_options fs_type opts =
        if fs_type == codes "xfs"
        then opts.mount_label ++ codes ",nouuid"
        else opts.mount_options ++ b',' ∷ opts.mount_label

    abbrev mount_locally : Text → Text → DeviceMountOpts → Exec S Error (Unit {0})
    unfolding probe_fs_type mount_device is_nfs_device
    mount_locally device mount_point opts =
        if is_nfs_device device
        then (do nfs_mount device mount_point; make_path mount_point)
        else (do
          probed ← probe_fs_type device
          fs_type ← known_type probed
          (λ s.
              explained (wrap (codes "error mounting directory"))
                (mount_device k device mount_point fs_type (mount_options fs_type opts) s))
          make_path mount_point)

    unfoldable pub mount : Text → Text → DeviceMountOpts → Exec S Error (Unit {0})
    unfolding probe_fs_type mount_device is_nfs_device
    mount device mount_point opts =
        asked opts.opts supports_mount executor
          (λ x. do x.mount device mount_point opts; make_path mount_point)
          (mount_locally device mount_point opts)

    unfoldable pub unmount : Text → KeyValueStore → Exec S Error (Unit {0})
    unfolding unmount_target
    unmount mount_point opts =
        asked opts supports_umount executor (λ x. x.unmount mount_point opts)
          (unmount_target k mount_point)

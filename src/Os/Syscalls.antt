-- ===== src/Os/Syscalls.antt =====
-- Mounting and unmounting by drivers/os/linux/linux_mount.go.
use libstorage.Base.{
  ℕ, zero, suc, ◌∷◌, [], ◌&&◌, Text, Result, ok, err, Exec, pure, ◌>>=◌, ◌>>◌, if◌then◌else◌,
}
use libstorage.Types.Errors.{Error}
use libstorage.Os.{Kernel, Flags, set_bits}
use libstorage.Os.Options.{parse_options, ms_remount, ms_bind, ms_rdonly}
use libstorage.Os.Table.{mounted}

abbrev until_ok :
    {S : Type 0}
    → Result Error (Unit {0}) × S
    → (Error → S → Result Error (Unit {0}) × S)
    → Result Error (Unit {0}) × S
until_ok (ok u, s) again = (ok tt, s)
until_ok (err e, s) again = again e s

module _ {S : Type 0} (k : Kernel S) where
  unfoldable pub sys_mount : Text → Text → Text → Flags → Text → Exec S Error (Unit {0})
  sys_mount device target type flag text = do
    k.mount device target type flag text
    (if flag ms_bind && flag ms_rdonly
        then k.mount device target type (set_bits (ms_remount ∷ []) flag) text
        else pure tt)

  unfoldable pub force_mount : Text → Text → Text → Text → Exec S Error (Unit {0})
  unfolding parse_options sys_mount
  force_mount device target type options =
      let parsed = parse_options options in sys_mount device target type parsed.0 parsed.1

  unfoldable pub mount : Text → Text → Text → Text → Exec S Error (Unit {0})
  unfolding parse_options mounted force_mount
  mount device target type options =
      if (parse_options options).0 ms_remount then force_mount device target type options else (do
        is_mounted ← mounted k target
        (if is_mounted then pure tt else force_mount device target type options))

  -- The loop of forceUnmount: the tries that are left, and the error of the last one.
  unfoldable pub retry_unmount :
      Text → ℕ → Result Error (Unit {0}) → S → Result Error (Unit {0}) × S
  retry_unmount target zero last s = (last, s)
  retry_unmount target (suc n) last s =
      until_ok (k.unmount target s) (λ e s'. retry_unmount target n (err e) (k.sleep s'))

  unfoldable pub force_unmount : Text → Exec S Error (Unit {0})
  unfolding retry_unmount
  force_unmount target = retry_unmount target 10 (ok tt)

  unfoldable pub unmount : Text → Exec S Error (Unit {0})
  unfolding mounted force_unmount
  unmount target = do
    is_mounted ← mounted k target
    (if is_mounted then force_unmount target else pure tt)

-- ===== src/Os.antt =====
-- The linux driver of the operating system, of drivers/os/linux: mount options, the mount table, and
-- the mounting, unmounting and formatting of devices. Here is what its operations share: the kernel and
-- the commands as an interface that acts on a world of type `S`, and an executor that may stand in
-- for them. Logging is left out.
pub mod Options
pub mod Table
pub mod Syscalls
pub mod Driver
pub mod Retries
pub mod LastWord
pub mod Lost
pub mod Formatted
mod Tests
use libstorage.Base.{
  ℕ, List, [], ◌∷◌, Bool, false, ◌==◌, nat_eq, Option, Text, Result, Exec, ◌||◌, ◌&&◌, not, nat_beq,
  bit_and,
}
use libstorage.Types.Errors.{Error}
use libstorage.Store.{KeyValueStore}

-- The flags of a mount, by the numbers of their bits.
abbrev pub Flags : Type 0
Flags = ℕ → Bool

abbrev pub is_bit : ℕ → List ℕ → Bool
is_bit b [] = false
is_bit b (c ∷ cs) = nat_beq c b || is_bit b cs

abbrev pub set_bits : List ℕ → Flags → Flags
set_bits bits flag b = is_bit b bits || flag b

abbrev pub clear_bits : List ℕ → Flags → Flags
clear_bits bits flag b = not (is_bit b bits) && flag b

-- MountInfo without `Fields`, which nothing here fills.
pub record MountInfo : Type 0 where
  pub id : ℕ
  pub parent : ℕ
  pub major : ℕ
  pub minor : ℕ
  pub root : Text
  pub mount_point : Text
  pub opts : Text
  pub optional : Text
  pub fs_type : Text
  pub source : Text
  pub vfs_opts : Text

pub record DeviceMountOpts : Type 0 where
  pub mount_options : Text
  pub mount_label : Text
  pub opts : KeyValueStore

pub record DeviceFormatOpts : Type 0 where
  pub new_fs_type : Text
  pub overwrite_fs : Bool
  pub opts : KeyValueStore

-- `mountinfo` reads the lines of /proc/self/mountinfo; `scanned` is what fmt.Sscanf reads from one of
-- them: a mount without the fields behind the separator, and the text of the optional fields. `read`
-- opens a device and reads at most as many bytes as it is told. `run` gives the output of a command,
-- and its error if it has one. The errors of `mkdir_all` and `chmod` are ignored.
pub record Kernel (S : Type 0) : Type 0 where
  pub mountinfo : Exec S Error (List Text)
  pub scanned : Text → Result Error (MountInfo × Text)
  pub mount : Text → Text → Text → Flags → Text → Exec S Error (Unit {0})
  pub unmount : Text → Exec S Error (Unit {0})
  pub sleep : S → S
  pub read : Text → ℕ → Exec S Error Text
  pub run : List Text → S → (Text × Option Error) × S
  pub mkdir_all : Text → ℕ → S → S
  pub chmod : Text → ℕ → S → S

-- The executor of the client of a context; `supported` gives a LSXSupportedOp.
pub record Executor (S : Type 0) : Type 0 where
  pub supported : KeyValueStore → Exec S Error ℕ
  pub mounts : KeyValueStore → Exec S Error (List MountInfo)
  pub mount : Text → Text → DeviceMountOpts → Exec S Error (Unit {0})
  pub unmount : Text → KeyValueStore → Exec S Error (Unit {0})

abbrev supports : ℕ → ℕ → Bool
supports v b = bit_and v b == b

abbrev pub supports_mount : ℕ → Bool
supports_mount v = supports v 16

abbrev pub supports_umount : ℕ → Bool
supports_umount v = supports v 32

abbrev pub supports_mounts : ℕ → Bool
supports_mounts v = supports v 64

-- ===== src/Os/Options.antt =====
-- parseOptions of drivers/os/linux/linux_mount.go: mount options in the form of fstab. The numbers of the bits are those of the Linux kernel.
use libstorage.Base.{
  ℕ, String, List, [], ◌∷◌, ◌++◌, Bool, true, false, Option, none, some, Text, codes, text_eq,
  if◌then◌else◌,
}
use libstorage.Base.Dict.{Dict, get}
use libstorage.Base.Split.{split, join}
use libstorage.Os.{Flags, set_bits, clear_bits}

abbrev pub ms_rdonly : ℕ
ms_rdonly = 0

abbrev pub ms_remount : ℕ
ms_remount = 5

abbrev pub ms_bind : ℕ
ms_bind = 12

abbrev ms_rec : ℕ
ms_rec = 14

-- An entry of the table: whether the option clears, and the bits of its flag.
pub record FlagOption : Type 0 where
  pub clear : Bool
  pub bits : List ℕ

abbrev sets : String → List ℕ → Text × FlagOption
sets name bits = (codes name, record { clear = false; bits = bits })

abbrev clears : String → ℕ → Text × FlagOption
clears name bit = (codes name, record { clear = true; bits = bit ∷ [] })

abbrev pub flags : Dict Text FlagOption
flags =
    sets "defaults" []
    ∷ sets "ro" (ms_rdonly ∷ [])
    ∷ clears "rw" ms_rdonly
    ∷ clears "suid" 1
    ∷ sets "nosuid" (1 ∷ [])
    ∷ clears "dev" 2
    ∷ sets "nodev" (2 ∷ [])
    ∷ clears "exec" 3
    ∷ sets "noexec" (3 ∷ [])
    ∷ sets "sync" (4 ∷ [])
    ∷ clears "async" 4
    ∷ sets "dirsync" (7 ∷ [])
    ∷ sets "remount" (ms_remount ∷ [])
    ∷ sets "mand" (6 ∷ [])
    ∷ clears "nomand" 6
    ∷ clears "atime" 10
    ∷ sets "noatime" (10 ∷ [])
    ∷ clears "diratime" 11
    ∷ sets "nodiratime" (11 ∷ [])
    ∷ sets "bind" (ms_bind ∷ [])
    ∷ sets "rbind" (ms_bind ∷ ms_rec ∷ [])
    ∷ sets "unbindable" (17 ∷ [])
    ∷ sets "runbindable" (17 ∷ ms_rec ∷ [])
    ∷ sets "private" (18 ∷ [])
    ∷ sets "rprivate" (18 ∷ ms_rec ∷ [])
    ∷ sets "shared" (20 ∷ [])
    ∷ sets "rshared" (20 ∷ ms_rec ∷ [])
    ∷ sets "slave" (19 ∷ [])
    ∷ sets "rslave" (19 ∷ ms_rec ∷ [])
    ∷ sets "relatime" (21 ∷ [])
    ∷ clears "norelatime" 21
    ∷ sets "strictatime" (24 ∷ [])
    ∷ clears "nostrictatime" 24
    ∷ []

abbrev take_flag : Text → FlagOption → List ℕ → Flags × List Text → Flags × List Text
take_flag o f [] (flag, texts) = (flag, texts ++ o ∷ [])
take_flag o f (b ∷ bs) (flag, texts) =
    (if f.clear then clear_bits (b ∷ bs) flag else set_bits (b ∷ bs) flag, texts)

-- `f` is the entry of the option `o` in the table. One without a flag is data as well.
abbrev pub take_option : Text → Option FlagOption → Flags × List Text → Flags × List Text
take_option o none (flag, texts) = (flag, texts ++ o ∷ [])
take_option o (some f) st = take_flag o f f.bits st

unfoldable pub flag_option : Text → Option FlagOption
unfolding get
flag_option o = get flags o

unfoldable pub take_options : List Text → Flags × List Text → Flags × List Text
take_options [] st = st
take_options (o ∷ os) st = take_options os (take_option o (flag_option o) st)

unfoldable pub parse_options : Text → Flags × Text
unfolding take_options split join flag_option
parse_options options =
    let r = take_options (split b',' options) ((λ b. false), []) in (r.0, join b',' r.1)

-- ===== src/Os/Table.antt =====
-- The mount table of drivers/os/linux/linux_mount.go.
use libstorage.Base.{
  ℕ, ◌+◌, List, [], ◌∷◌, ◌++◌, Bool, false, ◌||◌, Option, none, some, Text, codes, Result, ok, err,
  Exec, pure, ◌>>=◌, if◌then◌else◌, ◌==◌, text_eq, drop, length, ltb,
}
use libstorage.Base.Split.{fields, join, index_of}
use libstorage.Types.Errors.{Error, goof, wrapped, panicked}
use libstorage.Os.{MountInfo, Kernel}

-- The text behind the separator: where there is none, strings.Index gives -1.
abbrev after : Text → Option ℕ → Result Error Text
after text (some index) = ok (drop (index + 3) text)
after text none = if ltb (length text) 2 then err panicked else ok (drop 2 text)

-- The message without the line.
abbrev filled : Text → MountInfo × Text → List Text → Result Error MountInfo
filled text (p, optional_fields) (fs_type ∷ source ∷ option ∷ options) = ok (record p {
  optional = if optional_fields == codes "-" then p.optional else optional_fields;
  fs_type = fs_type;
  source = source;
  vfs_opts = join b' ' (option ∷ options);
})
filled text p ws = err (goof (codes "Error found less than 3 fields post '-'"))

abbrev behind_separator : Text → MountInfo × Text → Result Error Text → Result Error MountInfo
unfolding fields join
behind_separator text p (ok s) = filled text p (fields s)
behind_separator text p (err e) = err e

unfoldable pub parse_line : Text → Result Error (MountInfo × Text) → Result Error MountInfo
unfolding index_of fields join
parse_line text (ok p) = behind_separator text p (after text (index_of (codes " - ") text))
parse_line text (err e) = err (wrapped (codes "Scanning '" ++ text ++ codes "' failed") e)

abbrev pub next_line :
    Result Error MountInfo → Result Error (List MountInfo) → Result Error (List MountInfo)
next_line (ok p) (ok ps) = ok (p ∷ ps)
next_line (ok p) (err e) = err e
next_line (err e) rest = err e

abbrev pub returned : {S A : Type 0} → Result Error A → Exec S Error A
returned r s = (r, s)

module _ {S : Type 0} (k : Kernel S) where
  unfoldable pub parse_info_file : List Text → Result Error (List MountInfo)
  unfolding parse_line
  parse_info_file [] = ok []
  parse_info_file (text ∷ lines) =
      next_line (parse_line text (k.scanned text)) (parse_info_file lines)

  unfoldable pub parse_mount_table : Exec S Error (List MountInfo)
  unfolding parse_info_file
  parse_mount_table = do lines ← k.mountinfo; returned (parse_info_file lines)

  abbrev pub has_mount_point : Text → List MountInfo → Bool
  has_mount_point target [] = false
  has_mount_point target (e ∷ es) = (e.mount_point == target) || has_mount_point target es

  unfoldable pub mounted : Text → Exec S Error Bool
  unfolding parse_mount_table
  mounted target = do entries ← parse_mount_table; pure (has_mount_point target entries)

-- ===== src/Os/Formatted.antt =====
-- When drivers/os/linux/linux.go makes a file system on a device, and which command it runs for it.
use libstorage.Base.{
  Bool, List, [], ◌∷◌, ◌≡◌, ◌≢◌, refl, ◌⊎◌, inl, inr, true, false, not, ◌||◌, Option, none, some,
  Text, codes, Result, ok, err, Exec, Bool-cases, text_eq, text_beq, text_beq_iff, ◌==◌,
  if◌then◌else◌, drop, length, nat_eq, pure, arith,
}
use libstorage.Base.Split.{is_prefix}
use libstorage.Types.Errors.{Error, goof, wrapped}
use libstorage.Os.{DeviceFormatOpts, Kernel}
use libstorage.Os.Driver.{
  first_probe, probes, probe_fs_type, format, make_file_system, mkfs, has_name,
  unsupported_file_system,
}

-- The magic numbers of btrfs, ext4 and xfs.
abbrev pub HasFileSystem : Text → Type 0
HasFileSystem buffer =
    (is_prefix (codes "_BHRfS_M") (drop 65600 buffer) ≡ true)
    ⊎ ((is_prefix (83 ∷ 239 ∷ []) (drop 1080 buffer) ≡ true)
        ⊎ (is_prefix (codes "XFSB") buffer ≡ true))

abbrev IsKnown : Text → Option Text → Type 0
IsKnown buffer o =
    (HasFileSystem buffer × (has_name o ≡ true)) ⊎ (¬ HasFileSystem buffer × (o ≡ none))

first_probe-IsKnown : (buffer : Text) → IsKnown buffer (first_probe probes buffer)
unfolding first_probe text_beq
first_probe-IsKnown buffer = elim (Bool-cases (is_prefix (codes "_BHRfS_M") (drop 65600 buffer))) [
  | inl e ↦ rw e (inl (inl refl, refl))
  | inr b ↦ elim (Bool-cases (is_prefix (83 ∷ 239 ∷ []) (drop 1080 buffer))) [
    | inl e ↦ rw (b, e) (inl (inr (inl refl), refl))
    | inr x ↦ elim (Bool-cases (is_prefix (codes "XFSB") buffer)) [
      | inl e ↦ rw (b, x, e) (inl (inr (inr refl), refl))
      | inr e ↦ rw (b, x, e) (inr ((λ h. ground arith), refl))
    ]
  ]
]

module _ {S : Type 0} (k : Kernel S) (device : Text) where
  -- How a command that makes a file system ends.
  pub data Ran (command : List Text) (s : S) : Result Error (Unit {0}) × S → Type 0 where
    succeeded :
        {out : Text} {s' : S} → k.run command s ≡ ((out, none), s') → Ran command s (ok tt, s')
    failed :
        {out : Text} {e : Error} {s' : S}
        → k.run command s ≡ ((out, some e), s')
        → Ran command s (err (wrapped (codes "error creating filesystem") e), s')

  -- A file system of a type is made by the command for this type.
  pub data Made (fs_type : Text) (s : S) : Result Error (Unit {0}) × S → Type 0 where
    ext4 :
        {r : Result Error (Unit {0}) × S}
        → fs_type ≡ codes "ext4"
        → Ran (codes "mkfs.ext4" ∷ codes "-F" ∷ device ∷ []) s r
        → Made fs_type s r
    xfs :
        {r : Result Error (Unit {0}) × S}
        → fs_type ≡ codes "xfs"
        → Ran (codes "mkfs.xfs" ∷ codes "-f" ∷ device ∷ []) s r
        → Made fs_type s r
    unsupported :
        fs_type ≢ codes "ext4"
        → fs_type ≢ codes "xfs"
        → Made fs_type s (err unsupported_file_system, s)

  mkfs-Ran :
      (command : List Text) (s : S) (r : (Text × Option Error) × S)
      → k.run command s ≡ r
      → Ran command s (mkfs k command s)
  mkfs-Ran command s ((out, none), s') h = rw h (succeeded h)
  mkfs-Ran command s ((out, some e), s') h = rw h (failed h)

  make_file_system-Made :
      (fs_type : Text) (s : S) → Made fs_type s (make_file_system k device fs_type s)
  make_file_system-Made fs_type s = elim (Bool-cases (fs_type == codes "ext4")) [
    | inl e ↦
        let command = codes "mkfs.ext4" ∷ codes "-F" ∷ device ∷ [] in
        rw e (
          ext4 ((text_beq_iff fs_type (codes "ext4")).0 e)
            (mkfs-Ran command s (k.run command s) refl))
    | inr n ↦ elim (Bool-cases (fs_type == codes "xfs")) [
      | inl e ↦
          let command = codes "mkfs.xfs" ∷ codes "-f" ∷ device ∷ [] in
          rw (n, e)
            (xfs ((text_beq_iff fs_type (codes "xfs")).0 e)
              (mkfs-Ran command s (k.run command s) refl))
      | inr m ↦
          rw (n, m)
            (unsupported (λ h. ground (arith, text_beq_iff fs_type (codes "ext4")))
              (λ h. ground (arith, text_beq_iff fs_type (codes "xfs"))))
    ]
  ]

  -- How a format ends.
  pub data Formatted (overwrite_fs : Bool) (new_fs_type : Text) (s : S)
      : Result Error (Unit {0}) × S → Type 0 where
    unreadable :
        {e : Error} {s' : S}
        → k.read device 65608 s ≡ (err e, s')
        → Formatted overwrite_fs new_fs_type s (err e, s')
    short :
        {buffer : Text} {s' : S}
        → k.read device 65608 s ≡ (ok buffer, s')
        → length buffer ≢ 65608
        → Formatted overwrite_fs new_fs_type s (err (goof (codes "error detecting filesystem")), s')
    kept :
        {buffer : Text} {s' : S}
        → k.read device 65608 s ≡ (ok buffer, s')
        → overwrite_fs ≡ false
        → HasFileSystem buffer
        → Formatted overwrite_fs new_fs_type s (ok tt, s')
    made :
        {buffer : Text} {s' : S} {r : Result Error (Unit {0}) × S}
        → k.read device 65608 s ≡ (ok buffer, s')
        → (overwrite_fs ≡ true) ⊎ (¬ HasFileSystem buffer)
        → Made new_fs_type s' r
        → Formatted overwrite_fs new_fs_type s r

  -- What follows a probe.
  abbrev after_probe : Bool → Text → Option Text → Exec S Error (Unit {0})
  after_probe overwrite_fs new_fs_type fs_type =
      if overwrite_fs || not (has_name fs_type)
      then make_file_system k device new_fs_type
      else pure tt

  known-Formatted :
      (overwrite_fs : Bool) (new_fs_type : Text) (s s' : S) (buffer : Text)
      → k.read device 65608 s ≡ (ok buffer, s')
      → Formatted overwrite_fs new_fs_type s
          (after_probe overwrite_fs new_fs_type (first_probe probes buffer) s')
  known-Formatted true new_fs_type s s' buffer h =
      made h (inl refl) (make_file_system-Made new_fs_type s')
  known-Formatted false new_fs_type s s' buffer h = elim (first_probe-IsKnown buffer) [
    | inl (there, named) ↦ rw named (kept h refl there)
    | inr (absent, e) ↦ rw e (made h (inr absent) (make_file_system-Made new_fs_type s'))
  ]

  read-Formatted :
      (opts : DeviceFormatOpts) (s : S) (r : Result Error Text × S)
      → k.read device 65608 s ≡ r
      → Formatted opts.overwrite_fs opts.new_fs_type s (format k device opts s)
  unfolding format probe_fs_type
  read-Formatted opts s (err e, s') h = rw h (unreadable h)
  read-Formatted opts s (ok buffer, s') h = elim (Bool-cases (length buffer == 65608)) [
    | inl e ↦ rw (h, e) (known-Formatted opts.overwrite_fs opts.new_fs_type s s' buffer h)
    | inr e ↦ rw (h, e) (short h (ground arith))
  ]

  -- A format reads the first 65608 bytes of the device, and fails if it cannot. Where they have the magic number of
  -- btrfs, ext4 or xfs in its place, and the file system is not to be overwritten, it succeeds and does nothing
  -- more. Otherwise it runs the mkfs command for ext4 or xfs on the device, and ends as the command does; for
  -- any other type of file system it fails and runs none.
  pub format-Formatted :
      (opts : DeviceFormatOpts) (s : S)
      → Formatted opts.overwrite_fs opts.new_fs_type s (format k device opts s)
  format-Formatted opts s = read-Formatted opts s (k.read device 65608 s) refl

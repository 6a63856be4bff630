-- ===== src/Os/Tests.antt =====
-- Runs of the linux driver of the operating system, on a kernel that keeps the number of its calls.
use libstorage.Base.{
  ℕ, zero, suc, ◌+◌, ◌<◌, ◌≡◌, refl, ◌∙◌, [], ◌∷◌, ◌++◌, false, ◌⊎◌, none, some, Text, codes,
  Result, ok, err, text_beq, text_eq, nat_eq, drop, length, arith, ltb, if◌then◌else◌, ap,
}
use libstorage.Base.Split.{split, split_at, join, is_prefix}
use libstorage.Base.Dict.{get}
use libstorage.Types.Errors.{Error, goof}
use libstorage.Store.{new_store}
use libstorage.Os.{Kernel, DeviceFormatOpts}
use libstorage.Os.Options.{parse_options, flag_option, ms_rdonly}
use libstorage.Os.Syscalls.{force_unmount}
use libstorage.Os.Driver.{probe_fs_type, first_probe, probes, format}
use libstorage.Os.Retries.{Failures, force_unmount_ten}
use libstorage.Os.LastWord.{last_word, value_or, flagless, parse_options-last_word}
use libstorage.Os.Formatted.{Formatted, format-Formatted}

zeros : ℕ → Text
zeros zero = []
zeros (suc n) = 0 ∷ zeros n

length-zeros : (n : ℕ) → length (zeros n) ≡ n
unfolding zeros
length-zeros zero = refl
length-zeros (suc n) = ap suc (length-zeros n)

drop-zeros : (n k m : ℕ) → m ≡ n + k → drop n (zeros m) ≡ zeros k
unfolding zeros
drop-zeros zero k m h = ap zeros (omega (arith, h))
drop-zeros (suc n) k zero h = absurd (omega (arith, h))
drop-zeros (suc n) k (suc m) h = drop-zeros n k m (omega (arith, h))

-- The start of a device with an xfs file system.
abbrev xfs_device : Text
xfs_device = codes "XFSB" ++ zeros 65604

-- The tries to unmount fail while fewer than 3 calls were made.
abbrev kernel : Kernel ℕ
kernel = record {
  mountinfo = λ s. (ok [], s);
  scanned = λ text. err (goof (codes "unexpected EOF"));
  mount = λ device target type flag text s. (ok tt, suc s);
  unmount = λ target s. if ltb s 3 then (err (goof (codes "busy")), suc s) else (ok tt, suc s);
  sleep = λ s. s;
  read = λ device n s. (ok xfs_device, suc s);
  run = λ command s. (([], none), suc s);
  mkdir_all = λ path mode s. s;
  chmod = λ path mode s. s;
}

no_btrfs : is_prefix (codes "_BHRfS_M") (zeros 8) ≡ false
unfolding is_prefix zeros
no_btrfs = refl

no_ext4 : is_prefix (83 ∷ 239 ∷ []) (zeros 64528) ≡ false
unfolding is_prefix zeros
no_ext4 = refl

btrfs : is_prefix (codes "_BHRfS_M") (drop 65600 xfs_device) ≡ false
btrfs = ap (is_prefix (codes "_BHRfS_M")) (drop-zeros 65596 8 65604 (omega arith)) ∙ no_btrfs

ext4 : is_prefix (83 ∷ 239 ∷ []) (drop 1080 xfs_device) ≡ false
ext4 = ap (is_prefix (83 ∷ 239 ∷ [])) (drop-zeros 1076 64528 65604 (omega arith)) ∙ no_ext4

whole : length xfs_device ≡ 65608
whole = omega (arith, length-zeros 65604)

found : first_probe probes xfs_device ≡ some (codes "xfs")
unfolding first_probe
found = rw (btrfs, ext4) refl

probed : probe_fs_type kernel (codes "/dev/xvda") 0 ≡ (ok (some (codes "xfs")), 1)
unfolding probe_fs_type
probed = rw (whole, found) refl

abbrev format_opts : DeviceFormatOpts
format_opts = record { new_fs_type = codes "ext4"; overwrite_fs = false; opts = new_store }

format-Formatted_example :
    Formatted kernel
      (codes "/dev/xvda")
      false
      (codes "ext4")
      0
      (format kernel (codes "/dev/xvda") format_opts 0)
format-Formatted_example = format-Formatted kernel (codes "/dev/xvda") format_opts 0

parse_options-last_word_example :
    ((parse_options (codes "ro,noatime,rw,size=5")).0 ms_rdonly
      ≡ value_or false (last_word (split b',' (codes "ro,noatime,rw,size=5")) ms_rdonly))
    × ((parse_options (codes "ro,noatime,rw,size=5")).1
        ≡ join b',' (flagless (split b',' (codes "ro,noatime,rw,size=5"))))
parse_options-last_word_example = parse_options-last_word (codes "ro,noatime,rw,size=5") ms_rdonly

-- The option that comes last decides.
last_is_rw : last_word (split b',' (codes "ro,noatime,rw,size=5")) ms_rdonly ≡ some false
unfolding last_word split split_at flag_option get text_beq
last_is_rw = refl

force_unmount_ten_example :
    let r = force_unmount kernel (codes "/mnt") 0 in
    ((m : ℕ) × (q : Result Error (Unit {0}) × ℕ) × (m < 10)
      × Failures kernel (codes "/mnt") m (ok tt, 0) q
      × (kernel.unmount (codes "/mnt") q.1 ≡ r)
      × (r.0 ≡ ok tt))
    ⊎ (Failures kernel (codes "/mnt") 10 (ok tt, 0) r × ((e : Error) × (r.0 ≡ err e)))
force_unmount_ten_example = force_unmount_ten kernel (codes "/mnt") 0

fourth_try : force_unmount kernel (codes "/mnt") 0 ≡ (ok tt, 4)
unfolding force_unmount
fourth_try = refl

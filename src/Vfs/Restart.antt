-- ===== src/Vfs/Restart.antt =====
-- The numbers of new volumes of drivers/storage/vfs/storage over a restart.
use libstorage.Base.{
  ℕ, suc, ◌^◌, ◌<◌, ◌≡◌, refl, ◌∙◌, ap, none, some, Text, ok, arith, text_eq, text_beq_iff, length,
}
use libstorage.Base.Int.{pos, increment, padded_injective}
use libstorage.Base.Dict.{get, delete, get-delete, length-delete, Distinct}
use libstorage.Types.Models.{Volume}
use libstorage.Router.{VolumeCreateOpts, VolumeDetachOpts}
use libstorage.Vfs.{VfsState, Environment, volume_id, init}
use libstorage.Vfs.Volumes.{volume_create, volume_remove}
use libstorage.Vfs.Files.{new_volume, made_result, made_file, volume_create-files}

pub volume_id_injective : (m n : ℕ) → volume_id (pos m) ≡ volume_id (pos n) → m ≡ n
volume_id_injective m n e = padded_injective 3 m n cc

module _ (e : Environment) (name : Text) (opts : VolumeCreateOpts) (ropts : VolumeDetachOpts)
    (s : VfsState) where
  -- The driver after the removal of the volume with the number `i`, and after a restart.
  abbrev pub restarted : ℕ → VfsState
  restarted i =
      let s1 = (volume_remove (volume_id (pos i)) ropts s).1 in init s1.volumes s1.snapshots

  restarted-volumes :
      (i : ℕ) (removed : Volume)
      → get s.volumes (volume_id (pos i)) ≡ some removed
      → (restarted i).volumes ≡ delete (volume_id (pos i)) s.volumes
  unfolding volume_remove init
  restarted-volumes i removed there = rw there refl

  restarted-count :
      (n i : ℕ) (removed : Volume)
      → Distinct s.volumes
      → length s.volumes ≡ suc (suc n)
      → suc n < 2 ^ 63
      → get s.volumes (volume_id (pos i)) ≡ some removed
      → increment (restarted i).vol_count ≡ pos (suc n)
  unfolding volume_remove init
  restarted-count n i removed d size small there = rw (there, left) (ground arith)
    where
      left : length (delete (volume_id (pos i)) s.volumes) ≡ suc n
      left = omega (arith, length-delete (volume_id (pos i)) removed s.volumes d there, size)

  -- The volumes 0 to `n + 1` are there, and the one with the number `i`, which is not the last, is
  -- removed. After a restart the next creation takes the number of the last volume, which is still
  -- there, and its file, which can be written, is replaced by the new volume.
  create_after_restart_overwrites :
      (n i : ℕ) (removed last : Volume)
      → Distinct s.volumes
      → length s.volumes ≡ suc (suc n)
      → i < suc n
      → suc n < 2 ^ 63
      → get s.volumes (volume_id (pos i)) ≡ some removed
      → get s.volumes (volume_id (pos (suc n))) ≡ some last
      → e.create_error (volume_id (pos (suc n))) ≡ none
      → let made = volume_create e name opts (restarted i) in
        (get (restarted i).volumes (volume_id (pos (suc n))) ≡ some last)
        × (made.0 ≡ ok (new_volume e name opts (restarted i)))
        × (get made.1.volumes (volume_id (pos (suc n)))
            ≡ some (new_volume e name opts (restarted i)))
  create_after_restart_overwrites n i removed last d size not_last small there kept writable =
      (still_there, made.1 ∙ ap (made_result e name opts (restarted i)) free, made.2 ∙ replaced)
    where
      new : Volume
      new = new_volume e name opts (restarted i)

      id_is : new.id ≡ volume_id (pos (suc n))
      id_is = ap volume_id (restarted-count n i removed d size small there)

      free : e.create_error new.id ≡ none
      free = ap e.create_error id_is ∙ writable

      still_there : get (restarted i).volumes (volume_id (pos (suc n))) ≡ some last
      still_there = rw (restarted-volumes i removed there) (
          ground (
            arith,
            get-delete s.volumes (volume_id (pos i)) (volume_id (pos (suc n))),
            text_beq_iff (volume_id (pos i)) (volume_id (pos (suc n))),
            volume_id_injective i (suc n),
            kept,
          ))

      made :
          let m = volume_create e name opts (restarted i) in
          (m.1.vol_count ≡ increment (restarted i).vol_count)
          × (m.0 ≡ made_result e name opts (restarted i) (e.create_error new.id))
          × (get m.1.volumes (volume_id (pos (suc n)))
              ≡ made_file e name opts
                  (restarted i)
                  (e.create_error new.id)
                  (volume_id (pos (suc n))))
      made = volume_create-files e name opts (restarted i) (volume_id (pos (suc n)))

      replaced :
          made_file e name opts (restarted i) (e.create_error new.id) (volume_id (pos (suc n)))
          ≡ some new
      replaced = rw free (ground (arith, text_beq_iff new.id (volume_id (pos (suc n))), id_is))

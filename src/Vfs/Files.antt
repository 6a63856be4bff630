-- ===== src/Vfs/Files.antt =====
-- What a creation by drivers/storage/vfs/storage/vfs_storage.go does to the files.
use libstorage.Base.{
  [], ◌≡◌, refl, Bool, Option, none, some, Text, Result, ok, err, text_eq, ◌==◌, if◌then◌else◌,
}
use libstorage.Base.Int.{increment}
use libstorage.Base.Dict.{get, get-put}
use libstorage.Types.Models.{Volume}
use libstorage.Types.Errors.{Error}
use libstorage.Router.{VolumeCreateOpts}
use libstorage.Vfs.{
  VfsState, Environment, volume_id, new_volume_id, write_volume, written, custom_fields, put_fields,
}
use libstorage.Vfs.Volumes.{volume_create, with_opts, blank_volume, or_else}

module _ (e : Environment) (name : Text) (opts : VolumeCreateOpts) (s : VfsState) where
  -- The volume that a creation makes.
  abbrev pub new_volume : Volume
  new_volume = record (with_opts opts blank_volume) {
    id = volume_id (increment s.vol_count);
    name = name;
    encrypted = or_else opts.encrypted Bool.false;
    fields = put_fields (custom_fields e opts.opts) [];
  }

  abbrev pub made_result : Option Error → Result Error Volume
  made_result none = ok new_volume
  made_result (some x) = err x

  abbrev pub made_file : Option Error → Text → Option Volume
  made_file none j = if new_volume.id == j then some new_volume else get s.volumes j
  made_file (some x) j = get s.volumes j

  made-written :
      (o : Option Error)
      → e.create_error new_volume.id ≡ o
      → (j : Text)
      → let made = volume_create e name opts s in
        (made.1.vol_count ≡ increment s.vol_count)
        × (made.0 ≡ made_result o)
        × (get made.1.volumes j ≡ made_file o j)
  unfolding volume_create new_volume_id write_volume written
  made-written none h j = rw h (refl, refl, get-put s.volumes new_volume.id j new_volume)
  made-written (some x) h j = rw h (refl, refl, refl)

  -- A creation takes the next number, also if it fails. Where the file of the new ID can be created, it
  -- answers with a volume that has this ID and the name, and that is then in this file, while all
  -- other files are as they were; otherwise it answers with the error, and all files are as they were.
  pub volume_create-files :
      (j : Text)
      → let made = volume_create e name opts s in
        (made.1.vol_count ≡ increment s.vol_count)
        × (made.0 ≡ made_result (e.create_error new_volume.id))
        × (get made.1.volumes j ≡ made_file (e.create_error new_volume.id) j)
  volume_create-files j = made-written (e.create_error new_volume.id) refl j

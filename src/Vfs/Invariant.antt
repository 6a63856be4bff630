-- ===== src/Vfs/Invariant.antt =====
-- The attachments in the files of drivers/storage/vfs/storage, and the absence of panics.
use libstorage.Base.{
  List, [], ◌∷◌, ◌≡◌, ◌≢◌, refl, Option, none, some, Text, Result, ok, pure, All, All-append, ◌==◌,
  text_eq, inl, inr, Bool-cases,
}
use libstorage.Base.Dict.{get}
use libstorage.Types.Models.{InstanceId, Volume, VolumeAttachment}
use libstorage.Types.Errors.{Error}
use libstorage.Router.{VolumeCreateOpts, VolumeAttachOpts, VolumeDetachOpts}
use libstorage.Vfs.{
  VfsState, Environment, get_volume_by_id, write_volume, new_volume_id, new_volume_id,
}
use libstorage.Vfs.Volumes.{
  volume_create, volume_attach, volume_detach, volume_remove, drop_attachment, write_detached,
  stored, removed,
}
use libstorage.Vfs.Triples.{
  HasInstance, IsAttachedVolume, IsWellAttached, Safe, Keeps, Keeps-bind, continue-Safe, OfSome,
  delete-All, not_found-ne, get_volume_by_id-Keeps, FailsByError, write_volume-Keeps,
}

abbrev Any : {A : Type 0} → A → Type 0
Any a = Unit

stored-Keeps :
    (e : Environment) (v : Volume) → FailsByError e → IsAttachedVolume v → Keeps Any (stored e v)
stored-Keeps e v fails h =
    Keeps-bind Any Any (write_volume e v) (λ u. pure v) (write_volume-Keeps e v fails h)
      (λ u q s w. (w, tt))

volume_create-Keeps :
    (e : Environment) (name : Text) (opts : VolumeCreateOpts)
    → FailsByError e
    → Keeps Any (volume_create e name opts)
unfolding volume_create new_volume_id
volume_create-Keeps e name opts fails s w = stored-Keeps e _ fails tt _ w

some-ne : (iid : InstanceId) → some iid ≢ none
some-ne iid h = cc

volume_attach-Keeps :
    (e : Environment) (iid : InstanceId) (id : Text) (opts : VolumeAttachOpts)
    → FailsByError e
    → Keeps Any (volume_attach e (some iid) id opts)
unfolding volume_attach
volume_attach-Keeps e iid id opts fails =
    Keeps-bind IsAttachedVolume Any (get_volume_by_id id) _ (get_volume_by_id-Keeps id) (λ vol h.
      Keeps-bind Any Any (write_volume e _) _
        (write_volume-Keeps e _ fails
          (All-append HasInstance vol.attachments (_ ∷ []) h (some-ne iid, tt)))
        (λ u q s w. (w, tt)))

cons-OfSome :
    (a : VolumeAttachment)
    → HasInstance a
    → (o : Option (List VolumeAttachment)) → OfSome (All HasInstance) o
    → Keeps
        (OfSome (All HasInstance))
        (λ s. (ok (elim o [ none ↦ none | some bs ↦ some (a ∷ bs) ]), s))
cons-OfSome a h none hs s w = (w, tt)
cons-OfSome a h (some bs) hs s w = (w, (h, hs))

drop_attachment-Keeps :
    (id : Text) (as' : List VolumeAttachment)
    → All HasInstance as'
    → Keeps (OfSome (All HasInstance)) (drop_attachment id as')
unfolding drop_attachment
drop_attachment-Keeps id [] h s w = (w, tt)
drop_attachment-Keeps id (a ∷ as') (h, hs) s w =
    go a.instance_id refl (drop_attachment-Keeps id as' hs s w)
  where
    go :
        (o : Option InstanceId)
        → a.instance_id ≡ o
        → (let r = drop_attachment id as' s in
            IsWellAttached r.1 × Safe (OfSome (All HasInstance)) r.0)
        → let r = drop_attachment id (a ∷ as') s in
          IsWellAttached r.1 × Safe (OfSome (All HasInstance)) r.0
    go none e rest = absurd (h e)
    go (some i) e rest = elim (Bool-cases (i.id == id)) [
      | inl same ↦ rw (e, same) (w, hs)
      | inr other ↦
          rw (e, other)
            (continue-Safe (OfSome (All HasInstance)) (OfSome (All HasInstance))
              (drop_attachment id as' s).0 (drop_attachment id as' s).1 _ rest.0 rest.1
              (cons-OfSome (record a { instance_id = some i }) (some-ne i)))
    ]

write_detached-Keeps :
    (e : Environment) (vol : Volume) (o : Option (List VolumeAttachment))
    → FailsByError e
    → OfSome (All HasInstance) o
    → Keeps Any (write_detached e vol o)
write_detached-Keeps e vol none fails h s w = (w, tt)
write_detached-Keeps e vol (some as') fails h s w = write_volume-Keeps e _ fails h s w

volume_detach-Keeps :
    (e : Environment) (iid : InstanceId) (id : Text) (opts : VolumeDetachOpts)
    → FailsByError e
    → Keeps Any (volume_detach e (some iid) id opts)
unfolding volume_detach
volume_detach-Keeps e iid id opts fails =
    Keeps-bind IsAttachedVolume Any (get_volume_by_id id) _ (get_volume_by_id-Keeps id) (λ vol h.
      Keeps-bind (OfSome (All HasInstance)) Any (drop_attachment iid.id vol.attachments) _
        (drop_attachment-Keeps iid.id vol.attachments h)
        (λ o q.
          Keeps-bind Any Any (write_detached e vol o) _ (write_detached-Keeps e vol o fails q)
            (λ u p s w. (w, tt))))

volume_remove-Keeps : (id : Text) (opts : VolumeDetachOpts) → Keeps Any (volume_remove id opts)
unfolding volume_remove
volume_remove-Keeps id opts s w = go (get s.volumes id)
  where
    go : (o : Option Volume) → IsWellAttached (removed id o s).1 × Safe Any (removed id o s).0
    go none = (w, not_found-ne id)
    go (some v) = (delete-All IsAttachedVolume id s.volumes w, tt)

-- A result of an operation, with the files after it: each attachment is to some instance, and it is no panic.
abbrev pub IsKept : {A : Type 0} → Result Error A × VfsState → Type 0
IsKept r = IsWellAttached r.1 × Safe Any r.0

-- On files where each attachment is to some instance, and where the files that cannot be created give
-- errors: a creation, an attach and a detach with an instance ID, and a removal keep each attachment at
-- some instance, and do not panic.
pub operations-IsKept :
    (e : Environment) (iid : InstanceId) (s : VfsState)
    → FailsByError e
    → IsWellAttached s
    → (id name : Text) (copts : VolumeCreateOpts) (aopts : VolumeAttachOpts)
      (dopts : VolumeDetachOpts)
    → IsKept (volume_create e name copts s)
      × IsKept (volume_attach e (some iid) id aopts s)
      × IsKept (volume_detach e (some iid) id dopts s)
      × IsKept (volume_remove id dopts s)
operations-IsKept e iid s fails w id name copts aopts dopts = (
  volume_create-Keeps e name copts fails s w,
  volume_attach-Keeps e iid id aopts fails s w,
  volume_detach-Keeps e iid id dopts fails s w,
  volume_remove-Keeps id dopts s w,
)

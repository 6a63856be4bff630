-- ===== src/Vfs/Attach.antt =====
-- An attach and a detach of drivers/storage/vfs/storage/vfs_storage.go.
use libstorage.Base.{
  ◌≡◌, refl, List, [], ◌∷◌, ◌++◌, true, false, Option, none, some, Text, ok, arith, text_eq, ◌==◌,
  text_beq_refl, text_beq_iff,
}
use libstorage.Base.Dict.{get, put, get-put}
use libstorage.Types.Models.{InstanceId, Volume, VolumeAttachment}
use libstorage.Router.{VolumeAttachOpts, VolumeDetachOpts}
use libstorage.Vfs.{VfsState, Environment, get_volume_by_id, write_volume, written}
use libstorage.Vfs.Volumes.{volume_attach, volume_detach, drop_attachment, attachment_to, or_else}

abbrev OtherThan : Text → Option InstanceId → Type 0
OtherThan id none = ⊥
OtherThan id (some i) = i.id == id ≡ false

-- Each attachment is to some instance, and none to the instance `id`.
abbrev pub NoneTo : Text → List VolumeAttachment → Type 0
NoneTo id [] = Unit
NoneTo id (a ∷ as') = OtherThan id a.instance_id × NoneTo id as'

drop_last :
    (id : Text) (as' : List VolumeAttachment) (a : VolumeAttachment) (i : InstanceId) (s : VfsState)
    → a.instance_id ≡ some i
    → i.id == id ≡ true
    → NoneTo id as'
    → drop_attachment id (as' ++ a ∷ []) s ≡ (ok (some as'), s)
unfolding drop_attachment
drop_last id [] a i s e same h = rw (e, same) refl
drop_last id (b ∷ bs) a i s e same (hb, h) =
    go b.instance_id refl hb (drop_last id bs a i s e same h)
  where
    go :
        (o : Option InstanceId)
        → b.instance_id ≡ o
        → OtherThan id o
        → drop_attachment id (bs ++ a ∷ []) s ≡ (ok (some bs), s)
        → drop_attachment id (b ∷ bs ++ a ∷ []) s ≡ (ok (some (b ∷ bs)), s)
    go none eb other rest = absurd other
    go (some k) eb other rest = rw (eb, other, rest) refl

module _ (e : Environment) (iid : InstanceId) (id : Text) (v : Volume) (s : VfsState)
    (aopts : VolumeAttachOpts) (dopts : VolumeDetachOpts) where
  abbrev pub device : Text
  device = or_else aopts.next_device []

  abbrev pub new_attachment : VolumeAttachment
  new_attachment = attachment_to iid v.id device

  abbrev pub with_new : Volume
  with_new = record v { attachments = v.attachments ++ new_attachment ∷ [] }

  attach-files :
      get s.volumes id ≡ some v
      → e.create_error v.id ≡ none
      → volume_attach e (some iid) id aopts s ≡ (
        ok (record v { attachments = new_attachment ∷ [] }, device),
        record s { volumes = put v.id with_new s.volumes },
      )
  unfolding volume_attach get_volume_by_id write_volume written
  attach-files there writable = rw (there, writable) refl

  detach-files :
      (s' : VfsState)
      → get s'.volumes id ≡ some with_new
      → e.create_error v.id ≡ none
      → NoneTo iid.id v.attachments
      → volume_detach e (some iid) id dopts s'
        ≡ (ok (some (record v { attachments = [] })), record s' { volumes = put v.id v s'.volumes })
  unfolding volume_detach get_volume_by_id write_volume written
  detach-files s' there writable free =
      rw
        (
          there,
          drop_last iid.id v.attachments new_attachment iid s' refl (text_beq_refl iid.id) free,
          writable,
        )
        refl

  -- A volume whose file can be written, and where each attachment is to some instance other than the
  -- one that asks: an attach answers with the new attachment alone and writes it behind the others; a
  -- detach after it answers with the volume without attachments, and then every file is as it was
  -- before the attach.
  pub detach-attach :
      (j : Text)
      → v.id ≡ id
      → get s.volumes id ≡ some v
      → e.create_error v.id ≡ none
      → NoneTo iid.id v.attachments
      → let attached = volume_attach e (some iid) id aopts s in
        let detached = volume_detach e (some iid) id dopts attached.1 in
        (attached.0 ≡ ok (record v { attachments = new_attachment ∷ [] }, device))
        × (get attached.1.volumes id ≡ some with_new)
        × (detached.0 ≡ ok (some (record v { attachments = [] })))
        × (get detached.1.volumes j ≡ get s.volumes j)
  detach-attach j named there writable free =
      rw (attach-files there writable) (
        rw (detach-files attached written_there writable free)
          (refl, written_there, refl, restored))
    where
      attached : VfsState
      attached = record s { volumes = put v.id with_new s.volumes }

      written_there : get attached.volumes id ≡ some with_new
      written_there =
          ground (arith, get-put s.volumes v.id id with_new, text_beq_iff v.id id, named)

      restored : get (put v.id v attached.volumes) j ≡ get s.volumes j
      restored = ground (
        arith,
        get-put attached.volumes v.id j v,
        get-put s.volumes v.id j with_new,
        text_beq_iff v.id j,
        named,
        there,
      )

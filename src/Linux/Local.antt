-- ===== src/Linux/Local.antt =====
-- The attachment to this instance that Mount and Unmount of drivers/integration/linux/linux.go look for.
use libstorage.Base.{
  ◌≡◌, ◌≢◌, refl, List, [], ◌∷◌, ◌++◌, false, some, Text, ok, All, arith, text_eq, text_beq_iff,
}
use libstorage.Types.Models.{InstanceId, Volume, VolumeAttachment}
use libstorage.Types.Errors.{Error}
use libstorage.Linux.{Client, is_empty, find_attachment}
use libstorage.Linux.Mounts.{attachment_of}

-- An attachment to another instance.
abbrev pub IsElsewhere : Text → VolumeAttachment → Type 0
IsElsewhere id a = (other : InstanceId) × (a.instance_id ≡ some other) × (other.id ≢ id)

-- `a` is the first of the attachments that is to the instance `id`; those before it have an instance ID.
pub record IsLocal (id : Text) (as' : List VolumeAttachment) (a : VolumeAttachment) : Type 0 where
  pub before : List VolumeAttachment
  pub rest : List VolumeAttachment
  pub whole : as' ≡ before ++ a ∷ rest
  pub elsewhere : All (IsElsewhere id) before
  pub own : (iid : InstanceId) × (a.instance_id ≡ some iid) × (iid.id ≡ id)

find_behind :
    (id : Text) (before : List VolumeAttachment) (a : VolumeAttachment)
    (rest : List VolumeAttachment) (iid : InstanceId)
    → All (IsElsewhere id) before
    → a.instance_id ≡ some iid
    → iid.id ≡ id
    → find_attachment id (before ++ a ∷ rest) ≡ ok (some a)
unfolding find_attachment
find_behind id [] a rest iid h e same = rw e (ground (arith, text_beq_iff iid.id id))
find_behind id (b ∷ before) a rest iid ((other, e', differs), h) e same =
    rw e' (ground (arith, text_beq_iff other.id id, find_behind id before a rest iid h e same))

pub find-IsLocal :
    (id : Text) (as' : List VolumeAttachment) (a : VolumeAttachment)
    → IsLocal id as' a
    → find_attachment id as' ≡ ok (some a)
find-IsLocal id as' a h =
    rw h.whole (find_behind id h.before a h.rest h.own.0 h.elsewhere h.own.1 h.own.2)

pub attachment_found :
    {S : Type 0} (c : Client S) (e1 e2 : Error) (vol : Volume) (inst : InstanceId)
    (a : VolumeAttachment) (s1 s2 : S)
    → c.instance_inspect s1 ≡ (ok inst, s2)
    → find_attachment inst.id vol.attachments ≡ ok (some a)
    → is_empty a.device_name ≡ false
    → attachment_of c e1 e2 vol s1 ≡ (ok a, s2)
unfolding attachment_of
attachment_found c e1 e2 vol inst a s1 s2 known here device = rw (known, here, device) refl

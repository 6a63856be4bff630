-- ===== src/Linux/Detached.antt =====
-- Unmount of drivers/integration/linux/linux.go.
use libstorage.Base.{
  ℕ, ◌≡◌, refl, List, [], ◌∷◌, false, ◌&&◌, some, Text, codes, Result, ok, err, continue, arith,
  ◌∙◌,
}
use libstorage.Types.Attachments.{vol_att_req_true}
use libstorage.Types.Models.{InstanceId, Volume, VolumeAttachment}
use libstorage.Types.Errors.{Error, goof}
use libstorage.Store.{KeyValueStore}
use libstorage.Store.Typed.{get_bool}
use libstorage.Linux.{Client, is_empty, find_attachment}
use libstorage.Linux.Found.{Found, inspect-Found}
use libstorage.Linux.Local.{IsLocal, find-IsLocal, attachment_found}
use libstorage.Linux.Mounts.{unmount, unmount_each, unmount_found, unmount_device}

module _ {S : Type 0} (c : Client S) (opts : KeyValueStore) (now : ℕ) where
  found_device :
      (vol : Volume) (as' : List VolumeAttachment) (inst : InstanceId) (a : VolumeAttachment)
      (s1 s2 : S)
      → vol.attachments ≡ as'
      → c.instance_inspect s1 ≡ (ok inst, s2)
      → find_attachment inst.id vol.attachments ≡ ok (some a)
      → is_empty a.device_name ≡ false
      → unmount_found c opts now vol as' s1 ≡ unmount_device c vol opts now a s2
  unfolding unmount_found
  found_device vol [] inst a s1 s2 e known here device =
      absurd (unfold find_attachment in ground (arith, e, here))
  found_device vol (b ∷ bs) inst a s1 s2 e known here device =
      rw
        (attachment_found c (goof (codes "no attachment found for instance"))
          (goof (codes "no device name found for attachment")) vol inst a s1 s2 known here device)
        refl

  -- How the unmounting of some mount points in turn ends: after all of them, or with the first that fails.
  pub data Unmounting : List Text → S → Result Error (Unit {0}) × S → Type 0 where
    all_gone : {s : S} → Unmounting [] s (ok tt, s)
    next :
        {p : Text} {ps : List Text} {s s1 : S} {end' : Result Error (Unit {0}) × S}
        → c.unmount p opts s ≡ (ok tt, s1)
        → Unmounting ps s1 end'
        → Unmounting (p ∷ ps) s end'
    stopped :
        {p : Text} {ps : List Text} {s s1 : S} {e : Error}
        → c.unmount p opts s ≡ (err e, s1)
        → Unmounting (p ∷ ps) s (err e, s1)

  unmount_each-Unmounting :
      (ps : List Text) (s : S) (end' : Result Error (Unit {0}) × S)
      → Unmounting ps s end'
      → unmount_each c ps opts s ≡ end'
  unfolding unmount_each
  unmount_each-Unmounting ps s end' all_gone = refl
  unmount_each-Unmounting ps s end' (next {ps = qs} {s1 = t} h u) =
      rw h (unmount_each-Unmounting qs t end' u)
  unmount_each-Unmounting ps s end' (stopped h) = rw h refl

  -- Unmount, with a name or an ID, of a volume that the client gives for it, and whose first attachment to the instance, behind
  -- attachments to other instances, has a device with the mount points `ps`, the unmounting of which in turn ends
  -- with `end'`: if one of them fails, Unmount ends with its error, and the volume is not detached; otherwise
  -- all are unmounted, and the end is that of the detach.
  pub unmount_then_detach :
      (volume_id volume_name : Text) (vol : Volume) (inst : InstanceId) (a : VolumeAttachment)
      (ps : List Text) (s s1 s2 s3 : S) (end' : Result Error (Unit {0}) × S)
      → is_empty volume_name && is_empty volume_id ≡ false
      → Found c vol_att_req_true s volume_id volume_name vol s1
      → c.instance_inspect s1 ≡ (ok inst, s2)
      → IsLocal inst.id vol.attachments a
      → is_empty a.device_name ≡ false
      → c.mounts a.device_name opts s2 ≡ (ok ps, s3)
      → Unmounting ps s3 end'
      → unmount c volume_id volume_name opts now s
        ≡ continue end'.0 (λ _. c.volume_detach vol.id (get_bool (codes "force") now opts)) end'.1
  unfolding unmount
  unmount_then_detach volume_id volume_name vol inst a ps s s1 s2 s3 end' named found known here
        device mounted unmounting =
      rw (named, inspect-Found c vol_att_req_true s volume_id volume_name vol s1 found)
        (found_device vol vol.attachments inst a s1 s2 refl known
            (find-IsLocal inst.id vol.attachments a here) device
          ∙ (unfold unmount_device in
              rw (mounted, unmount_each-Unmounting ps s3 end' unmounting) refl))

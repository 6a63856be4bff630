-- ===== src/Ebs/Wait.antt =====
-- waitVolumeComplete of drivers/storage/ebs/storage/ebs_storage.go, on as many rounds as `rounds` says.
use libstorage.Base.{
  ℕ, zero, suc, List, [], ◌∷◌, Bool, true, false, Text, codes, Result, ok, err, Exec, raise, ◌>>=◌,
  ◌==◌, text_eq,
}
use libstorage.Types.Errors.{Error, goof, panicked, endless}
use libstorage.Ebs.{Ebs, Ec2, Ec2Volume, Ec2Attachment, explain, get_volume}

pub data Action : Type 0 where
  wait_create wait_attach wait_detach : Action

abbrev only_attached : List Ec2Attachment → Bool
only_attached (a ∷ []) = a.state == codes "attached"
only_attached as' = false

abbrev pub is_complete : Action → Ec2Volume → Bool
is_complete wait_create v = v.state == codes "available"
is_complete wait_detach v = elim v.attachments [ [] ↦ true | a ∷ as' ↦ false ]
is_complete wait_attach v = only_attached v.attachments

-- What a round finds: the first of the volumes, which is read without a look at their number.
abbrev pub checked : Action → List Ec2Volume → Result Error Bool
checked action [] = err panicked
checked action (v ∷ vs) = ok (is_complete action v)

module _ {S : Type 0} (d : Ebs) (ec2 : Ec2 S) where
  -- One look at the volume.
  unfoldable pub poll : Text → Action → Exec S Error Bool
  unfolding get_volume
  poll volume_id action = do
    volumes ← explain (codes "error getting volume") (get_volume d ec2 volume_id [])
    (λ s. (checked action volumes, s))

  abbrev polled :
      Result Error Bool × S → (S → Result Error (Unit {0}) × S) → Result Error (Unit {0}) × S
  polled (ok true, s) again = (ok tt, s)
  polled (ok false, s) again = again (ec2.sleep s)
  polled (err e, s) again = (err e, s)

  unfoldable pub wait_rounds : ℕ → Text → Action → Exec S Error (Unit {0})
  unfolding poll
  wait_rounds zero volume_id action s = (err endless, s)
  wait_rounds (suc n) volume_id action s =
      polled (poll volume_id action s) (wait_rounds n volume_id action)

  unfoldable pub wait_volume_complete : Text → Action → Exec S Error (Unit {0})
  unfolding wait_rounds
  wait_volume_complete [] action = raise (goof (codes "missing volume ID"))
  wait_volume_complete (c ∷ id) action = wait_rounds d.rounds (c ∷ id) action

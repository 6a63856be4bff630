-- ===== src/Dobs/Waits.antt =====
-- The wait for an action, of drivers/storage/dobs/storage/dobs_storage.go.
use libstorage.Base.{
  ℕ, zero, suc, ◌+◌, ◌*◌, ◌<◌, [], true, false, some, Text, Result, ok, err, ◌≡◌, refl, ap, sym,
  ◌⊎◌, inl, inr, Bool-cases, arith, ◌==◌, text_eq,
}
use mathlib.Core.Path.{subst}
use libstorage.Base.Int.{ℤ, parse_int}
use libstorage.Types.Attachments.{vol_att_req_true}
use libstorage.Types.Errors.{Error}
use libstorage.Types.Models.{InstanceId}
use libstorage.Router.{VolumeAttachOpts}
use libstorage.Dobs.{
  Dobs, Godo, DoVolume, Action, action_completed, wait_looks, wait_for_action, to_types_volume,
}
use libstorage.Dobs.Volumes.{volume_attach}

module _ {S : Type 0} (d : Dobs) (godo : Godo S) (volume_id : Text) (action_id : ℤ) where
  -- The `i`-th look at the action, behind its sleep.
  abbrev pub look : ℕ → S → Result Error Action × S
  look i s = godo.get_action volume_id action_id (godo.sleep (i * 15) s)

  -- `m` looks, from the `i`-th on, find the action not completed, and lead from `s` to `t`.
  abbrev pub Unfinished : ℕ → ℕ → S → S → Type 0
  Unfinished zero i s t = s ≡ t
  Unfinished (suc m) i s t =
      (a : Action) × (s' : S) × (look i s ≡ (ok a, s'))
      × ((a.status == action_completed) ≡ false)
      × Unfinished m (suc i) s' t

  -- The look ends the wait: it finds the action completed, or fails.
  abbrev pub Decides : Result Error Action × S → Result Error (Unit {0}) × S → Type 0
  Decides q r =
      ((a : Action) × (s : S) × (q ≡ (ok a, s))
        × ((a.status == action_completed) ≡ true)
        × (r ≡ (ok tt, s)))
      ⊎ ((e : Error) × (s : S) × (q ≡ (err e, s)) × (r ≡ (err e, s)))

  -- The wait ended by one of `n` looks, or all of them found the action not completed.
  abbrev pub Outcome : ℕ → ℕ → S → Result Error (Unit {0}) × S → Type 0
  Outcome n i s r =
      ((m : ℕ) × (t : S) × (m < n) × Unfinished m i s t × Decides (look (i + m) t) r)
      ⊎ ((t : S) × Unfinished n i s t × (r ≡ (ok tt, t)))

  Outcome-later :
      (n i : ℕ) (s s' : S) (a : Action) (r : Result Error (Unit {0}) × S)
      → look i s ≡ (ok a, s')
      → (a.status == action_completed) ≡ false
      → Outcome n (suc i) s' r
      → Outcome (suc n) i s r
  Outcome-later n i s s' a r e f (inl (m, t, less, u, decided)) =
      inl (suc m, t, omega (arith, less), (a, s', e, f, u), rw (place m) decided)
    where
      place : (m : ℕ) → i + suc m ≡ suc i + m
      place m = omega arith
  Outcome-later n i s s' a r e f (inr (t, u, same)) = inr (t, (a, s', e, f, u), same)

  wait_looks-Outcome :
      (n i : ℕ) (s : S) → Outcome n i s (wait_looks d godo n i volume_id action_id s)
  unfolding wait_looks
  wait_looks-Outcome zero i s = inr (s, refl, refl)
  wait_looks-Outcome (suc n) i s = go (look i s) refl (wait_looks-Outcome n (suc i))
    where
      start : i + 0 ≡ i
      start = omega arith

      go :
          (q : Result Error Action × S)
          → look i s ≡ q
          → ((s' : S) → Outcome n (suc i) s' (wait_looks d godo n (suc i) volume_id action_id s'))
          → Outcome (suc n) i s (wait_looks d godo (suc n) i volume_id action_id s)
      go (err e, s') h again =
          rw (h, wait_looks) (inl (zero, s, omega arith, refl, rw start (inr (e, s', h, refl))))
      go (ok a, s') h again = elim (Bool-cases (a.status == action_completed)) [
        | inl y ↦
            rw (h, y, wait_looks)
              (inl (zero, s, omega arith, refl, rw start (inl (a, s', h, y, refl))))
        | inr n' ↦ subst (Outcome (suc n) i s) (sym (step n')) (
            Outcome-later n i s s' a (wait_looks d godo n (suc i) volume_id action_id s') h n'
              (again s'))
      ]
        where
          step :
              (a.status == action_completed) ≡ false
              → wait_looks d godo (suc n) i volume_id action_id s
                ≡ wait_looks d godo n (suc i) volume_id action_id s'
          step n' = rw (h, n')

module _ {S : Type 0} (d : Dobs) (godo : Godo S) where
  -- Whatever the service answers: waitForAction ends after at most ten looks at the action. Either one of
  -- the first ten looks finds it completed or fails, all before it find it not completed, and the answer is
  -- success or the error of this look; or all ten find it not completed, and the answer is success, too.
  pub wait_for_action_ten :
      (volume_id : Text) (action : Action) (s : S)
      → Outcome d godo volume_id action.id 10 0 s (wait_for_action d godo volume_id action s)
  unfolding wait_for_action
  wait_for_action_ten volume_id action s = wait_looks-Outcome d godo volume_id action.id 10 0 s

  wait_looks_underway :
      (volume_id : Text) (action : Action) (n i : ℕ) (s t : S)
      → Unfinished d godo volume_id action.id n i s t
      → wait_looks d godo n i volume_id action.id s ≡ (ok tt, t)
  unfolding wait_looks
  wait_looks_underway volume_id action zero i s t u = ap (λ x. (ok tt, x)) u
  wait_looks_underway volume_id action (suc n) i s t (a, s', e, f, u) =
      rw (e, f) (wait_looks_underway volume_id action n (suc i) s' t u)

  -- An attach of a volume that is not attached, by an instance whose ID is a number, where none of ten looks
  -- finds the action of the attach completed: it succeeds all the same, with the volume as the service has it,
  -- attached or not.
  attach_while_underway :
      (volume_id : Text) (opts : VolumeAttachOpts) (iid : InstanceId) (droplet : ℤ)
      (action : Action) (v w : DoVolume) (s s1 s2 s3 s4 : S)
      → godo.get_volume volume_id s ≡ (ok v, s1)
      → v.droplet_ids ≡ []
      → d.instance_id ≡ some iid
      → parse_int iid.id ≡ some droplet
      → godo.attach volume_id droplet s1 ≡ (ok action, s2)
      → Unfinished d godo volume_id action.id 10 0 s2 s3
      → godo.get_volume volume_id s3 ≡ (ok w, s4)
      → let volume = to_types_volume d godo w vol_att_req_true s4 in
        volume_attach d godo volume_id opts s ≡ (ok (volume, w.name), s4)
  unfolding volume_attach wait_for_action
  attach_while_underway volume_id opts iid droplet action v w s s1 s2 s3 s4 got free own number sent
        u again =
      rw (got, free, own, number, sent, wait_looks_underway volume_id action 10 0 s2 s3 u, again)

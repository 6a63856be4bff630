-- ===== src/Ebs/Polls.antt =====
-- The loop of waitVolumeComplete in drivers/storage/ebs/storage/ebs_storage.go.
use libstorage.Base.{
  ℕ, zero, suc, ◌<◌, ◌≡◌, refl, ◌∙◌, List, [], ◌∷◌, inl, inr, true, false, Bool-cases, Text, codes,
  Result, ok, err, arith, text_eq, text_beq_iff,
}
use libstorage.Types.Errors.{Error, panicked, wrap}
use libstorage.Ebs.{Ebs, Ec2, Ec2Volume, Ec2Attachment, get_volume}
use libstorage.Ebs.Wait.{
  Action, wait_create, wait_attach, wait_detach, is_complete, poll, wait_rounds,
}

-- The state of a volume that an action waits for: available, attached once and completely, or not attached.
abbrev pub IsComplete : Action → Ec2Volume → Type 0
IsComplete wait_create v = v.state ≡ codes "available"
IsComplete wait_attach v =
    (a : Ec2Attachment) × (v.attachments ≡ a ∷ []) × (a.state ≡ codes "attached")
IsComplete wait_detach v = v.attachments ≡ []

attached_of :
    (v : Ec2Volume) (as' : List Ec2Attachment)
    → v.attachments ≡ as'
    → is_complete wait_attach v ≡ true
    → IsComplete wait_attach v
attached_of v [] e h = let k : false ≡ true = rw e at h in cc k
attached_of v (a ∷ []) e h = (a, e, (text_beq_iff a.state (codes "attached")).0 (rw e at h))
attached_of v (a ∷ b ∷ as') e h = let k : false ≡ true = rw e at h in cc k

detached_of :
    (v : Ec2Volume) (as' : List Ec2Attachment)
    → v.attachments ≡ as'
    → is_complete wait_detach v ≡ true
    → IsComplete wait_detach v
detached_of v [] e h = e
detached_of v (a ∷ as') e h = let k : false ≡ true = rw e at h in cc k

is_complete-true :
    (action : Action) (v : Ec2Volume) → IsComplete action v → is_complete action v ≡ true
is_complete-true wait_create v h = (text_beq_iff v.state (codes "available")).1 h
is_complete-true wait_attach v (a, e, h) = rw e ((text_beq_iff a.state (codes "attached")).1 h)
is_complete-true wait_detach v h = rw h refl

true-IsComplete :
    (action : Action) (v : Ec2Volume) → is_complete action v ≡ true → IsComplete action v
true-IsComplete wait_create v h = (text_beq_iff v.state (codes "available")).0 h
true-IsComplete wait_attach v h = attached_of v v.attachments refl h
true-IsComplete wait_detach v h = detached_of v v.attachments refl h

is_complete-false :
    (action : Action) (v : Ec2Volume) → ¬ IsComplete action v → is_complete action v ≡ false
is_complete-false action v h = elim (Bool-cases (is_complete action v)) [
  | inl e ↦ absurd (h (true-IsComplete action v e))
  | inr e ↦ e
]

-- `Waiting m s s'`: from the world `s`, the service has given a volume `m` times that is not in the state that the
-- action waits for, and the world is `s'` after the sleep that follows the last time.
pub data Waiting {S : Type 0} (d : Ebs) (ec2 : Ec2 S) (volume_id : Text) (action : Action)
    : ℕ → S → S → Type 0 where
  not_yet : {s : S} → Waiting d ec2 volume_id action 0 s s
  slept :
      {m : ℕ} {s s1 s2 : S}
      → (v : Ec2Volume) (vs : List Ec2Volume) → get_volume d ec2 volume_id [] s ≡ (ok (v ∷ vs), s1)
      → ¬ IsComplete action v
      → Waiting d ec2 volume_id action m (ec2.sleep s1) s2
      → Waiting d ec2 volume_id action (suc m) s s2

-- What the service gives at the end of a wait, and how the wait ends with it.
pub data Ending (action : Action)
    : Result Error (List Ec2Volume) → Result Error (Unit {0}) → Type 0 where
  complete :
      {v : Ec2Volume} {vs : List Ec2Volume}
      → IsComplete action v
      → Ending action (ok (v ∷ vs)) (ok tt)
  gone : Ending action (ok []) (err panicked)
  refused : {e : Error} → Ending action (err e) (err (wrap (codes "error getting volume") e))

module _ {S : Type 0} (d : Ebs) (ec2 : Ec2 S) (volume_id : Text) (action : Action) where
  last_look :
      (n : ℕ) (s s2 : S) (r : Result Error (List Ec2Volume)) (end' : Result Error (Unit {0}))
      → get_volume d ec2 volume_id [] s ≡ (r, s2)
      → Ending action r end'
      → wait_rounds d ec2 (suc n) volume_id action s ≡ (end', s2)
  unfolding wait_rounds poll
  last_look n s s2 r end' look (complete {v = v} h) = rw (look, is_complete-true action v h) refl
  last_look n s s2 r end' look gone = rw look refl
  last_look n s s2 r end' look refused = rw look refl

  looked_again :
      (n : ℕ) (s s1 : S) (v : Ec2Volume) (vs : List Ec2Volume)
      → get_volume d ec2 volume_id [] s ≡ (ok (v ∷ vs), s1)
      → ¬ IsComplete action v
      → wait_rounds d ec2 (suc n) volume_id action s
        ≡ wait_rounds d ec2 n volume_id action (ec2.sleep s1)
  unfolding wait_rounds poll
  looked_again n s s1 v vs look h = rw (look, is_complete-false action v h) refl

  -- Where the service gives the volume `m` times in a state that is not the one waited for (available; with one attachment,
  -- which is attached; or without attachment), and then in this state, or no volume, or an error: a wait of
  -- more than `m` rounds goes on until then and no longer, and ends with success, with a panic, or with
  -- the error.
  pub wait_rounds-Ending :
      (m n : ℕ) (s s1 s2 : S) (r : Result Error (List Ec2Volume)) (end' : Result Error (Unit {0}))
      → Waiting d ec2 volume_id action m s s1
      → get_volume d ec2 volume_id [] s1 ≡ (r, s2)
      → Ending action r end'
      → m < n
      → wait_rounds d ec2 n volume_id action s ≡ (end', s2)
  wait_rounds-Ending m zero s s1 s2 r end' w look ends less = absurd (omega (arith, less))
  wait_rounds-Ending zero (suc n) s s1 s2 r end' not_yet look ends less =
      last_look n s s2 r end' look ends
  wait_rounds-Ending (suc m) (suc n) s s1 s2 r end' (slept {s1 = t} v vs h not_so w) look ends
        less =
      looked_again n s t v vs h not_so
      ∙ wait_rounds-Ending m n (ec2.sleep t) s1 s2 r end' w look ends (omega (arith, less))

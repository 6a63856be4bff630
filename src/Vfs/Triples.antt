-- ===== src/Vfs/Triples.antt =====
-- Rules for the operations of the vfs driver that keep each attachment of each file at an instance, and
-- do not panic.
use libstorage.Base.{
  [], ◌∷◌, ◌≡◌, ◌≢◌, refl, Option, none, some, Text, Result, ok, err, continue, ◌>>=◌, ◌∙◌, ap, All,
  ◌==◌, text_eq, inl, inr, Bool-cases,
}
use libstorage.Base.Dict.{Dict, get, put, delete}
use libstorage.Types.Models.{Volume, VolumeAttachment}
use libstorage.Types.Errors.{Error, panicked, not_found}
use libstorage.Vfs.{VfsState, Vfs, Environment, get_volume_by_id, write_volume, written, found}

abbrev pub HasInstance : VolumeAttachment → Type 0
HasInstance a = a.instance_id ≢ none

abbrev pub IsAttachedVolume : Volume → Type 0
IsAttachedVolume v = All HasInstance v.attachments

-- Each attachment in the files is to some instance.
abbrev pub IsWellAttached : VfsState → Type 0
IsWellAttached s = All (λ p. IsAttachedVolume p.1) s.volumes

-- No panic, and what holds of a value.
abbrev pub Safe : {A : Type 0} → (A → Type 0) → Result Error A → Type 0
Safe Q (ok a) = Q a
Safe Q (err e) = e ≢ panicked

abbrev pub Keeps : {A : Type 0} → (A → Type 0) → Vfs A → Type 0
Keeps Q m = (s : VfsState) → IsWellAttached s → IsWellAttached (m s).1 × Safe Q (m s).0

module _ {A B : Type 0} (Q : A → Type 0) (R : B → Type 0) where
  pub continue-Safe :
      (r : Result Error A) (s : VfsState) (f : A → Vfs B)
      → IsWellAttached s
      → Safe Q r
      → ((a : A) → Q a → Keeps R (f a))
      → IsWellAttached (continue r f s).1 × Safe R (continue r f s).0
  continue-Safe (ok a) s f w q h = h a q s w
  continue-Safe (err e) s f w q h = (w, q)

  pub Keeps-bind :
      (m : Vfs A) (f : A → Vfs B) → Keeps Q m → ((a : A) → Q a → Keeps R (f a)) → Keeps R (m >>= f)
  Keeps-bind m f hm hf s w = let h = hm s w in continue-Safe (m s).0 (m s).1 f h.0 h.1 hf

module _ {A : Type 0} (P : A → Type 0) where
  abbrev pub OfSome : Option A → Type 0
  OfSome none = Unit
  OfSome (some a) = P a

  get-OfSome : (m : Dict Text A) (k : Text) → All (λ p. P p.1) m → OfSome (get m k)
  unfolding get
  get-OfSome [] k h = tt
  get-OfSome ((j, a) ∷ m) k (h, hs) = elim (Bool-cases (j == k)) [
    | inl e ↦ rw e h
    | inr e ↦ rw e (get-OfSome m k hs)
  ]

  pub put-All :
      (k : Text) (a : A) (m : Dict Text A) → P a → All (λ p. P p.1) m → All (λ p. P p.1) (put k a m)
  unfolding put
  put-All k a [] h hs = (h, tt)
  put-All k a ((j, b) ∷ m) h (hb, hs) = elim (Bool-cases (j == k)) [
    | inl e ↦ rw e (h, hs)
    | inr e ↦ rw e (hb, put-All k a m h hs)
  ]

  pub delete-All : (k : Text) (m : Dict Text A) → All (λ p. P p.1) m → All (λ p. P p.1) (delete k m)
  unfolding delete
  delete-All k [] hs = tt
  delete-All k ((j, b) ∷ m) (hb, hs) = elim (Bool-cases (j == k)) [
    | inl e ↦ rw e (delete-All k m hs)
    | inr e ↦ rw e (hb, delete-All k m hs)
  ]

pub not_found-ne : (t : Text) → not_found t ≢ panicked
not_found-ne t e = cc

found-Keeps :
    (id : Text) (o : Option Volume) (s : VfsState)
    → IsWellAttached s
    → OfSome IsAttachedVolume o
    → IsWellAttached (found id o s).1 × Safe IsAttachedVolume (found id o s).0
found-Keeps id none s w h = (w, not_found-ne id)
found-Keeps id (some v) s w h = (w, h)

pub get_volume_by_id-Keeps : (id : Text) → Keeps IsAttachedVolume (get_volume_by_id id)
unfolding get_volume_by_id
get_volume_by_id-Keeps id s w =
    found-Keeps id (get s.volumes id) s w (get-OfSome IsAttachedVolume s.volumes id w)

-- The files that cannot be created give errors, not panics.
abbrev pub FailsByError : Environment → Type 0
FailsByError e = (id : Text) → e.create_error id ≢ some panicked

pub write_volume-Keeps :
    (e : Environment) (v : Volume)
    → FailsByError e
    → IsAttachedVolume v
    → Keeps (λ u. Unit {0}) (write_volume e v)
unfolding write_volume written
write_volume-Keeps e v fails h s w = go (e.create_error v.id) refl
  where
    go :
        (o : Option Error)
        → e.create_error v.id ≡ o
        → let r = write_volume e v s in IsWellAttached r.1 × Safe (λ u. Unit {0}) r.0
    go none eq = rw eq (put-All IsAttachedVolume v.id v s.volumes h w, tt)
    go (some x) eq = rw eq (w, λ same. fails v.id (eq ∙ ap some same))

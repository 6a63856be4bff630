-- ===== src/Base/Order.antt =====
-- The order of Go's strings, and sort.Sort by a key: an insertion sort, which may differ from
-- the library's only in the order of elements with one key.
use mathlib.Core.Path.{◌≡◌, refl, ap, ◌∙◌}
use mathlib.Core.Logic.{inl, inr}
use mathlib.Core.Bool.{Bool, true, false, ◌&&◌, ◌||◌}
use mathlib.Core.List.{List, [], ◌∷◌, Perm}
use mathlib.Core.List.Perm
use native.Mathlib.Omega.{arith}
use libstorage.Base.Tests.{ltb, nat_beq, if◌then◌else◌, Bool-cases}
use libstorage.Base.Texts.{Text}

unfoldable pub text_leb : Text → Text → Bool
text_leb [] t = true
text_leb (a ∷ s) [] = false
text_leb (a ∷ s) (b ∷ t) = ltb a b || (nat_beq a b && text_leb s t)

text_leb_total : (s t : Text) → text_leb s t ≡ false → text_leb t s ≡ true
unfolding text_leb
text_leb_total [] t h = ground arith
text_leb_total (a ∷ s) [] h = refl
text_leb_total (a ∷ s) (b ∷ t) h = ground (arith, text_leb_total s t)

module _ {A : Type 0} (key : A → Text) where
  insert : A → List A → List A
  insert x [] = x ∷ []
  insert x (y ∷ ys) =
      let rest = insert x ys in if text_leb (key x) (key y) then x ∷ y ∷ ys else y ∷ rest

  unfoldable pub sort_by : List A → List A
  unfolding insert text_leb
  sort_by [] = []
  sort_by (x ∷ xs) = insert x (sort_by xs)

  abbrev IsHead : A → List A → Type 0
  IsHead x [] = Unit
  IsHead x (y ∷ ys) = text_leb (key x) (key y) ≡ true

  -- Each element's key is at most the next one's.
  abbrev pub IsSorted : List A → Type 0
  IsSorted [] = Unit
  IsSorted (x ∷ xs) = IsHead x xs × IsSorted xs

  insert-IsHead :
      (x y : A) (ys : List A)
      → text_leb (key y) (key x) ≡ true
      → IsHead y ys
      → IsHead y (insert x ys)
  unfolding insert
  insert-IsHead x y [] le h = le
  insert-IsHead x y (z ∷ zs) le h = elim (Bool-cases (text_leb (key x) (key z))) [
    | inl e ↦ rw e le
    | inr e ↦ rw e h
  ]

  insert-IsSorted : (x : A) (ys : List A) → IsSorted ys → IsSorted (insert x ys)
  unfolding insert
  insert-IsSorted x [] h = (tt, tt)
  insert-IsSorted x (y ∷ ys) h = elim (Bool-cases (text_leb (key x) (key y))) [
    | inl e ↦ rw e (e, h)
    | inr e ↦
        rw e (insert-IsHead x y ys (text_leb_total (key x) (key y) e) h.0, insert-IsSorted x ys h.1)
  ]

  pub sort_by-IsSorted : (xs : List A) → IsSorted (sort_by xs)
  unfolding sort_by
  sort_by-IsSorted [] = tt
  sort_by-IsSorted (x ∷ xs) = insert-IsSorted x (sort_by xs) (sort_by-IsSorted xs)

  insert-Perm : (x : A) (ys : List A) → Perm (insert x ys) (x ∷ ys)
  unfolding insert
  insert-Perm x [] = Perm.refl (x ∷ [])
  insert-Perm x (y ∷ ys) = elim (Bool-cases (text_leb (key x) (key y))) [
    | inl e ↦ rw e (Perm.refl (x ∷ y ∷ ys))
    | inr e ↦ rw e (Perm.trans (Perm.cons y (insert-Perm x ys)) (Perm.swap x y ys))
  ]

  pub sort_by-Perm : (xs : List A) → Perm (sort_by xs) xs
  unfolding sort_by
  sort_by-Perm [] = Perm.refl []
  sort_by-Perm (x ∷ xs) = Perm.trans (insert-Perm x (sort_by xs)) (Perm.cons x (sort_by-Perm xs))

  insert_first : (x : A) (ys : List A) → IsHead x ys → insert x ys ≡ x ∷ ys
  unfolding insert
  insert_first x [] h = refl
  insert_first x (y ∷ ys) h = rw h

  -- What is in order stays as it is.
  pub sort_by-sorted : (xs : List A) → IsSorted xs → sort_by xs ≡ xs
  unfolding sort_by
  sort_by-sorted [] h = refl
  sort_by-sorted (x ∷ xs) h = ap (insert x) (sort_by-sorted xs h.1) ∙ insert_first x xs h.0

-- ===== src/Base/Lists.antt =====
-- Lists measured and indexed by native numbers, and a predicate on all elements.
use Prim.Native.Nat.{ℕ, zero, suc, ◌+◌}
use mathlib.Core.Path.{◌≡◌, refl, sym, ◌∙◌}
use mathlib.Core.List.{List, [], ◌∷◌, ◌++◌, append_assoc}
use mathlib.Core.Option.{Option, none, some}
use mathlib.Core.Logic.{◌⊎◌}
use native.Mathlib.Omega.{arith}

module _ {ℓ} {A : Type ℓ} where
  abbrev pub length : List A → ℕ
  length [] = 0
  length (x ∷ xs) = suc (length xs)

  abbrev pub get_elem? : List A → ℕ → Option A
  get_elem? [] i = none
  get_elem? (x ∷ xs) zero = some x
  get_elem? (x ∷ xs) (suc i) = get_elem? xs i

  abbrev pub drop : ℕ → List A → List A
  drop zero xs = xs
  drop (suc n) [] = []
  drop (suc n) (x ∷ xs) = drop n xs

  pub length-append : (xs ys : List A) → length (xs ++ ys) ≡ length xs + length ys
  length-append [] ys = omega arith
  length-append (x ∷ xs) ys = omega (arith, length-append xs ys)

-- A predicate by recursion computes to tuples, which the tactics read and build.
abbrev pub All {ℓ κ} : {A : Type ℓ} → (A → Type κ) → List A → Type κ
All P [] = Unit
All P (x ∷ xs) = P x × All P xs

-- `x` stands in the list; the place is kept.
abbrev pub In : {A : Type 0} → A → List A → Type 0
In a [] = ⊥
In a (x ∷ xs) = (x ≡ a) ⊎ In a xs

module _ {ℓ} {A : Type ℓ} where
  pub drop-length : (xs ys : List A) → drop (length xs) (xs ++ ys) ≡ ys
  drop-length [] ys = refl
  drop-length (x ∷ xs) ys = drop-length xs ys

  pub get_elem?-length : (xs ys : List A) → get_elem? (xs ++ ys) (length xs) ≡ get_elem? ys 0
  get_elem?-length [] ys = refl
  get_elem?-length (x ∷ xs) ys = get_elem?-length xs ys

-- All elements of a list and of one more.
pub All-append {ℓ κ} :
    {A : Type ℓ} (P : A → Type κ) (xs ys : List A) → All P xs → All P ys → All P (xs ++ ys)
All-append P [] ys hx hy = hy
All-append P (x ∷ xs) ys (h, hx) hy = (h, All-append P xs ys hx hy)

-- `t` stands in `s` from the place `pos` on.
pub record IsAt {ℓ} {A : Type ℓ} (s : List A) (pos : ℕ) (t : List A) : Type ℓ where
  pub before : List A
  pub whole : s ≡ before ++ t
  pub place : pos ≡ length before

module _ {ℓ} {A : Type ℓ} {s : List A} {pos : ℕ} where
  pub IsAt-append : (u v : List A) → IsAt s pos (u ++ v) → IsAt s (pos + length u) v
  IsAt-append u v h = record {
    before = h.before ++ u;
    whole = h.whole ∙ sym (append_assoc h.before u v);
    place = omega (arith, length-append h.before u, h.place);
  }

  pub IsAt-cons : (x : A) (v : List A) → IsAt s pos (x ∷ v) → IsAt s (pos + 1) v
  IsAt-cons x v h = IsAt-append (x ∷ []) v h

  pub drop-IsAt : {t : List A} → IsAt s pos t → drop pos s ≡ t
  drop-IsAt {t} h = rw (h.whole, h.place) (drop-length h.before t)

  pub get_elem?-IsAt : {x : A} {v : List A} → IsAt s pos (x ∷ v) → get_elem? s pos ≡ some x
  get_elem?-IsAt {x} {v} h = rw (h.whole, h.place) (get_elem?-length h.before (x ∷ v))

  pub length-IsAt : {t : List A} → IsAt s pos t → length s ≡ pos + length t
  length-IsAt {t} h = rw (h.whole, h.place) (length-append h.before t)

-- ===== src/Base/Split.antt =====
-- strings.Split by a separator of one byte, strings.Join, strings.Fields for ASCII, strings.Index,
-- and bytes.Equal of the start of a text.
use mathlib.Core.Path.{◌≡◌, refl, sym, ap, ◌∙◌}
use mathlib.Core.Logic.{inl, inr}
use mathlib.Core.Bool.{Bool, true, false, ◌&&◌, ◌||◌}
use mathlib.Core.Option.{Option, none, some}
use mathlib.Core.List.{List, [], ◌∷◌, ◌++◌}
use Prim.Native.Nat.{ℕ, suc}
use libstorage.Base.Tests.{leb, nat_beq, nat_beq_iff, if◌then◌else◌, Bool-cases}
use libstorage.Base.Texts.{Text}
use libstorage.Base.Lists.{All}

abbrev pub on_first : ℕ → List Text → List Text
on_first c [] = (c ∷ []) ∷ []
on_first c (w ∷ ws) = (c ∷ w) ∷ ws

-- The pieces between the bytes that satisfy the test.
unfoldable pub split_at : (ℕ → Bool) → Text → List Text
split_at sep [] = [] ∷ []
split_at sep (c ∷ s) = let rest = split_at sep s in if sep c then [] ∷ rest else on_first c rest

unfoldable pub split : ℕ → Text → List Text
unfolding split_at
split c s = split_at (nat_beq c) s

unfoldable pub join : ℕ → List Text → Text
join c [] = []
join c (w ∷ []) = w
join c (w ∷ v ∷ ws) = w ++ c ∷ join c (v ∷ ws)

abbrev not_empty : List Text → List Text
not_empty [] = []
not_empty ([] ∷ ws) = not_empty ws
not_empty ((c ∷ w) ∷ ws) = (c ∷ w) ∷ not_empty ws

abbrev pub is_space : ℕ → Bool
is_space c = nat_beq c 32 || (leb 9 c && leb c 13)

unfoldable pub fields : Text → List Text
unfolding split_at
fields s = not_empty (split_at is_space s)

unfoldable pub is_prefix : Text → Text → Bool
is_prefix [] s = true
is_prefix (a ∷ p) [] = false
is_prefix (a ∷ p) (b ∷ s) = nat_beq a b && is_prefix p s

abbrev next_place : Option ℕ → Option ℕ
next_place none = none
next_place (some i) = some (suc i)

-- The first place of a text that is not empty.
unfoldable pub index_of : Text → Text → Option ℕ
unfolding is_prefix
index_of p [] = none
index_of p (c ∷ s) =
    let rest = index_of p s in if is_prefix p (c ∷ s) then some 0 else next_place rest

split-cons : (sep : ℕ → Bool) (s : Text) → (w : Text) × (ws : List Text) × (split_at sep s ≡ w ∷ ws)
unfolding split_at
split-cons sep [] = ([], [], refl)
split-cons sep (c ∷ s) = elim (Bool-cases (sep c)) [
  | inl e ↦ rw e ([], split_at sep s, refl)
  | inr e ↦ let h = split-cons sep s in rw (e, h.2) (c ∷ h.0, h.1, refl)
]

join-on_first :
    (sep c : ℕ) (w : Text) (ws : List Text) → join sep ((c ∷ w) ∷ ws) ≡ c ∷ join sep (w ∷ ws)
unfolding join
join-on_first sep c w [] = refl
join-on_first sep c w (v ∷ vs) = refl

pub join-split : (c : ℕ) (s : Text) → join c (split c s) ≡ s
unfolding split split_at join
join-split c [] = refl
join-split c (a ∷ s) =
    let cut = split-cons (nat_beq c) s in
    let whole : join c (cut.0 ∷ cut.1) ≡ s = ap (join c) (sym cut.2) ∙ join-split c s in
    elim (Bool-cases (nat_beq c a)) [
      | inl e ↦ rw (e, cut.2, whole) (ap (λ b. b ∷ s) ((nat_beq_iff c a).0 e))
      | inr e ↦ rw (e, cut.2) (join-on_first c a cut.0 cut.1 ∙ ap (λ t. a ∷ t) whole)
    ]

-- A word without separators is one part, and ends before a separator.
pub split_at-word :
    (sep : ℕ → Bool) (w : Text) → All (λ c. sep c ≡ false) w → split_at sep w ≡ w ∷ []
unfolding split_at
split_at-word sep [] h = refl
split_at-word sep (c ∷ w) h = rw (h.0, split_at-word sep w h.1)

pub split_at-separator :
    (sep : ℕ → Bool) (w : Text) (x : ℕ) (s : Text)
    → All (λ c. sep c ≡ false) w
    → sep x ≡ true
    → split_at sep (w ++ x ∷ s) ≡ w ∷ split_at sep s
unfolding split_at
split_at-separator sep [] x s h e = rw e
split_at-separator sep (c ∷ w) x s h e = rw (h.0, split_at-separator sep w x s h.1 e)

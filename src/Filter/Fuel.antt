-- ===== src/Filter/Fuel.antt =====
-- The compiler of api/utils/filters/filters.go ends: it moves forward at each step, so that the fuel
-- that `compile` gives is enough.
use libstorage.Base.{
  ℕ, zero, suc, ◌+◌, ◌<◌, ◌≡◌, ◌≢◌, ◌∷◌, ◌++◌, [], Bool, true, false, Option, none, some, Text,
  Result, ok, err, length, get_elem?, drop, arith, refl, ap,
}
use libstorage.Filter.{
  Move, close, content, left, overrun, single, pair, past_paren, compound, complement, prepend,
  set_end, Filter, Filters, FilterOperator, Failure, Opening, beyond, group, all, any, negated,
  item, error, panic, out_of_fuel, opening, compile_item, compile_filter, compile_filter_set,
  finish, move, whole, compile_unescaped, compile, compile_escaped, query_unescape,
}

abbrev pub spent : Failure → Bool
spent out_of_fuel = true
spent (error t) = false
spent panic = false

-- The run moved forward, and it did not stop for want of fuel.
abbrev Moves {ℓ} : {A : Type ℓ} → ℕ → Result Failure (A × ℕ) → Type 0
Moves pos (ok (a, p)) = pos < p
Moves pos (err e) = spent e ≡ false

Moves-weaken {ℓ} :
    {A : Type ℓ} (p q : ℕ) (r : Result Failure (A × ℕ)) → p < q → Moves q r → Moves p r
Moves-weaken p q (ok (a, k)) h m = omega arith
Moves-weaken p q (err e) h m = m

finish-Moves : (f : Option FilterOperator) (l r : Text) (pos : ℕ) → Moves pos (finish f l r pos)
unfolding finish
finish-Moves none l r pos = refl
finish-Moves (some o) l [] pos = refl
finish-Moves (some o) l (c ∷ s) pos = omega arith

item-Moves :
    (s : Text) (pos : ℕ) (f : Option FilterOperator) (l r : Text)
    → Moves pos (compile_item s pos f l r)
unfolding compile_item
item-Moves [] pos f l r = refl
item-Moves (c ∷ []) pos f l r = go (move f c none) refl
  where
    go : (m : Move) → move f c none ≡ m → Moves pos (compile_item (c ∷ []) pos f l r)
    go close e = rw (e, compile_item) (finish-Moves f l r pos)
    go content e = rw (e, compile_item) refl
    go left e = rw (e, compile_item) refl
    go overrun e = rw (e, compile_item) refl
    go (single o) e = rw (e, compile_item) refl
    go (pair o) e = rw (e, compile_item) refl
item-Moves (c ∷ d ∷ s) pos f l r =
    go (move f c (some d)) refl (item-Moves (d ∷ s) (pos + 1)) (item-Moves s (pos + 2))
  where
    go :
        (m : Move)
        → move f c (some d) ≡ m
        → ((f : Option FilterOperator) (l r : Text)
            → Moves (pos + 1) (compile_item (d ∷ s) (pos + 1) f l r))
        → ((f : Option FilterOperator) (l r : Text)
            → Moves (pos + 2) (compile_item s (pos + 2) f l r))
        → Moves pos (compile_item (c ∷ d ∷ s) pos f l r)
    go close e h1 h2 = rw (e, compile_item) (finish-Moves f l r pos)
    go content e h1 h2 =
        rw (e, compile_item) (Moves-weaken pos (pos + 1) _ (omega arith) (h1 f l (r ++ c ∷ [])))
    go left e h1 h2 =
        rw (e, compile_item) (Moves-weaken pos (pos + 1) _ (omega arith) (h1 f (l ++ c ∷ []) r))
    go overrun e h1 h2 = rw (e, compile_item) refl
    go (single o) e h1 h2 =
        rw (e, compile_item) (Moves-weaken pos (pos + 1) _ (omega arith) (h1 (some o) l r))
    go (pair o) e h1 h2 =
        rw (e, compile_item) (Moves-weaken pos (pos + 2) _ (omega arith) (h2 (some o) l r))

-- An opening other than `beyond` is inside the text.
opening-lt :
    (s : Text) (pos : ℕ) (o : Opening) → opening (get_elem? s pos) ≡ o → o ≢ beyond → pos < length s
unfolding opening
opening-lt [] pos o e h = ground arith
opening-lt (c ∷ s) zero o e h = omega arith
opening-lt (c ∷ s) (suc pos) o e h = omega (arith, opening-lt s pos o e h)

past_paren-Moves :
    (pos : ℕ) (r : Result Failure (Filter × ℕ)) → Moves (pos + 1) r → Moves pos (past_paren r)
past_paren-Moves pos (ok (f, p)) h = omega arith
past_paren-Moves pos (err e) h = h

compound-Moves :
    (pos : ℕ) (o : FilterOperator) (r : Result Failure (Filters × ℕ))
    → Moves (pos + 1) r
    → Moves pos (compound o r)
compound-Moves pos o (ok (f, p)) h = omega arith
compound-Moves pos o (err e) h = h

complement-Moves :
    (pos : ℕ) (r : Result Failure (Filter × ℕ)) → Moves (pos + 1) r → Moves pos (complement r)
complement-Moves pos (ok (f, p)) h = omega arith
complement-Moves pos (err e) h = h

prepend-Moves :
    (pos q : ℕ) (f : Filter) (r : Result Failure (Filters × ℕ))
    → pos < q
    → Moves q r
    → Moves pos (prepend f r)
prepend-Moves pos q f (ok (fs, p)) lt h = omega arith
prepend-Moves pos q f (err e) lt h = h

set_end-Moves : (s : Text) (pos : ℕ) → Moves pos (set_end s pos)
set_end-Moves s pos = ground arith

module _ (s : Text) where
  -- The fuel covers what is left of the text.
  abbrev Covers : ℕ → ℕ → Type 0
  Covers fuel pos = (0 < fuel) × (length s < pos + fuel)

  module _ (fuel : ℕ) (ih : (pos : ℕ) → Covers fuel pos → Moves pos (compile_filter fuel s pos))
      (ihs : (pos : ℕ) → Covers fuel pos → Moves pos (compile_filter_set fuel s pos)) where
    next-Covers :
        (pos : ℕ) (o : Opening)
        → opening (get_elem? s pos) ≡ o
        → o ≢ beyond
        → Covers (suc fuel) pos
        → Covers fuel (pos + 1)
    next-Covers pos o e ne h = omega (arith, opening-lt s pos o e ne)

    filter_step : (pos : ℕ) → Covers (suc fuel) pos → Moves pos (compile_filter (suc fuel) s pos)
    unfolding compile_filter
    filter_step pos h = go (opening (get_elem? s pos)) refl
      where
        go :
            (o : Opening)
            → opening (get_elem? s pos) ≡ o
            → Moves pos (compile_filter (suc fuel) s pos)
        go beyond e = rw (e, compile_filter) refl
        go group e =
            rw (e, compile_filter)
              (past_paren-Moves pos _ (ih (pos + 1) (next-Covers pos group e (cc) h)))
        go all e =
            rw (e, compile_filter)
              (compound-Moves pos _ _ (ihs (pos + 1) (next-Covers pos all e (cc) h)))
        go any e =
            rw (e, compile_filter)
              (compound-Moves pos _ _ (ihs (pos + 1) (next-Covers pos any e (cc) h)))
        go negated e =
            rw (e, compile_filter)
              (complement-Moves pos _ (ih (pos + 1) (next-Covers pos negated e (cc) h)))
        go item e = rw (e, compile_filter) (item-Moves (drop pos s) pos none [] [])

    child_step :
        (pos : ℕ)
        → Covers fuel (pos + 1)
        → (r : Result Failure (Filter × ℕ)) → Moves (pos + 1) r
        → Moves pos (elim r as (λ x. Result Failure (Filters × ℕ)) [
          | ok child ↦ prepend child.0 (compile_filter_set fuel s child.1)
          | err e ↦ err e
        ])
    child_step pos h (ok (f, p)) m = prepend-Moves pos p f _ (omega arith) (ihs p (omega arith))
    child_step pos h (err e) m = m

    set_step : (pos : ℕ) → Covers (suc fuel) pos → Moves pos (compile_filter_set (suc fuel) s pos)
    unfolding compile_filter_set
    set_step pos h = go (opening (get_elem? s pos)) refl
      where
        go :
            (o : Opening)
            → opening (get_elem? s pos) ≡ o
            → Moves pos (compile_filter_set (suc fuel) s pos)
        go group e =
            let below = next-Covers pos group e (cc) h in
            rw (e, compile_filter_set) (child_step pos below _ (ih (pos + 1) below))
        go _ e = rw (e, compile_filter_set) (set_end-Moves s pos)

mutual
  filter-Moves :
      (s : Text) (fuel pos : ℕ) → Covers s fuel pos → Moves pos (compile_filter fuel s pos)
  filter-Moves s zero pos h = absurd (omega arith)
  filter-Moves s (suc fuel) pos h =
      filter_step s fuel (filter-Moves s fuel) (set-Moves s fuel) pos h

  set-Moves :
      (s : Text) (fuel pos : ℕ) → Covers s fuel pos → Moves pos (compile_filter_set fuel s pos)
  set-Moves s zero pos h = absurd (omega arith)
  set-Moves s (suc fuel) pos h = set_step s fuel (filter-Moves s fuel) (set-Moves s fuel) pos h

-- Within the fuel that `compile` gives, the compiler of a whole text does not run out of fuel.
abbrev is_spent : Result Failure Filter → Bool
is_spent (ok f) = false
is_spent (err e) = spent e

whole-spent :
    (s : Text) (p : ℕ) (r : Result Failure (Filter × ℕ)) → Moves p r → is_spent (whole s r) ≡ false
whole-spent s p (ok (f, q)) h = ground arith
whole-spent s p (err e) h = h

compile_unescaped-spent : (s : Text) → is_spent (compile_unescaped s) ≡ false
unfolding compile_unescaped
compile_unescaped-spent [] = refl
compile_unescaped-spent (c ∷ s) =
    ground
      (arith, whole-spent (c ∷ s) 1 _ (filter-Moves (c ∷ s) (suc (length (c ∷ s))) 1 (omega arith)))

compile_escaped-spent : (o : Option Text) → is_spent (compile_escaped o) ≡ false
unfolding compile_escaped
compile_escaped-spent none = refl
compile_escaped-spent (some s) = compile_unescaped-spent s

compile-compile_escaped : (t : Text) → compile t ≡ compile_escaped (query_unescape t)
unfolding compile
compile-compile_escaped t = refl

-- The compiler is total: for every text the model's fuel suffices, so that each run ends with a
-- filter, an error value or a panic.
pub compile-ne-out_of_fuel : (t : Text) → compile t ≢ err out_of_fuel
compile-ne-out_of_fuel t h = cc (
  ap is_spent h,
  ap is_spent (compile-compile_escaped t),
  compile_escaped-spent (query_unescape t),
)

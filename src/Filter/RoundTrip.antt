-- ===== src/Filter/RoundTrip.antt =====
-- The compiler of api/utils/filters/filters.go reads back the text of a filter.
use libstorage.Base.{
  ℕ, zero, suc, ◌+◌, ◌<◌, ◌≡◌, ◌≢◌, refl, ◌∙◌, ap, [], ◌∷◌, ◌++◌, append-nil, append_assoc, Text,
  All, none, some, ok, length, length-append, get_elem?, arith, IsAt, IsAt-append, IsAt-cons,
  drop-IsAt, get_elem?-IsAt, length-IsAt,
}
use libstorage.Filter.{
  Filter, Filters, filter, nil, cons, FilterOperator, filter_and, filter_or, filter_not,
  compile_item, compile_filter, compile_filter_set, compile_unescaped, opening, group, all, any,
  negated, item, Opening, compound, prepend, set_end,
}
use libstorage.Filter.Printer.{
  body, bodies, print, written, IsPrintable, ArePrintable, IsPlain, IsSingle, IsLeft, IsOperand,
}
use libstorage.Filter.Items.{left_loop}
use libstorage.Filter.Operands.{compile_item-written}

-- What the compiler owes for a filter, with enough fuel, wherever its text stands.
abbrev pub ReadsBack : Filter → Type 0
ReadsBack f =
    (fuel pos : ℕ) (s rest : Text)
    → length (body f) < fuel
    → IsAt s pos (body f ++ rest)
    → compile_filter fuel s pos ≡ ok (f, pos + length (body f))

-- The same for the children of a set, whatever byte but an opening parenthesis ends it.
abbrev pub ReadBack : Filters → Type 0
ReadBack fs =
    (c : ℕ)
    → c ≢ b'('
    → (fuel pos : ℕ) (s rest : Text) → length (bodies fs) < fuel
    → IsAt s pos (bodies fs ++ c ∷ rest)
    → compile_filter_set fuel s pos ≡ ok (fs, pos + length (bodies fs) + 1)

pub opening-IsAt :
    {s : Text} {pos c : ℕ} {t : Text}
    → IsAt s pos (c ∷ t)
    → opening (get_elem? s pos) ≡ opening (some c)
opening-IsAt h = ap opening (get_elem?-IsAt h)

set_end-IsAt :
    {s : Text} {pos c : ℕ} {t : Text} → IsAt s pos (c ∷ t) → set_end s pos ≡ ok (nil, pos + 1)
set_end-IsAt h = ground (arith, length-IsAt h)

set_step :
    (fuel : ℕ) (s : Text) (pos : ℕ) (o : Opening)
    → opening (get_elem? s pos) ≡ o
    → o ≢ group
    → compile_filter_set (suc fuel) s pos ≡ set_end s pos
unfolding compile_filter_set
set_step fuel s pos group e ne = absurd (ne refl)
set_step fuel s pos _ e ne = rw (e, compile_filter_set) refl

nil-ReadBack : ReadBack nil
unfolding bodies
nil-ReadBack c ne zero pos s rest lt h = absurd (omega arith)
nil-ReadBack c ne (suc fuel) pos s rest lt h =
    set_step fuel s pos (opening (some c)) (opening-IsAt h) (unfold opening in ground arith)
    ∙ set_end-IsAt h
    ∙ ap (λ (k : ℕ). ok (nil, k)) (omega arith)

module _ (fuel : ℕ) (s : Text) (pos p : ℕ) (f : Filter) where
  child_step :
      opening (get_elem? s pos) ≡ group
      → compile_filter fuel s (pos + 1) ≡ ok (f, p)
      → compile_filter_set (suc fuel) s pos ≡ prepend f (compile_filter_set fuel s p)
  unfolding compile_filter_set
  child_step at_group child = rw (at_group, child, compile_filter_set) refl

  pub group_step :
      opening (get_elem? s pos) ≡ group
      → compile_filter fuel s (pos + 1) ≡ ok (f, p)
      → compile_filter (suc fuel) s pos ≡ ok (f, p + 1)
  unfolding compile_filter
  group_step at_group child = rw (at_group, child, compile_filter) refl

  negated_step :
      opening (get_elem? s pos) ≡ negated
      → compile_filter fuel s (pos + 1) ≡ ok (f, p)
      → compile_filter (suc fuel) s pos ≡ ok (filter filter_not (cons f nil) [] [], p)
  unfolding compile_filter
  negated_step at_negated child = rw (at_negated, child, compile_filter) refl

cons-ReadBack : (f : Filter) (fs : Filters) → ReadsBack f → ReadBack fs → ReadBack (cons f fs)
unfolding bodies
cons-ReadBack f fs rf rfs c ne zero pos s rest lt h = absurd (omega arith)
cons-ReadBack f fs rf rfs c ne (suc fuel) pos s rest lt h =
    child_step fuel s pos (pos + 1 + length (body f)) f (unfold opening in opening-IsAt h)
      (rf fuel (pos + 1) s _ (omega (arith, sizes)) inner)
    ∙ ap (prepend f) (rfs c ne fuel _ s rest (omega (arith, sizes)) (IsAt-append (body f) _ inner))
    ∙ ap (λ (k : ℕ). ok (cons f fs, k)) (omega (arith, sizes))
  where
    sizes : length (body f ++ bodies fs) ≡ length (body f) + length (bodies fs)
    sizes = length-append (body f) (bodies fs)

    inner : IsAt s (pos + 1) (body f ++ (bodies fs ++ c ∷ rest))
    inner = rw append_assoc at (IsAt-cons b'(' _ h)

append_cons-ne-nil : (u : Text) (x : ℕ) (v : Text) → u ++ x ∷ v ≢ []
append_cons-ne-nil [] x v e = cc
append_cons-ne-nil (c ∷ u) x v e = cc

pub left_any :
    (pos : ℕ) (n v : Text)
    → All IsPlain n
    → v ≢ []
    → compile_item (n ++ v) pos none [] [] ≡ compile_item v (pos + length n) none n []
left_any pos n [] h ne = absurd (ne refl)
left_any pos n (x ∷ v) h ne = left_loop pos [] [] n x v h

leaf_text : (l w rest : Text) → (l ++ w ++ b')' ∷ []) ++ rest ≡ l ++ (w ++ b')' ∷ rest)
leaf_text l w rest = simp append_assoc

leaf-ReadsBack :
    (o : FilterOperator) (l r : Text)
    → IsLeft l
    → IsOperand o r
    → body (filter o nil l r) ≡ l ++ written o r ++ b')' ∷ []
    → ReadsBack (filter o nil l r)
unfolding compile_filter
leaf-ReadsBack o [] r hl hr e fuel pos s rest lt h = absurd hl
leaf-ReadsBack o (c ∷ n) r hl hr e zero pos s rest lt h = absurd (omega arith)
leaf-ReadsBack o (c ∷ n) r hl hr e (suc fuel) pos s rest lt h =
    rw (at_item, compile_filter)
      (ap (λ t. compile_item t pos none [] []) (drop-IsAt text)
        ∙ left_any pos (c ∷ n) _ (hl.4, hl.5) (append_cons-ne-nil (written o r) b')' rest)
        ∙ compile_item-written (pos + length (c ∷ n)) (c ∷ n) rest o r hr
        ∙ ap (λ (k : ℕ). ok (filter o nil (c ∷ n) r, k)) (omega (arith, size)))
  where
    text : IsAt s pos (c ∷ n ++ (written o r ++ b')' ∷ rest))
    text = rw (e, leaf_text (c ∷ n) (written o r) rest) at h

    at_item : opening (get_elem? s pos) ≡ item
    at_item = opening-IsAt text ∙ (unfold opening in ground arith)

    size : length (body (filter o nil (c ∷ n) r)) ≡ length (c ∷ n) + length (written o r) + 1
    size =
        ap length e
        ∙ length-append (c ∷ n ++ written o r) (b')' ∷ [])
        ∙ omega (arith, length-append (c ∷ n) (written o r))

module _ (fs : Filters) (rfs : ReadBack fs) where
  set_text : (rest : Text) → (bodies fs ++ b')' ∷ []) ++ rest ≡ bodies fs ++ b')' ∷ rest
  set_text rest = simp append_assoc

  set_size : length (bodies fs ++ b')' ∷ []) ≡ length (bodies fs) + 1
  set_size = length-append (bodies fs) (b')' ∷ [])

  set-ReadsBack :
      (c : ℕ) (o : FilterOperator) (at : Opening)
      → opening (some c) ≡ at
      → ((fuel : ℕ) (s : Text) (pos : ℕ)
          → opening (get_elem? s pos) ≡ at
          → compile_filter (suc fuel) s pos ≡ compound o (compile_filter_set fuel s (pos + 1)))
      → body (filter o fs [] []) ≡ c ∷ (bodies fs ++ b')' ∷ [])
      → ReadsBack (filter o fs [] [])
  set-ReadsBack c o at opens step e zero pos s rest lt h = absurd (omega arith)
  set-ReadsBack c o at opens step e (suc fuel) pos s rest lt h =
      step fuel s pos (opening-IsAt text ∙ opens)
      ∙ ap (compound o) (
          rfs b')' (omega arith) fuel (pos + 1) s rest (omega (arith, size, set_size))
            (rw set_text at (IsAt-cons c _ text)))
      ∙ ap (λ (k : ℕ). ok (filter o fs [] [], k)) (omega (arith, size, set_size))
    where
      text : IsAt s pos (c ∷ ((bodies fs ++ b')' ∷ []) ++ rest))
      text = rw e at h

      size : length (body (filter o fs [] [])) ≡ suc (length (bodies fs ++ b')' ∷ []))
      size = ap length e

and-ReadsBack : (fs : Filters) → ReadBack fs → ReadsBack (filter filter_and fs [] [])
and-ReadsBack fs rfs =
    set-ReadsBack fs rfs b'&' filter_and all (unfold opening in refl)
      (λ fuel s pos e. unfold compile_filter in rw (e, compile_filter) refl) (unfold body in refl)

or-ReadsBack : (fs : Filters) → ReadBack fs → ReadsBack (filter filter_or fs [] [])
or-ReadsBack fs rfs =
    set-ReadsBack fs rfs b'|' filter_or any (unfold opening in refl)
      (λ fuel s pos e. unfold compile_filter in rw (e, compile_filter) refl) (unfold body in refl)

not-ReadsBack : (f : Filter) → ReadsBack f → ReadsBack (filter filter_not (cons f nil) [] [])
unfolding body bodies
not-ReadsBack f rf zero pos s rest lt h = absurd (omega arith)
not-ReadsBack f rf (suc zero) pos s rest lt h =
    absurd (omega (arith, length-append (b'(' ∷ body f ++ []) (b')' ∷ [])))
not-ReadsBack f rf (suc (suc fuel)) pos s rest lt h =
    negated_step (suc fuel) s pos (pos + 1 + 1 + length (body f) + 1) f
      (opening-IsAt text ∙ (unfold opening in refl))
      (group_step fuel s (pos + 1) (pos + 1 + 1 + length (body f)) f
        (opening-IsAt (IsAt-cons b'!' _ text) ∙ (unfold opening in refl))
        (rf fuel (pos + 1 + 1) s _ (omega (arith, size))
          (IsAt-cons b'(' _ (IsAt-cons b'!' _ text))))
    ∙ ap (λ (k : ℕ). ok (filter filter_not (cons f nil) [] [], k)) (omega (arith, size))
  where
    regroup : ((body f ++ []) ++ b')' ∷ []) ++ rest ≡ body f ++ b')' ∷ rest
    regroup = simp (append_assoc, append-nil)

    text : IsAt s pos (b'!' ∷ b'(' ∷ (body f ++ b')' ∷ rest))
    text = rw regroup at h

    size : length ((body f ++ []) ++ b')' ∷ []) ≡ length (body f) + 1
    size = rw append-nil (length-append (body f) (b')' ∷ []))

abbrev EachReadsBack : Filters → Type 0
EachReadsBack nil = Unit
EachReadsBack (cons f fs) = ReadsBack f × EachReadsBack fs

each-ReadBack : (fs : Filters) → EachReadsBack fs → ReadBack fs
each-ReadBack nil h = nil-ReadBack
each-ReadBack (cons f fs) (h, hs) = cons-ReadBack f fs h (each-ReadBack fs hs)

single-ReadsBack :
    (fs : Filters) → IsSingle fs → EachReadsBack fs → ReadsBack (filter filter_not fs [] [])
single-ReadsBack nil one h = absurd one
single-ReadsBack (cons f nil) one h = not-ReadsBack f h.0
single-ReadsBack (cons f (cons g fs)) one h = absurd one

body-leaf :
    (o : FilterOperator) (l r : Text)
    → IsOperand o r
    → body (filter o nil l r) ≡ l ++ written o r ++ b')' ∷ []
unfolding body
body-leaf filter_and l r h = absurd h
body-leaf filter_or l r h = absurd h
body-leaf filter_not l r h = absurd h
body-leaf _ l r h = refl

mutual
  pub filter-ReadsBack : (f : Filter) → IsPrintable f → ReadsBack f
  filter-ReadsBack (filter filter_and fs l r) (el, er, h) =
      rw (el, er) (and-ReadsBack fs (each-ReadBack fs (filters-EachReadsBack fs h)))
  filter-ReadsBack (filter filter_or fs l r) (el, er, h) =
      rw (el, er) (or-ReadsBack fs (each-ReadBack fs (filters-EachReadsBack fs h)))
  filter-ReadsBack (filter filter_not fs l r) (el, er, one, h) =
      rw (el, er) (single-ReadsBack fs one (filters-EachReadsBack fs h))
  filter-ReadsBack (filter o fs l r) h =
      rw (h.0) (leaf-ReadsBack o l r h.1 h.2 (body-leaf o l r h.2))

  filters-EachReadsBack : (fs : Filters) → ArePrintable fs → EachReadsBack fs
  filters-EachReadsBack nil h = tt
  filters-EachReadsBack (cons f fs) (h, hs) = (filter-ReadsBack f h, filters-EachReadsBack fs hs)

pub printable-ReadBack : (fs : Filters) → ArePrintable fs → ReadBack fs
printable-ReadBack fs h = each-ReadBack fs (filters-EachReadsBack fs h)

print-IsAt : (f : Filter) → IsAt (print f) 1 (body f ++ [])
unfolding print
print-IsAt f = record { before = b'(' ∷ []; whole = rw append-nil; place = refl }

-- Every printable filter is read back from its text: compiled, the text gives the filter.
pub compile_unescaped-print : (f : Filter) → IsPrintable f → compile_unescaped (print f) ≡ ok f
unfolding compile_unescaped print
compile_unescaped-print f h = ground (
  arith,
  filter-ReadsBack f h (suc (length (print f))) 1 (print f) [] (omega arith) (print-IsAt f),
)

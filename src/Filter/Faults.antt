-- ===== src/Filter/Faults.antt =====
-- Malformed texts and what the compiler of api/utils/filters/filters.go makes of them.
use libstorage.Base.{
  ℕ, suc, ◌≢◌, length-append, ◌+◌, ◌≡◌, refl, ◌∙◌, ap, [], ◌∷◌, ◌++◌, append-nil, Text, ok, err,
  length, get_elem?, arith, IsAt,
}
use libstorage.Filter.{
  Filter, Filters, filter, filter_and, all, compound, compile_item, compile_filter,
  compile_unescaped, opening, item, panic, whole, move, finish,
}
use libstorage.Filter.Printer.{body, bodies, ArePrintable, print, IsPrintable, IsLeft}
use libstorage.Filter.RoundTrip.{
  opening-IsAt, printable-ReadBack, group_step, filter-ReadsBack, left_any,
}

-- An equality with nothing behind its sign, such as `(name=)`, makes the compiler panic, for every
-- left operand: the last byte of the empty buffer is read.
empty_right_panics :
    (l : Text) → IsLeft l → compile_unescaped (b'(' ∷ l ++ b'=' ∷ b')' ∷ []) ≡ err panic
unfolding compile_unescaped
empty_right_panics [] h = absurd h
empty_right_panics (c ∷ n) h = ap (whole s) run
  where
    s : Text
    s = b'(' ∷ c ∷ n ++ b'=' ∷ b')' ∷ []

    text : IsAt s 1 (c ∷ n ++ b'=' ∷ b')' ∷ [])
    text = record { before = b'(' ∷ []; whole = refl; place = refl }

    at_item : opening (get_elem? s 1) ≡ item
    at_item = opening-IsAt text ∙ (unfold opening in ground arith)

    run : compile_filter (suc (length s)) s 1 ≡ err panic
    run =
        unfold compile_filter in
        rw (at_item, compile_filter)
          (left_any 1 (c ∷ n) (b'=' ∷ b')' ∷ []) (h.4, h.5) (cc)
            ∙ (unfold compile_item move finish in refl))

-- A text with one opening parenthesis too many, such as `((a=b)`, makes the compiler panic: the
-- position ends up behind the end of the text, and the slice for the error message is out of range.
open_group_panics : (f : Filter) → IsPrintable f → compile_unescaped (b'(' ∷ print f) ≡ err panic
unfolding compile_unescaped print
open_group_panics f h = ap (whole s) run ∙ ground arith
  where
    s : Text
    s = b'(' ∷ b'(' ∷ body f

    outer : IsAt s 1 (b'(' ∷ body f)
    outer = record { before = b'(' ∷ []; whole = refl; place = refl }

    inner : IsAt s 2 (body f ++ [])
    inner = record { before = b'(' ∷ b'(' ∷ []; whole = rw append-nil; place = refl }

    run : compile_filter (suc (length s)) s 1 ≡ ok (f, 2 + length (body f) + 1)
    run =
        group_step (length s) s 1 (2 + length (body f)) f
          (opening-IsAt outer ∙ (unfold opening in refl))
          (filter-ReadsBack f h (length s) 2 s [] (omega arith) inner)

-- The byte that ends a set is not looked at: with any byte but an opening parenthesis in the place
-- of its closing one, such as `x` in `(&(a=b)x`, the text of a conjunction compiles to that
-- conjunction.
set_end_unchecked :
    (fs : Filters) (c : ℕ)
    → ArePrintable fs
    → c ≢ b'('
    → compile_unescaped (b'(' ∷ b'&' ∷ bodies fs ++ c ∷ []) ≡ ok (filter filter_and fs [] [])
unfolding compile_unescaped
set_end_unchecked fs c h ne = ap (whole s) run ∙ ground (arith, size)
  where
    s : Text
    s = b'(' ∷ b'&' ∷ bodies fs ++ c ∷ []

    size : length (bodies fs ++ c ∷ []) ≡ length (bodies fs) + 1
    size = length-append (bodies fs) (c ∷ [])

    outer : IsAt s 1 (b'&' ∷ bodies fs ++ c ∷ [])
    outer = record { before = b'(' ∷ []; whole = refl; place = refl }

    inner : IsAt s 2 (bodies fs ++ c ∷ [])
    inner = record { before = b'(' ∷ b'&' ∷ []; whole = refl; place = refl }

    at_all : opening (get_elem? s 1) ≡ all
    at_all = opening-IsAt outer ∙ (unfold opening in refl)

    run :
        compile_filter (suc (length s)) s 1
        ≡ ok (filter filter_and fs [] [], 2 + length (bodies fs) + 1)
    run =
        unfold compile_filter in
        rw (at_all, compile_filter)
          (ap (compound filter_and)
            (printable-ReadBack fs h c ne (length s) 2 s [] (omega (arith, size)) inner))

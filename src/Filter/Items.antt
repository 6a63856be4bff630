-- ===== src/Filter/Items.antt =====
-- The loop over an item of api/utils/filters/filters.go, on the text of an item.
use libstorage.Base.{
  ℕ, ◌+◌, ◌≡◌, ◌≢◌, refl, ◌∙◌, ap, [], ◌∷◌, ◌++◌, append-nil, append_assoc, Text, All, none, some,
  length, length-append, arith,
}
use native.Mathlib.Nat.{add-zero}
use mathlib.Core.Path.{ap₂}
use libstorage.Filter.{
  FilterOperator, filter_equality_match, filter_substrings, filter_substrings_prefix,
  filter_substrings_postfix, compile_item, move, finish, classify, left, content, pair, last_byte,
  all_but_last,
}
use libstorage.Filter.Printer.{IsPlain}

module _ (pos : ℕ) (l r : Text) where
  left_step :
      (c d : ℕ) (s : Text)
      → IsPlain c
      → compile_item (c ∷ d ∷ s) pos none l r ≡ compile_item (d ∷ s) (pos + 1) none (l ++ c ∷ []) r
  unfolding compile_item
  left_step c d s h = rw (plain_move, compile_item) refl
    where
      plain_move : move none c (some d) ≡ left
      plain_move = unfold move in ground arith

  content_step :
      (o : FilterOperator) (c d : ℕ) (s : Text)
      → c ≢ b')'
      → compile_item (c ∷ d ∷ s) pos (some o) l r
        ≡ compile_item (d ∷ s) (pos + 1) (some o) l (r ++ c ∷ [])
  unfolding compile_item
  content_step o c d s h = rw (inner_move, compile_item) refl
    where
      inner_move : move (some o) c (some d) ≡ content
      inner_move = unfold move in ground arith

  close_step :
      (o : FilterOperator) (s : Text)
      → compile_item (b')' ∷ s) pos (some o) l r ≡ finish (some o) l r pos
  unfolding compile_item move
  close_step o [] = refl
  close_step o (d ∷ s) = refl

  pub equals_step :
      (d : ℕ) (s : Text)
      → compile_item (b'=' ∷ d ∷ s) pos none l r
        ≡ compile_item (d ∷ s) (pos + 1) (some filter_equality_match) l r
  unfolding compile_item move
  equals_step d s = refl

  pub pair_step :
      (c d : ℕ) (s : Text) (o : FilterOperator)
      → move none c (some b'=') ≡ pair o
      → compile_item (c ∷ b'=' ∷ d ∷ s) pos none l r ≡ compile_item (d ∷ s) (pos + 2) (some o) l r
  unfolding compile_item
  pair_step c d s o e = rw (e, compile_item) refl

pub left_loop :
    (pos : ℕ) (l r n : Text) (x : ℕ) (t : Text)
    → All IsPlain n
    → compile_item (n ++ x ∷ t) pos none l r ≡ compile_item (x ∷ t) (pos + length n) none (l ++ n) r
left_loop pos l r [] x t h = rw (append-nil, add-zero)
left_loop pos l r (c ∷ []) x t (h, _) = left_step pos l r c x t h
left_loop pos l r (c ∷ d ∷ n) x t (h, hs) =
    left_step pos l r c d (n ++ x ∷ t) h
    ∙ left_loop (pos + 1) (l ++ c ∷ []) r (d ∷ n) x t hs
    ∙ ap₂ (λ p l'. compile_item (x ∷ t) p none l' r) (omega arith) (append_assoc l (c ∷ []) (d ∷ n))

pub content_loop :
    (pos : ℕ) (l r : Text) (o : FilterOperator) (w rest : Text)
    → All (λ c. c ≢ b')') w
    → compile_item (w ++ b')' ∷ rest) pos (some o) l r ≡ finish (some o) l (r ++ w) (pos + length w)
content_loop pos l r o [] rest h = rw (append-nil, add-zero) (close_step pos l r o rest)
content_loop pos l r o (c ∷ []) rest (h, _) =
    content_step pos l r o c b')' rest h ∙ close_step (pos + 1) l (r ++ c ∷ []) o rest
content_loop pos l r o (c ∷ d ∷ w) rest (h, hs) =
    content_step pos l r o c d (w ++ b')' ∷ rest) h
    ∙ content_loop (pos + 1) l (r ++ c ∷ []) o (d ∷ w) rest hs
    ∙ ap₂ (λ p r'. finish (some o) l r' p) (omega arith) (append_assoc r (c ∷ []) (d ∷ w))

last_byte-append : (d x : ℕ) (s : Text) → last_byte d (s ++ x ∷ []) ≡ x
last_byte-append d x [] = refl
last_byte-append d x (c ∷ s) = last_byte-append c x s

all_but_last-append : (x : ℕ) (s : Text) → all_but_last (s ++ x ∷ []) ≡ s
all_but_last-append x [] = refl
all_but_last-append x (c ∷ []) = refl
all_but_last-append x (c ∷ d ∷ s) = ap (λ t. c ∷ t) (all_but_last-append x (d ∷ s))

abbrev pub star : Text
star = b'*' ∷ []

pub classify_plain :
    (c : ℕ) (s : Text)
    → c ≢ b'*'
    → last_byte c s ≢ b'*'
    → classify filter_equality_match c s ≡ (filter_equality_match, c ∷ s)
unfolding classify
classify_plain c [] f h = ground arith
classify_plain c (d ∷ s) f h = ground arith

pub classify_prefix :
    (c : ℕ) (s : Text)
    → last_byte c s ≢ b'*'
    → classify filter_equality_match b'*' (c ∷ s) ≡ (filter_substrings_prefix, c ∷ s)
unfolding classify
classify_prefix c s h = ground arith

pub classify_substrings :
    (c : ℕ) (s : Text)
    → classify filter_equality_match b'*' (c ∷ s ++ star) ≡ (filter_substrings, c ∷ s)
unfolding classify
classify_substrings c s =
    rw (last_byte-append c b'*' s, all_but_last-append b'*' (c ∷ s))
      (ground (arith, length-append s star))

pub classify_postfix :
    (c : ℕ) (s : Text)
    → c ≢ b'*'
    → classify filter_equality_match c (s ++ star) ≡ (filter_substrings_postfix, c ∷ s)
unfolding classify
classify_postfix c [] h = ground arith
classify_postfix c (d ∷ s) h =
    rw (last_byte-append d b'*' s, all_but_last-append b'*' (c ∷ d ∷ s)) (ground arith)

-- ===== src/Filter/Operands.antt =====
-- The end of an item, operator and right operand, as the loop of api/utils/filters/filters.go
-- reads it.
use libstorage.Base.{
  ℕ, ◌+◌, ◌≡◌, ◌≢◌, refl, ◌∙◌, ap, [], ◌∷◌, ◌++◌, Text, All, All-append, none, some, ok, length,
  arith,
}
use mathlib.Core.Path.{ap₂}
use libstorage.Filter.{
  filter, nil, FilterOperator, filter_and, filter_or, filter_not, filter_present,
  filter_equality_match, filter_substrings, filter_substrings_prefix, filter_substrings_postfix,
  filter_greater_or_equal, filter_less_or_equal, filter_approx_match, compile_item, move, pair,
  finish, classify, leaf,
}
use libstorage.Filter.Printer.{IsRight, IsOperand, written}
use libstorage.Filter.Items.{
  equals_step, pair_step, content_loop, classify_plain, classify_prefix, classify_substrings,
  classify_postfix, star,
}

module _ (pos : ℕ) (l rest : Text) where
  read_right :
      (o : FilterOperator) (c : ℕ) (s : Text)
      → IsRight (c ∷ s)
      → compile_item (c ∷ s ++ b')' ∷ rest) pos (some o) l []
        ≡ ok (leaf l (classify o c s), pos + length (c ∷ s) + 1)
  unfolding finish
  read_right o c s h = content_loop pos l [] o (c ∷ s) rest h

module _ (pos : ℕ) (l rest : Text) where
  read_equals :
      (c : ℕ) (s : Text)
      → IsRight (c ∷ s)
      → compile_item (b'=' ∷ c ∷ s ++ b')' ∷ rest) pos none l []
        ≡ ok (leaf l (classify filter_equality_match c s), pos + length (b'=' ∷ c ∷ s) + 1)
  read_equals c s h =
      equals_step pos l [] c (s ++ b')' ∷ rest)
      ∙ read_right (pos + 1) l rest filter_equality_match c s h
      ∙ ap (λ (p : ℕ). ok (leaf l (classify filter_equality_match c s), p)) (omega arith)

  read_classified :
      (c : ℕ) (s : Text) (o : FilterOperator) (r : Text)
      → IsRight (c ∷ s)
      → classify filter_equality_match c s ≡ (o, r)
      → compile_item (b'=' ∷ c ∷ s ++ b')' ∷ rest) pos none l []
        ≡ ok (filter o nil l r, pos + length (b'=' ∷ c ∷ s) + 1)
  read_classified c s o r h e =
      read_equals c s h ∙ ap (λ x. ok (leaf l x, pos + length (b'=' ∷ c ∷ s) + 1)) e

  read_pair :
      (c : ℕ) (r : Text) (o : FilterOperator)
      → move none c (some b'=') ≡ pair o
      → ((d : ℕ) (s : Text) → classify o d s ≡ (o, d ∷ s))
      → IsRight r
      → compile_item (c ∷ b'=' ∷ r ++ b')' ∷ rest) pos none l []
        ≡ ok (filter o nil l r, pos + length (c ∷ b'=' ∷ r) + 1)
  read_pair c [] o e k h = absurd h
  read_pair c (d ∷ s) o e k h =
      pair_step pos l [] c d (s ++ b')' ∷ rest) o e
      ∙ read_right (pos + 2) l rest o d s h
      ∙ ap₂ (λ x (p : ℕ). ok (leaf l x, p)) (k d s) (omega arith)

  right_star : (s : Text) → All (λ c. c ≢ b')') s → All (λ c. c ≢ b')') (s ++ star)
  right_star s h = All-append (λ c. c ≢ b')') s star h (omega arith)

  -- The operator and the operand are read back as they were written.
  pub compile_item-written :
      (o : FilterOperator) (r : Text)
      → IsOperand o r
      → compile_item (written o r ++ b')' ∷ rest) pos none l []
        ≡ ok (filter o nil l r, pos + length (written o r) + 1)
  unfolding written
  compile_item-written filter_and r h = absurd h
  compile_item-written filter_or r h = absurd h
  compile_item-written filter_not r h = absurd h
  compile_item-written filter_present r h =
      read_classified b'*' [] filter_present r (omega arith) (unfold classify in ground arith)
  compile_item-written filter_equality_match [] h = absurd h.0
  compile_item-written filter_equality_match (c ∷ s) (h, f, z) =
      read_classified c s _ _ h (classify_plain c s f z)
  compile_item-written filter_substrings [] h = absurd h
  compile_item-written filter_substrings (c ∷ s) (h, hs) =
      read_classified b'*' (c ∷ s ++ star) _ _ (omega arith, (h, right_star s hs))
        (classify_substrings c s)
  compile_item-written filter_substrings_prefix [] h = absurd h.0
  compile_item-written filter_substrings_prefix (c ∷ s) (h, z) =
      read_classified b'*' (c ∷ s) _ _ (omega arith, h) (classify_prefix c s z)
  compile_item-written filter_substrings_postfix [] h = absurd h.0
  compile_item-written filter_substrings_postfix (c ∷ s) ((h, hs), f) =
      read_classified c (s ++ star) _ _ (h, right_star s hs) (classify_postfix c s f)
  compile_item-written filter_greater_or_equal r h =
      read_pair b'>' r _ (unfold move in refl) (λ d s. unfold classify in refl) h
  compile_item-written filter_less_or_equal r h =
      read_pair b'<' r _ (unfold move in refl) (λ d s. unfold classify in refl) h
  compile_item-written filter_approx_match r h =
      read_pair b'~' r _ (unfold move in refl) (λ d s. unfold classify in refl) h

-- ===== src/Filter/Printer.antt =====
-- The text of a filter, as the compiler of api/utils/filters/filters.go reads it, and which filters
-- have one.
use libstorage.Base.{ℕ, ◌≡◌, ◌≢◌, [], ◌∷◌, ◌++◌, Text, codes, All}
use libstorage.Filter.{
  Filter, Filters, filter, nil, cons, FilterOperator, filter_and, filter_or, filter_not,
  filter_present, filter_equality_match, filter_substrings, filter_substrings_prefix,
  filter_substrings_postfix, filter_greater_or_equal, filter_less_or_equal, filter_approx_match,
  last_byte,
}

-- The operator and the right operand.
unfoldable pub written : FilterOperator → Text → Text
written filter_present r = codes "=*"
written filter_equality_match r = b'=' ∷ r
written filter_substrings r = b'=' ∷ b'*' ∷ r ++ b'*' ∷ []
written filter_substrings_prefix r = b'=' ∷ b'*' ∷ r
written filter_substrings_postfix r = b'=' ∷ r ++ b'*' ∷ []
written filter_greater_or_equal r = b'>' ∷ b'=' ∷ r
written filter_less_or_equal r = b'<' ∷ b'=' ∷ r
written filter_approx_match r = b'~' ∷ b'=' ∷ r
written filter_and r = []
written filter_or r = []
written filter_not r = []

-- What stands behind a filter's opening parenthesis, its closing one included.
unfoldable mutual
  pub body : Filter → Text
  body (filter filter_and fs l r) = b'&' ∷ bodies fs ++ b')' ∷ []
  body (filter filter_or fs l r) = b'|' ∷ bodies fs ++ b')' ∷ []
  body (filter filter_not fs l r) = b'!' ∷ bodies fs ++ b')' ∷ []
  body (filter o fs l r) = l ++ written o r ++ b')' ∷ []

  pub bodies : Filters → Text
  bodies nil = []
  bodies (cons f fs) = b'(' ∷ body f ++ bodies fs

unfoldable pub print : Filter → Text
unfolding body written
print f = b'(' ∷ body f

-- A byte that the left operand may hold.
abbrev pub IsPlain : ℕ → Type 0
IsPlain c = (c ≢ b')') × (c ≢ b'=') × (c ≢ b'>') × (c ≢ b'<') × (c ≢ b'~')

-- A left operand: it has a byte, and the first one opens no group and no compound filter.
abbrev pub IsLeft : Text → Type 0
IsLeft [] = ⊥
IsLeft (c ∷ s) = (c ≢ b'(') × (c ≢ b'&') × (c ≢ b'|') × (c ≢ b'!') × IsPlain c × All IsPlain s

-- A right operand: it has a byte, and none closes the filter.
abbrev pub IsRight : Text → Type 0
IsRight [] = ⊥
IsRight (c ∷ s) = (c ≢ b')') × All (λ d. d ≢ b')') s

abbrev pub FirstIsPlain : Text → Type 0
FirstIsPlain [] = ⊥
FirstIsPlain (c ∷ s) = c ≢ b'*'

abbrev pub LastIsPlain : Text → Type 0
LastIsPlain [] = ⊥
LastIsPlain (c ∷ s) = last_byte c s ≢ b'*'

-- The right operands that an operator can be written with: the stars of the text say which
-- operator it is.
abbrev pub IsOperand : FilterOperator → Text → Type 0
IsOperand filter_present r = r ≡ []
IsOperand filter_equality_match r = IsRight r × FirstIsPlain r × LastIsPlain r
IsOperand filter_substrings r = IsRight r
IsOperand filter_substrings_prefix r = IsRight r × LastIsPlain r
IsOperand filter_substrings_postfix r = IsRight r × FirstIsPlain r
IsOperand filter_greater_or_equal r = IsRight r
IsOperand filter_less_or_equal r = IsRight r
IsOperand filter_approx_match r = IsRight r
IsOperand filter_and r = ⊥
IsOperand filter_or r = ⊥
IsOperand filter_not r = ⊥

abbrev pub IsSingle : Filters → Type 0
IsSingle (cons f nil) = Unit
IsSingle fs = ⊥

-- The filters that a text can be compiled to.
abbrev mutual
  pub IsPrintable : Filter → Type 0
  IsPrintable (filter filter_and fs l r) = (l ≡ []) × (r ≡ []) × ArePrintable fs
  IsPrintable (filter filter_or fs l r) = (l ≡ []) × (r ≡ []) × ArePrintable fs
  IsPrintable (filter filter_not fs l r) = (l ≡ []) × (r ≡ []) × IsSingle fs × ArePrintable fs
  IsPrintable (filter o fs l r) = (fs ≡ nil) × IsLeft l × IsOperand o r

  pub ArePrintable : Filters → Type 0
  ArePrintable nil = Unit
  ArePrintable (cons f fs) = IsPrintable f × ArePrintable fs

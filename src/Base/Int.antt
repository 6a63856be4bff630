-- ===== src/Base/Int.antt =====
-- Go's signed integers, and strconv's decimal text of them.
use Prim.Native.Nat.{ℕ, zero, suc, ◌+◌, ◌-◌, ◌*◌, ◌/◌, ◌%◌, ◌^◌, ◌≤◌, ◌<◌}
use Prim.Native.String.{String}
use mathlib.Core.Path.{◌≡◌, refl, ap, ◌∙◌}
use mathlib.Core.Logic.{inl, inr}
use mathlib.Core.Bool.{Bool, true, false, ◌&&◌, ◌||◌}
use mathlib.Core.Option.{Option, none, some}
use mathlib.Core.List.{List, [], ◌∷◌, ◌++◌}
use libstorage.Base.Lists.{length, All}
use native.Mathlib.Omega.{arith}
use libstorage.Base.Tests.{ltb, leb, nat_beq, if◌then◌else◌, Bool-cases}
use libstorage.Base.Texts.{Text, codes, text_beq}

-- `negsuc n` is -(n + 1).
pub data ℤ : Type 0 where
  pos : ℕ → ℤ
  negsuc : ℕ → ℤ

-- The values of an int64, which is also what `int` is on the 64-bit platforms.
abbrev pub IsInt64 : ℤ → Type 0
IsInt64 (pos n) = n < 2 ^ 63
IsInt64 (negsuc n) = n < 2 ^ 63

-- One more and one less, on an int.
abbrev pub increment : ℤ → ℤ
increment (pos n) = if ltb (n + 1) (2 ^ 63) then pos (n + 1) else negsuc n
increment (negsuc zero) = pos 0
increment (negsuc (suc n)) = negsuc n

abbrev pub decrement : ℤ → ℤ
decrement (pos zero) = negsuc 0
decrement (pos (suc n)) = pos n
decrement (negsuc n) = if ltb (n + 1) (2 ^ 63) then negsuc (n + 1) else pos n

-- The decimal digits of `n` before `out`; `fuel` is more than `n`.
emit : ℕ → ℕ → Text → Text
emit zero n out = out
emit (suc fuel) n out = elim (ltb n 10) [
  | true ↦ (b'0' + n) ∷ out
  | false ↦ emit fuel (n / 10) ((b'0' + n % 10) ∷ out)
]

print : ℕ → Text
unfolding emit
print n = emit (suc n) n []

-- strconv.FormatInt, base 10
unfoldable pub format_int : ℤ → Text
unfolding print
format_int (pos n) = print n
format_int (negsuc n) = b'-' ∷ print (suc n)

scan : ℕ → Text → Option ℕ
scan n [] = some n
scan n (c ∷ s) = if leb b'0' c && leb c b'9' then scan (n * 10 + (c - b'0')) s else none

digits : Text → Option ℕ
digits [] = none
digits (c ∷ s) = scan 0 (c ∷ s)

abbrev positive : Option ℕ → Option ℤ
positive none = none
positive (some n) = if ltb n (2 ^ 63) then some (pos n) else none

abbrev negative : Option ℕ → Option ℤ
negative none = none
negative (some zero) = some (pos zero)
negative (some (suc n)) = if ltb n (2 ^ 63) then some (negsuc n) else none

-- strconv.ParseInt(s, 10, 64); `none` is a syntax or a range error.
unfoldable pub parse_int : Text → Option ℤ
unfolding digits scan
parse_int [] = none
parse_int (c ∷ s) =
    if nat_beq c b'-'
    then negative (digits s)
    else if nat_beq c b'+'
    then positive (digits s)
    else positive (digits (c ∷ s))

abbrev one_of : List String → Text → Bool
one_of [] s = false
one_of (w ∷ ws) s = text_beq s (codes w) || one_of ws s

-- strconv.ParseBool; `none` is a syntax error.
unfoldable pub parse_bool : Text → Option Bool
unfolding text_beq
parse_bool s =
    if one_of ("1" ∷ "t" ∷ "T" ∷ "true" ∷ "TRUE" ∷ "True" ∷ []) s
    then some true
    else if one_of ("0" ∷ "f" ∷ "F" ∷ "false" ∷ "FALSE" ∷ "False" ∷ []) s
    then some false
    else none

scan-emit : (f n : ℕ) (out : Text) → n < f → scan 0 (emit f n out) ≡ scan n out
unfolding scan emit
scan-emit zero n out h = absurd (omega arith)
scan-emit (suc f) n out h = ground (arith, scan-emit f (n / 10) ((b'0' + n % 10) ∷ out))

-- The first digit is a digit, so it is no sign.
emit_head :
    (f n : ℕ) (out : Text) → n < f → (c : ℕ) × (s : Text) × (emit f n out ≡ c ∷ s) × (b'0' ≤ c)
unfolding emit
emit_head zero n out h = absurd (omega arith)
emit_head (suc f) n out h = elim (Bool-cases (ltb n 10)) [
  | inl small ↦ (b'0' + n, out, rw (small, emit) refl, omega arith)
  | inr big ↦ rw (big, emit) (emit_head f (n / 10) ((b'0' + n % 10) ∷ out) (ground arith))
]

scan-print : (n : ℕ) → scan 0 (print n) ≡ some n
unfolding print scan
scan-print n = scan-emit (suc n) n [] (omega arith)

print_head : (n : ℕ) → (c : ℕ) × (s : Text) × (print n ≡ c ∷ s) × (b'0' ≤ c)
unfolding print
print_head n = emit_head (suc n) n [] (omega arith)

digits-print : (n : ℕ) → digits (print n) ≡ some n
unfolding digits
digits-print n = let (c, s, e, _) = print_head n in rw e (rw e at (scan-print n))

unsigned : (c : ℕ) (s : Text) → b'0' ≤ c → parse_int (c ∷ s) ≡ positive (digits (c ∷ s))
unfolding parse_int
unsigned c s h = ground arith

parse_int-print : (n : ℕ) → parse_int (print n) ≡ positive (some n)
parse_int-print n =
    let (c, s, e, low) = print_head n in
    rw e (unsigned c s low ∙ ap positive (rw e at (digits-print n)))

-- Every int64 is read back from its decimal text.
pub parse_int-format_int : (i : ℤ) → IsInt64 i → parse_int (format_int i) ≡ some i
unfolding format_int
parse_int-format_int (pos n) h = parse_int-print n ∙ ground arith
parse_int-format_int (negsuc n) h = unfold parse_int in rw (digits-print (suc n)) (ground arith)

abbrev zeros : ℕ → Text
zeros zero = []
zeros (suc n) = b'0' ∷ zeros n

-- fmt's %0wd
unfoldable pub padded : ℕ → ℤ → Text
unfolding print
padded w (pos n) = zeros (w - length (print n)) ++ print n
padded w (negsuc n) = b'-' ∷ zeros (w - 1 - length (print (suc n))) ++ print (suc n)

scan-zeros : (k : ℕ) (s : Text) → scan 0 (zeros k ++ s) ≡ scan 0 s
unfolding scan
scan-zeros zero s = refl
scan-zeros (suc k) s = scan-zeros k s

scan-padded : (w n : ℕ) → scan 0 (padded w (pos n)) ≡ some n
unfolding padded
scan-padded w n = scan-zeros (w - length (print n)) (print n) ∙ scan-print n

-- Numbers that are not negative have different texts, whatever the width.
pub padded_injective : (w m n : ℕ) → padded w (pos m) ≡ padded w (pos n) → m ≡ n
padded_injective w m n e = cc (ap (scan 0) e, scan-padded w m, scan-padded w n)

scan_digits :
    (s : Text) (n m : ℕ) → scan n s ≡ some m → All (λ c. (leb b'0' c && leb c b'9') ≡ true) s
unfolding scan
scan_digits [] n m h = tt
scan_digits (c ∷ s) n m h = elim (Bool-cases (leb b'0' c && leb c b'9')) [
  | inl y ↦ (y, scan_digits s (n * 10 + (c - b'0')) m (rw y at h))
  | inr bad ↦ ground (arith, h, bad)
]

-- A number that is not negative is written in digits, at least one.
pub format_int-digits :
    (n : ℕ)
    → (c : ℕ) × (s : Text) × (format_int (pos n) ≡ c ∷ s)
      × All (λ c. (leb b'0' c && leb c b'9') ≡ true) (c ∷ s)
unfolding format_int digits
format_int-digits n =
    let (c, s, e, _) = print_head n in (c, s, e, scan_digits (c ∷ s) 0 n (rw e at (digits-print n)))

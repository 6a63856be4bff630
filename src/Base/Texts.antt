-- ===== src/Base/Texts.antt =====
-- Texts as lists of bytes: equality, lower case, and the two standard functions that fold case.
use Prim.Native.Nat.{ℕ, ◌+◌}
use Prim.Native.Char.{code}
use Prim.Native.String.{String}
use mathlib.Core.Path.{◌≡◌, refl}
use mathlib.Core.Logic.{◌↔◌}
use mathlib.Core.Bool.{Bool, true, false, ◌&&◌}
use mathlib.Core.List.{List, [], ◌∷◌}
use native.Mathlib.Omega.{arith}
use libstorage.Base.Tests.{Eq, nat_beq, leb, if◌then◌else◌}

abbrev pub Text : Type 0
Text = List ℕ

-- The code points of a literal; these are its bytes when the text is ASCII.
abbrev pub codes : String → Text
codes String.[] = []
codes (String.◌∷◌ c s) = code c ∷ codes s

unfoldable pub text_beq : Text → Text → Bool
text_beq [] [] = true
text_beq [] (b ∷ t) = false
text_beq (a ∷ s) [] = false
text_beq (a ∷ s) (b ∷ t) = nat_beq a b && text_beq s t

text_beq_sound : (s t : Text) → text_beq s t ≡ true → s ≡ t
unfolding text_beq
text_beq_sound [] [] h = refl
text_beq_sound [] (b ∷ t) h = ground arith
text_beq_sound (a ∷ s) [] h = ground arith
text_beq_sound (a ∷ s) (b ∷ t) h = ground (arith, text_beq_sound s t)

pub text_beq_refl : (s : Text) → text_beq s s ≡ true
unfolding text_beq
text_beq_refl [] = refl
text_beq_refl (a ∷ s) = ground (arith, text_beq_refl s)

pub text_beq_iff : (s t : Text) → (text_beq s t ≡ true) ↔ (s ≡ t)
text_beq_iff s t = (text_beq_sound s t, λ e. ground (arith, e, text_beq_refl s))

instance abbrev pub text_eq : Eq Text
text_eq = record { exact = text_beq_iff; test = text_beq }

unfoldable pub lower_byte : ℕ → ℕ
lower_byte c = if leb b'A' c && leb c b'Z' then c + 32 else c

-- strings.ToLower
unfoldable pub to_lower : Text → Text
unfolding lower_byte
to_lower [] = []
to_lower (c ∷ s) = lower_byte c ∷ to_lower s

-- strings.EqualFold
unfoldable pub equal_fold : Text → Text → Bool
unfolding text_beq to_lower
equal_fold s t = text_beq (to_lower s) (to_lower t)

pub to_lower-to_lower : (s : Text) → to_lower (to_lower s) ≡ to_lower s
unfolding to_lower
to_lower-to_lower [] = refl
to_lower-to_lower (c ∷ s) = ground (arith, to_lower-to_lower s)

pub equal_fold_refl : (s : Text) → equal_fold s s ≡ true
unfolding equal_fold
equal_fold_refl s = text_beq_refl (to_lower s)

-- ===== src/Handlers/Transport.antt =====
-- What net/http does with the values of a header, on their way from the client to the server: it refuses
-- values with control bytes and headers that are too large, and it drops blanks at the ends of a value.
use libstorage.Base.{
  ℕ, ◌+◌, ◌<◌, List, [], ◌∷◌, Bool, true, false, not, ◌&&◌, ◌||◌, Option, some, Text, ◌≡◌, All, leb,
  ◌==◌, nat_eq, length,
}

-- The values that the server gets; `none` where the request fails.
abbrev pub Transport : Type 0
Transport = List Text → Option (List Text)

abbrev pub is_field_byte : ℕ → Bool
is_field_byte c = (leb 32 c || c == 9) && not (c == 127)

abbrev pub is_blank : ℕ → Bool
is_blank c = c == 32 || c == 9

abbrev pub end_byte : ℕ → Text → ℕ
end_byte c [] = c
end_byte c (d ∷ s) = end_byte d s

-- No blank at either end.
abbrev pub IsTrimmed : Text → Type 0
IsTrimmed [] = Unit
IsTrimmed (c ∷ s) = (is_blank c ≡ false) × (is_blank (end_byte c s) ≡ false)

abbrev pub IsFieldValue : Text → Type 0
IsFieldValue t = All (λ c. is_field_byte c ≡ true) t × IsTrimmed t

abbrev pub size_of : List Text → ℕ
size_of [] = 0
size_of (h ∷ hs) = length h + size_of hs

-- Proper values of less than `limit` bytes arrive as they are, in their order.
abbrev pub Delivers : ℕ → Transport → Type 0
Delivers limit transport =
    (hs : List Text) → All IsFieldValue hs → size_of hs < limit → transport hs ≡ some hs

-- ===== src/Types/Uuids/RoundTrip.antt =====
-- The text of a UUID, of api/types/types_uuid.go, is read back.
use libstorage.Base.{
  All-append, false, ◌==◌, nat_eq, ℕ, ◌/◌, ◌%◌, ◌<◌, ◌≤◌, List, [], ◌∷◌, ◌++◌, true, some, Text, ok,
  ◌≡◌, refl, All, arith, length,
}
use mathlib.Core.Path.{subst}
use libstorage.Base.Split.{is_prefix}
use libstorage.Types.Uuids.{
  Uuid, hex, hex_digit, is_word, take_word, digit_value, decode_hex, marshal_text, unmarshal_text,
  find_digits, skip_urn, skip_brace, is_version,
}

abbrev pub IsByte : ℕ → Type 0
IsByte b = b < 256

hex_digit-IsWord : (d : ℕ) → d < 16 → is_word (hex_digit d) ≡ true
hex_digit-IsWord d h = ground arith

hex-IsWord : (bs : List ℕ) → All IsByte bs → All (λ c. is_word c ≡ true) (hex bs)
unfolding hex
hex-IsWord [] h = tt
hex-IsWord (b ∷ bs) (h, hs) = (
  hex_digit-IsWord (b / 16) (omega (arith, h)),
  (hex_digit-IsWord (b % 16) (omega (arith, h)), hex-IsWord bs hs),
)

take_word-append :
    (g rest : Text)
    → All (λ c. is_word c ≡ true) g
    → take_word (length g) (g ++ rest) ≡ some (g, rest)
unfolding take_word
take_word-append [] rest h = refl
take_word-append (c ∷ g) rest (h, hs) = rw (take_word-append g rest hs, h)

digit_value-hex_digit : (d : ℕ) → d < 16 → digit_value (hex_digit d) ≡ some d
digit_value-hex_digit d h = ground arith

decode_hex-hex : (bs : List ℕ) → All IsByte bs → decode_hex (hex bs) ≡ some bs
unfolding decode_hex hex
decode_hex-hex [] h = refl
decode_hex-hex (b ∷ bs) (h, hs) =
    rw
      (
        digit_value-hex_digit (b / 16) (omega (arith, h)),
        digit_value-hex_digit (b % 16) (omega (arith, h)),
        decode_hex-hex bs hs,
      )
      (ground arith)

-- The bytes of a UUID, in their order.
abbrev pub bytes_of : Uuid → List ℕ
bytes_of u =
    u.b0 ∷ u.b1 ∷ u.b2 ∷ u.b3 ∷ u.b4 ∷ u.b5 ∷ u.b6 ∷ u.b7 ∷ u.b8 ∷ u.b9 ∷ u.b10 ∷ u.b11 ∷ u.b12
    ∷ u.b13 ∷ u.b14 ∷ u.b15 ∷ []

-- Sixteen bytes, with a version from 1 to 5.
abbrev pub IsUuid : Uuid → Type 0
IsUuid u = All IsByte (bytes_of u) × (1 ≤ u.b6 / 16) × (u.b6 / 16 ≤ 5)

skip_nothing : (c : ℕ) (s : Text) → c < b'g' → skip_brace (skip_urn (c ∷ s)) ≡ c ∷ s
unfolding is_prefix
skip_nothing c s h = ground arith

hex_digit_low : (d : ℕ) → d < 16 → hex_digit d < b'g'
hex_digit_low d h = ground arith

skip-hex :
    (b : ℕ) (bs : List ℕ) (rest : Text)
    → IsByte b
    → skip_brace (skip_urn (hex (b ∷ bs) ++ rest)) ≡ hex (b ∷ bs) ++ rest
unfolding hex
skip-hex b bs rest h =
    skip_nothing (hex_digit (b / 16)) _ (hex_digit_low (b / 16) (omega (arith, h)))

is_version-hex : (b : ℕ) (bs : List ℕ) → 1 ≤ b / 16 → b / 16 ≤ 5 → is_version (hex (b ∷ bs)) ≡ true
unfolding hex
is_version-hex b bs low high = ground arith

take_two :
    (a b : ℕ) (rest : Text)
    → IsByte a
    → IsByte b
    → take_word 4 (hex (a ∷ b ∷ []) ++ rest) ≡ some (hex (a ∷ b ∷ []), rest)
unfolding hex
take_two a b rest ha hb =
    take_word-append (hex (a ∷ b ∷ [])) rest (hex-IsWord (a ∷ b ∷ []) (ha, (hb, tt)))

take_four :
    (a b c d : ℕ) (rest : Text)
    → All IsByte (a ∷ b ∷ c ∷ d ∷ [])
    → take_word 8 (hex (a ∷ b ∷ c ∷ d ∷ []) ++ rest) ≡ some (hex (a ∷ b ∷ c ∷ d ∷ []), rest)
unfolding hex
take_four a b c d rest h =
    take_word-append (hex (a ∷ b ∷ c ∷ d ∷ [])) rest (hex-IsWord (a ∷ b ∷ c ∷ d ∷ []) h)

take_six :
    (a b c d e f : ℕ)
    → All IsByte (a ∷ b ∷ c ∷ d ∷ e ∷ f ∷ [])
    → take_word 12 (hex (a ∷ b ∷ c ∷ d ∷ e ∷ f ∷ [])) ≡ some (hex (a ∷ b ∷ c ∷ d ∷ e ∷ f ∷ []), [])
unfolding hex
take_six a b c d e f h =
    take_word-append (hex (a ∷ b ∷ c ∷ d ∷ e ∷ f ∷ [])) []
      (hex-IsWord (a ∷ b ∷ c ∷ d ∷ e ∷ f ∷ []) h)

find_digits-marshal_text :
    (u : Uuid) → IsUuid u → find_digits (marshal_text u) ≡ some (hex (bytes_of u))
unfolding find_digits marshal_text
find_digits-marshal_text u
      ((h0, (h1, (h2, (h3, (h4, (h5, (h6, (h7, (h8, (h9, hs)))))))))), low, high) =
    rw (
      skip-hex u.b0 (u.b1 ∷ u.b2 ∷ u.b3 ∷ []) _ h0,
      take_four u.b0 u.b1 u.b2 u.b3 _ (h0, (h1, (h2, (h3, tt)))),
      take_two u.b4 u.b5 _ h4 h5,
      take_two u.b6 u.b7 _ h6 h7,
      is_version-hex u.b6 (u.b7 ∷ []) low high,
      take_two u.b8 u.b9 _ h8 h9,
      take_six u.b10 u.b11 u.b12 u.b13 u.b14 u.b15 hs,
    )

-- A UUID of sixteen bytes with a version from 1 to 5: its text is read back.
pub uuid_read_back : (u : Uuid) → IsUuid u → unmarshal_text (marshal_text u) ≡ ok u
unfolding unmarshal_text
uuid_read_back u h = rw (find_digits-marshal_text u h, decode_hex-hex (bytes_of u) h.0)

word_plain : (s : Text) → All (λ c. is_word c ≡ true) s → All (λ c. (c == 10) ≡ false) s
word_plain [] h = tt
word_plain (c ∷ s) (h, hs) = (ground arith, word_plain s hs)

hex_plain :
    (bs : List ℕ) (rest : Text)
    → All IsByte bs
    → All (λ c. (c == 10) ≡ false) rest
    → All (λ c. (c == 10) ≡ false) (hex bs ++ rest)
hex_plain bs rest h hr = All-append _ (hex bs) rest (word_plain (hex bs) (hex-IsWord bs h)) hr

uuid_plain : (u : Uuid) → IsUuid u → All (λ c. (c == 10) ≡ false) (marshal_text u)
unfolding marshal_text
uuid_plain u ((h0, (h1, (h2, (h3, (h4, (h5, (h6, (h7, (h8, (h9, hs)))))))))), low, high) =
    let node = hex (u.b10 ∷ u.b11 ∷ u.b12 ∷ u.b13 ∷ u.b14 ∷ u.b15 ∷ []) in
    let seq = hex (u.b8 ∷ u.b9 ∷ []) ++ b'-' ∷ node in
    let hi = hex (u.b6 ∷ u.b7 ∷ []) ++ b'-' ∷ seq in
    let mid = hex (u.b4 ∷ u.b5 ∷ []) ++ b'-' ∷ hi in
    hex_plain (u.b0 ∷ u.b1 ∷ u.b2 ∷ u.b3 ∷ []) (b'-' ∷ mid) (h0, (h1, (h2, (h3, tt))))
      (
        refl,
        hex_plain (u.b4 ∷ u.b5 ∷ []) (b'-' ∷ hi) (h4, (h5, tt))
            (
              refl,
              hex_plain (u.b6 ∷ u.b7 ∷ []) (b'-' ∷ seq) (h6, (h7, tt))
                  (
                    refl,
                    hex_plain (u.b8 ∷ u.b9 ∷ []) (b'-' ∷ node) (h8, (h9, tt))
                        (
                          refl,
                          word_plain node
                              (hex-IsWord (u.b10 ∷ u.b11 ∷ u.b12 ∷ u.b13 ∷ u.b14 ∷ u.b15 ∷ []) hs),
                        ),
                  ),
            ),
      )

uuid_head : (u : Uuid) → (c : ℕ) × (s : Text) × (marshal_text u ≡ c ∷ s)
unfolding marshal_text hex
uuid_head u = (_, _, refl)

-- The text of a UUID begins with a byte, and has no line feed.
pub uuid_text_plain :
    (u : Uuid)
    → IsUuid u
    → (c : ℕ) × (s : Text) × (marshal_text u ≡ c ∷ s) × All (λ c. (c == 10) ≡ false) (c ∷ s)
uuid_text_plain u h =
    let (c, s, e) = uuid_head u in
    (c, s, e, subst (All (λ c. (c == 10) ≡ false)) e (uuid_plain u h))

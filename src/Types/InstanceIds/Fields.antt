-- ===== src/Types/InstanceIds/Fields.antt =====
-- The fields of an instance ID, of api/types/types_instanceid.go: the text of a query, and what is read of it.
use libstorage.Base.{
  ℕ, ◌/◌, ◌%◌, ◌<◌, List, [], ◌∷◌, ◌++◌, append-nil, append_assoc, true, false, none, some, Text,
  ◌≡◌, refl, sym, ap, ◌∙◌, inl, inr, ◌⊎◌, arith, All, All-append, Bool-cases, nat_eq, text_eq, ◌==◌,
  if◌then◌else◌,
}
use libstorage.Base.Dict.{Dict, get, Distinct, put_fresh, fresh_of_Distinct}
use libstorage.Base.Split.{split_at, split_at-word, split_at-separator}
use libstorage.Filter.{query_unescape, escaped, hex_digit, hex_pair}
use libstorage.Types.InstanceIds.{
  query_escape, escape_byte, hex_of, is_unreserved, encode_fields, cut_at, add_part, add_parts,
  parse_fields, is_field_end, keep_first,
}

abbrev pub IsByte : ℕ → Type 0
IsByte c = c < 256

hex_digit-hex_of : (d : ℕ) → d < 16 → hex_digit (hex_of d) ≡ some d
hex_digit-hex_of d h = ground arith

hex_pair-byte :
    (c : ℕ)
    → IsByte c
    → hex_pair (hex_digit (hex_of (c / 16))) (hex_digit (hex_of (c % 16))) ≡ some c
hex_pair-byte c h =
    rw (hex_digit-hex_of (c / 16) (omega (arith, h)), hex_digit-hex_of (c % 16) (omega (arith, h)))
      (ap some (omega arith))

unescape-plain :
    (c : ℕ) (t : Text)
    → (c == b'%') ≡ false
    → query_unescape (c ∷ t) ≡ escaped (some (if c == b'+' then b' ' else c)) (query_unescape t)
unfolding query_unescape
unescape-plain c [] h = rw h
unescape-plain c (d ∷ []) h = rw h
unescape-plain c (d ∷ e ∷ t) h = rw h

unescape-percent :
    (d e : ℕ) (t : Text)
    → query_unescape (b'%' ∷ d ∷ e ∷ t)
      ≡ escaped (hex_pair (hex_digit d) (hex_digit e)) (query_unescape t)
unfolding query_unescape
unescape-percent d e t = refl

unescape-escape_byte :
    (c : ℕ) (t : Text)
    → IsByte c
    → query_unescape (escape_byte c ++ t) ≡ escaped (some c) (query_unescape t)
unescape-escape_byte c t h = elim (Bool-cases (is_unreserved c)) [
  | inl plain ↦ rw plain (unescape-plain c t (ground arith) ∙ ground arith)
  | inr reserved ↦ elim (Bool-cases (c == b' ')) [
    | inl space ↦ rw (reserved, space) (unescape-plain b'+' t refl ∙ ground arith)
    | inr other ↦
        rw (reserved, other)
          (unescape-percent (hex_of (c / 16)) (hex_of (c % 16)) t
            ∙ ap (λ o. escaped o (query_unescape t)) (hex_pair-byte c h))
  ]
]

pub unescape-escape : (s : Text) → All IsByte s → query_unescape (query_escape s) ≡ some s
unfolding query_escape
unescape-escape [] h = unfold query_unescape in refl
unescape-escape (c ∷ s) (h, hs) =
    unescape-escape_byte c (query_escape s) h ∙ ap (escaped (some c)) (unescape-escape s hs)

-- A byte of an escaped text.
abbrev pub IsEscaped : ℕ → Type 0
IsEscaped c = (is_unreserved c ≡ true) ⊎ ((c ≡ b'%') ⊎ (c ≡ b'+'))

hex_of-IsEscaped : (d : ℕ) → d < 16 → is_unreserved (hex_of d) ≡ true
hex_of-IsEscaped d h = ground arith

escape_byte-IsEscaped : (c : ℕ) → IsByte c → All IsEscaped (escape_byte c)
escape_byte-IsEscaped c h = elim (Bool-cases (is_unreserved c)) [
  | inl plain ↦ rw plain (inl plain, tt)
  | inr reserved ↦ elim (Bool-cases (c == b' ')) [
    | inl space ↦ rw (reserved, space) (inr (inr refl), tt)
    | inr other ↦
        rw (reserved, other)
          (
            inr (inl refl),
            (
              inl (hex_of-IsEscaped (c / 16) (omega (arith, h))),
              (inl (hex_of-IsEscaped (c % 16) (omega (arith, h))), tt),
            ),
          )
  ]
]

escape-IsEscaped : (s : Text) → All IsByte s → All IsEscaped (query_escape s)
unfolding query_escape
escape-IsEscaped [] h = tt
escape-IsEscaped (c ∷ s) (h, hs) =
    All-append IsEscaped (escape_byte c) (query_escape s) (escape_byte-IsEscaped c h)
      (escape-IsEscaped s hs)

abbrev pub Lacks : ℕ → Text → Type 0
Lacks x s = All (λ c. (c == x) ≡ false) s

escaped-NotField : (c : ℕ) → IsEscaped c → (is_field_end c ≡ false) × ((c == b'=') ≡ false)
escaped-NotField c h = ground arith

escaped-plain : (c : ℕ) → IsEscaped c → ((c == b',') ≡ false) × ((c == 10) ≡ false)
escaped-plain c h = ground arith

Lacks-escaped :
    (x : ℕ) (s : Text) → ((c : ℕ) → IsEscaped c → (c == x) ≡ false) → All IsEscaped s → Lacks x s
Lacks-escaped x [] f h = tt
Lacks-escaped x (c ∷ s) f (h, hs) = (f c h, Lacks-escaped x s f hs)

NoEnd_escaped : (s : Text) → All IsEscaped s → All (λ c. is_field_end c ≡ false) s
NoEnd_escaped [] h = tt
NoEnd_escaped (c ∷ s) (h, hs) = ((escaped-NotField c h).0, NoEnd_escaped s hs)

pub cut_at-found :
    (sep : ℕ) (before w s : Text)
    → Lacks sep w
    → cut_at sep before (w ++ sep ∷ s) ≡ (before ++ w, some s)
unfolding cut_at
cut_at-found sep before [] s h = ground (arith, append-nil before)
cut_at-found sep before (c ∷ w) s (h, hs) =
    rw (h, cut_at-found sep (before ++ c ∷ []) w s hs)
      (ap (λ b. (b, some s)) (append_assoc before (c ∷ []) w))

pub cut_at-absent :
    (sep : ℕ) (before w : Text) → Lacks sep w → cut_at sep before w ≡ (before ++ w, none)
unfolding cut_at
cut_at-absent sep before [] h = ap (λ b. (b, none)) (sym (append-nil before))
cut_at-absent sep before (c ∷ w) (h, hs) =
    rw (h, cut_at-absent sep (before ++ c ∷ []) w hs)
      (ap (λ b. (b, none)) (append_assoc before (c ∷ []) w))

abbrev pub IsField : Text × Text → Type 0
IsField e = All IsByte e.0 × All IsByte e.1

abbrev field_text : Text × Text → Text
field_text e = query_escape e.0 ++ b'=' ∷ query_escape e.1

field_text-NoEnd : (e : Text × Text) → IsField e → All (λ c. is_field_end c ≡ false) (field_text e)
field_text-NoEnd (k, v) h =
    All-append (λ c. is_field_end c ≡ false) (query_escape k) (b'=' ∷ query_escape v)
      (NoEnd_escaped (query_escape k) (escape-IsEscaped k h.0))
      (refl, NoEnd_escaped (query_escape v) (escape-IsEscaped v h.1))

field_text-cut :
    (k v : Text)
    → IsField (k, v)
    → cut_at b'=' [] (field_text (k, v)) ≡ (query_escape k, some (query_escape v))
field_text-cut k v h =
    cut_at-found b'=' [] (query_escape k) (query_escape v) (
      Lacks-escaped b'=' (query_escape k) (λ c e. (escaped-NotField c e).1)
        (escape-IsEscaped k h.0))

add_part-cut :
    (fs : Dict Text Text) (t k v k' v' : Text)
    → cut_at b'=' [] t ≡ (k, some v)
    → query_unescape k ≡ some k'
    → query_unescape v ≡ some v'
    → get fs k' ≡ none
    → add_part (some fs) t ≡ some (fs ++ (k', v') ∷ [])
unfolding add_part keep_first
add_part-cut fs [] k v k' v' cut ek ev fresh =
    cc (ap (λ p. p.1) (sym (cut_at-absent b'=' [] [] tt) ∙ cut))
add_part-cut fs (c ∷ t) k v k' v' cut ek ev fresh =
    rw (cut, ek, ev, fresh) (ap some (put_fresh fs k' v' fresh))

abbrev texts_of : Dict Text Text → List Text
texts_of [] = []
texts_of (e ∷ es) = field_text e ∷ texts_of es

split-encode_fields :
    (e : Text × Text) (es : Dict Text Text)
    → All IsField (e ∷ es)
    → split_at is_field_end (encode_fields (e ∷ es)) ≡ texts_of (e ∷ es)
unfolding encode_fields
split-encode_fields e [] (h, hs) = split_at-word is_field_end (field_text e) (field_text-NoEnd e h)
split-encode_fields e (f ∷ es) (h, hs) =
    split_at-separator is_field_end (field_text e) b'&' (encode_fields (f ∷ es))
      (field_text-NoEnd e h) refl
    ∙ ap (λ r. field_text e ∷ r) (split-encode_fields f es hs)

add_parts-texts :
    (fs es : Dict Text Text)
    → All IsField es
    → Distinct (fs ++ es)
    → add_parts (some fs) (texts_of es) ≡ some (fs ++ es)
unfolding add_parts
add_parts-texts fs [] h d = ap some (sym (append-nil fs))
add_parts-texts fs ((k, v) ∷ es) (h, hs) d =
    ap (λ o. add_parts o (texts_of es))
      (add_part-cut fs (field_text (k, v)) (query_escape k) (query_escape v) k v
        (field_text-cut k v h) (unescape-escape k h.0) (unescape-escape v h.1)
        (fresh_of_Distinct fs k v es d))
    ∙ add_parts-texts (fs ++ (k, v) ∷ []) es hs (rw append_assoc d)
    ∙ ap some (append_assoc fs ((k, v) ∷ []) es)

-- Fields under different keys are read back from the text of a query.
pub parse_fields-encode_fields :
    (fs : Dict Text Text) → All IsField fs → Distinct fs → parse_fields (encode_fields fs) ≡ some fs
unfolding parse_fields encode_fields
parse_fields-encode_fields [] h d = unfold split_at add_parts in refl
parse_fields-encode_fields (e ∷ es) h d =
    ap (add_parts (some [])) (split-encode_fields e es h) ∙ add_parts-texts [] (e ∷ es) h d

-- No comma, and no line feed.
abbrev pub IsPlain : ℕ → Type 0
IsPlain c = ((c == b',') ≡ false) × ((c == 10) ≡ false)

IsPlain_escaped : (s : Text) → All IsEscaped s → All IsPlain s
IsPlain_escaped [] h = tt
IsPlain_escaped (c ∷ s) (h, hs) = (escaped-plain c h, IsPlain_escaped s hs)

field_text-IsPlain : (e : Text × Text) → IsField e → All IsPlain (field_text e)
field_text-IsPlain (k, v) h =
    All-append IsPlain (query_escape k) (b'=' ∷ query_escape v)
      (IsPlain_escaped (query_escape k) (escape-IsEscaped k h.0))
      ((refl, refl), IsPlain_escaped (query_escape v) (escape-IsEscaped v h.1))

pub encode_fields-IsPlain : (fs : Dict Text Text) → All IsField fs → All IsPlain (encode_fields fs)
unfolding encode_fields
encode_fields-IsPlain [] h = tt
encode_fields-IsPlain (e ∷ []) (h, hs) = field_text-IsPlain e h
encode_fields-IsPlain (e ∷ f ∷ es) (h, hs) =
    All-append IsPlain (field_text e) (b'&' ∷ encode_fields (f ∷ es)) (field_text-IsPlain e h)
      ((refl, refl), encode_fields-IsPlain (f ∷ es) hs)

-- ===== src/Types/LocalDevices/RoundTrip.antt =====
-- The text of local devices, of api/types/types_localdevices.go, is read back.
use libstorage.Base.{
  ℕ, List, [], ◌∷◌, ◌++◌, append-nil, append_assoc, true, false, some, Text, ok, ◌≡◌, ◌≢◌, refl,
  sym, ap, ◌∙◌, arith, All, All-append, nat_beq, text_eq,
}
use libstorage.Base.Dict.{Dict, Distinct, put_fresh, fresh_of_Distinct}
use libstorage.Base.Order.{IsSorted, sort_by-sorted}
use libstorage.Base.Split.{split, split_at, split_at-word, split_at-separator}
use libstorage.Types.LocalDevices.{
  LocalDevices, Places, pair_text, pair_texts, truncated, key_of, marshal_text, unmarshal_text,
  is_blank, start, advance, run_places, matches_pairs, find_pairs, split_colons, add_pair,
  add_pairs, is_some_text,
}

-- A byte that is neither white space nor a separator.
abbrev pub IsPlain : ℕ → Type 0
IsPlain c = (is_blank c ≡ false) × (c ≢ b',') × (c ≢ b':')

pub record IsWord (s : Text) : Type 0 where
  pub some_byte : is_some_text s ≡ true
  pub plain : All IsPlain s

abbrev pub IsPair : Text × Text → Type 0
IsPair e = IsWord e.0 × IsWord e.1

abbrev pub IsDriverByte : ℕ → Type 0
IsDriverByte c = (c ≢ b'=') × (c ≢ 10)

pub record IsPrintable (l : LocalDevices) : Type 0 where
  pub named : is_some_text l.driver ≡ true
  pub driver_bytes : All IsDriverByte l.driver
  pub pairs : All IsPair l.device_map
  pub distinct : Distinct l.device_map
  pub ordered : IsSorted key_of l.device_map

-- The run over the pairs.
abbrev NotBlank : ℕ → Type 0
NotBlank c = is_blank c ≡ false

run-append : (m : Places) (s t : Text) → run_places m (s ++ t) ≡ run_places (run_places m s) t
unfolding run_places
run-append m [] t = refl
run-append m (c ∷ s) t = run-append (advance m c) s t

run_in_key :
    (m : Places) (s : Text) → All IsPlain s → m.in_key ≡ true → (run_places m s).in_key ≡ true
unfolding run_places
run_in_key m [] h e = e
run_in_key m (c ∷ s) h e = run_in_key (advance m c) s h.1 (ground arith)

run_in_value :
    (m : Places) (s : Text) → All NotBlank s → m.in_value ≡ true → (run_places m s).in_value ≡ true
unfolding run_places
run_in_value m [] h e = e
run_in_value m (c ∷ s) h e = run_in_value (advance m c) s h.1 (ground arith)

colons_then_value :
    (m : Places) (c : ℕ)
    → m.in_key ≡ true
    → is_blank c ≡ false
    → (advance (advance (advance m b':') b':') c).in_value ≡ true
colons_then_value m c e h = ground arith

matches_pair :
    (k : ℕ) (ks : Text) (v : ℕ) (vs : Text)
    → All IsPlain (k ∷ ks)
    → All NotBlank (v ∷ vs)
    → matches_pairs ((k ∷ ks) ++ b':' ∷ b':' ∷ v ∷ vs) ≡ true
unfolding matches_pairs run_places
matches_pair k ks v vs hk hv =
    rw (run-append (advance start k) ks (b':' ∷ b':' ∷ v ∷ vs), matches_pairs)
      (run_in_value _ vs hv.1 (
        colons_then_value (run_places (advance start k) ks) v
          (run_in_key (advance start k) ks hk.1 (ground arith)) hv.0))

-- The end of the driver's name.
find_pairs-driver :
    (acc driver s : Text)
    → All IsDriverByte driver
    → is_some_text (acc ++ driver) ≡ true
    → matches_pairs s ≡ true
    → find_pairs acc (driver ++ b'=' ∷ s) ≡ some (acc ++ driver, s)
unfolding find_pairs
find_pairs-driver acc [] s h some_driver ok_pairs =
    let e : is_some_text acc ≡ true = rw (append-nil acc) at some_driver in
    rw (e, ok_pairs, append-nil acc)
find_pairs-driver acc (c ∷ driver) s h some_driver ok_pairs =
    let ih =
      find_pairs-driver (acc ++ c ∷ []) driver s h.1 (rw append_assoc some_driver) ok_pairs in
    let e : find_pairs (acc ++ c ∷ []) (driver ++ b'=' ∷ s) ≡ some (acc ++ c ∷ driver, s) =
      rw append_assoc at ih in
    ground (arith, e)

-- The pairs, with commas between them.
abbrev joined : Dict Text Text → Text
joined [] = []
joined (e ∷ []) = pair_text e
joined (e ∷ f ∷ es) = pair_text e ++ b',' ∷ joined (f ∷ es)

truncated-append : (s t : Text) (c : ℕ) → truncated (s ++ c ∷ t) ≡ s ++ truncated (c ∷ t)
unfolding truncated
truncated-append [] t c = refl
truncated-append (a ∷ []) t c = refl
truncated-append (a ∷ b ∷ s) t c = ap (λ r. a ∷ r) (truncated-append (b ∷ s) t c)

truncated-cons : (c : ℕ) (s : Text) → is_some_text s ≡ true → truncated (c ∷ s) ≡ c ∷ truncated s
unfolding truncated
truncated-cons c [] h = cc
truncated-cons c (d ∷ s) h = refl

some-append : (s t : Text) (c : ℕ) → is_some_text (s ++ c ∷ t) ≡ true
some-append [] t c = refl
some-append (a ∷ s) t c = refl

some-pair_texts :
    (e : Text × Text) (es : Dict Text Text) → is_some_text (pair_texts (e ∷ es)) ≡ true
unfolding pair_texts
some-pair_texts (k, v) es = rw append_assoc (some-append k _ b':')

truncated-pair_texts : (es : Dict Text Text) → truncated (pair_texts es) ≡ joined es
unfolding pair_texts truncated
truncated-pair_texts [] = refl
truncated-pair_texts (e ∷ []) = truncated-append (pair_text e) [] b',' ∙ append-nil (pair_text e)
truncated-pair_texts (e ∷ f ∷ es) =
    truncated-append (pair_text e) (pair_texts (f ∷ es)) b','
    ∙ ap (λ r. pair_text e ++ r)
        (truncated-cons b',' (pair_texts (f ∷ es)) (some-pair_texts f es)
          ∙ ap (λ r. b',' ∷ r) (truncated-pair_texts (f ∷ es)))

IsPlain-NotBlank : (s : Text) → All IsPlain s → All NotBlank s
IsPlain-NotBlank [] h = tt
IsPlain-NotBlank (c ∷ s) h = (h.0.0, IsPlain-NotBlank s h.1)

pair_text-NotBlank : (e : Text × Text) → IsPair e → All NotBlank (pair_text e)
pair_text-NotBlank (k, v) h =
    All-append NotBlank k (b':' ∷ b':' ∷ v) (IsPlain-NotBlank k h.0.plain)
      (refl, (refl, IsPlain-NotBlank v h.1.plain))

joined-NotBlank : (es : Dict Text Text) → All IsPair es → All NotBlank (joined es)
joined-NotBlank [] h = tt
joined-NotBlank (e ∷ []) h = pair_text-NotBlank e h.0
joined-NotBlank (e ∷ f ∷ es) h =
    All-append NotBlank (pair_text e) (b',' ∷ joined (f ∷ es)) (pair_text-NotBlank e h.0)
      (refl, joined-NotBlank (f ∷ es) h.1)

matches_pair_rest :
    (k v rest : Text)
    → IsWord k
    → IsWord v
    → All NotBlank rest
    → matches_pairs (k ++ b':' ∷ b':' ∷ (v ++ rest)) ≡ true
matches_pair_rest [] v rest hk hv h = cc hk.some_byte
matches_pair_rest (a ∷ k) [] rest hk hv h = cc hv.some_byte
matches_pair_rest (a ∷ k) (b ∷ v) rest hk hv h =
    matches_pair a k b (v ++ rest) hk.plain
      (All-append NotBlank (b ∷ v) rest (IsPlain-NotBlank (b ∷ v) hv.plain) h)

matches-joined : (es : Dict Text Text) → All IsPair es → matches_pairs (joined es) ≡ true
unfolding matches_pairs
matches-joined [] h = refl
matches-joined ((k, v) ∷ []) h = rw append-nil at (matches_pair_rest k v [] h.0.0 h.0.1 tt)
matches-joined ((k, v) ∷ f ∷ es) h = rw append_assoc (
    matches_pair_rest k v (b',' ∷ joined (f ∷ es)) h.0.0 h.0.1 (refl, joined-NotBlank (f ∷ es) h.1))

-- The pairs are split again.
split_colons-word : (v : Text) → All IsPlain v → split_colons v ≡ v ∷ []
unfolding split_colons
split_colons-word [] h = refl
split_colons-word (c ∷ []) h = refl
split_colons-word (c ∷ d ∷ s) h = ground (arith, split_colons-word (d ∷ s) h.1)

split_colons-pair :
    (k v : Text) → All IsPlain k → All IsPlain v → split_colons (k ++ b':' ∷ b':' ∷ v) ≡ k ∷ v ∷ []
unfolding split_colons
split_colons-pair [] v hk hv = ap (λ r. [] ∷ r) (split_colons-word v hv)
split_colons-pair (c ∷ []) v hk hv = ground (arith, split_colons-word v hv)
split_colons-pair (c ∷ d ∷ k) v hk hv = ground (arith, split_colons-pair (d ∷ k) v hk.1 hv)

abbrev NoComma : ℕ → Type 0
NoComma c = nat_beq b',' c ≡ false

IsPlain-NoComma : (s : Text) → All IsPlain s → All NoComma s
IsPlain-NoComma [] h = tt
IsPlain-NoComma (c ∷ s) h = (ground arith, IsPlain-NoComma s h.1)

pair_text-NoComma : (e : Text × Text) → IsPair e → All NoComma (pair_text e)
pair_text-NoComma (k, v) h =
    All-append NoComma k (b':' ∷ b':' ∷ v) (IsPlain-NoComma k h.0.plain)
      (refl, (refl, IsPlain-NoComma v h.1.plain))

abbrev texts_of : Dict Text Text → List Text
texts_of [] = []
texts_of (e ∷ es) = pair_text e ∷ texts_of es

split-joined :
    (e : Text × Text) (es : Dict Text Text)
    → All IsPair (e ∷ es)
    → split b',' (joined (e ∷ es)) ≡ texts_of (e ∷ es)
unfolding split
split-joined e [] h = split_at-word (nat_beq b',') (pair_text e) (pair_text-NoComma e h.0)
split-joined e (f ∷ es) h =
    split_at-separator (nat_beq b',') (pair_text e) b',' (joined (f ∷ es)) (pair_text-NoComma e h.0)
      refl
    ∙ ap (λ r. pair_text e ∷ r) (split-joined f es h.1)

add_pairs-texts :
    (m es : Dict Text Text)
    → All IsPair es
    → Distinct (m ++ es)
    → add_pairs m (texts_of es) ≡ m ++ es
unfolding add_pairs
add_pairs-texts m [] h d = sym (append-nil m)
add_pairs-texts m ((k, v) ∷ es) h d =
    let fresh = put_fresh m k v (fresh_of_Distinct m k v es d) in
    ap (λ ps. add_pairs (add_pair m ps) (texts_of es))
      (split_colons-pair k v h.0.0.plain h.0.1.plain)
    ∙ ap (λ r. add_pairs r (texts_of es)) fresh
    ∙ add_pairs-texts (m ++ (k, v) ∷ []) es h.1 (rw append_assoc d)
    ∙ append_assoc m _ es

read_map :
    (es : Dict Text Text) → All IsPair es → Distinct es → add_pairs [] (split b',' (joined es)) ≡ es
unfolding split split_at add_pairs split_colons
read_map [] h d = refl
read_map (e ∷ es) h d = ap (add_pairs []) (split-joined e es h) ∙ add_pairs-texts [] (e ∷ es) h d

-- Local devices whose map is written in the order of its keys, whose driver has a name with no equals
-- sign and no line feed, and whose keys and values have a byte, and no white space, comma or colon: they are read back from
-- their text.
pub unmarshal_text-marshal_text :
    (l : LocalDevices) → IsPrintable l → unmarshal_text (marshal_text l) ≡ ok l
unfolding unmarshal_text marshal_text
unmarshal_text-marshal_text l h = rw (
  sort_by-sorted key_of l.device_map h.ordered,
  truncated-pair_texts l.device_map,
  find_pairs-driver [] l.driver (joined l.device_map) h.driver_bytes h.named
      (matches-joined l.device_map h.pairs),
  read_map l.device_map h.pairs h.distinct,
)

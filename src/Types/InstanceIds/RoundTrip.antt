-- ===== src/Types/InstanceIds/RoundTrip.antt =====
-- The text of an instance ID, of api/types/types_instanceid.go, is read back.
use libstorage.Base.{
  ℕ, [], ◌∷◌, ◌++◌, append-nil, append_assoc, false, some, Text, ok, ◌≡◌, ◌≢◌, refl, sym, ap, ◌∙◌,
  arith, All, All-append, nat_beq, nat_eq, text_eq, ◌==◌,
}
use libstorage.Base.Dict.{Dict, Distinct}
use libstorage.Base.Order.{IsSorted, sort_by-sorted}
use libstorage.Base.Split.{split, split_at, split_at-word, split_at-separator}
use libstorage.Types.Models.{InstanceId}
use libstorage.Types.InstanceIds.{
  Base64, marshal_text, unmarshal_text, encode_fields, parse_fields, read_fields, add_parts, cut_at,
  cut_fields, has_line_feed, key_of, service_text, more_text, with_driver, with_id, with_groups,
  with_fields, with_metadata, first, second,
}
use libstorage.Types.InstanceIds.Fields.{
  Lacks, IsField, IsPlain, cut_at-found, cut_at-absent, parse_fields-encode_fields,
  encode_fields-IsPlain,
}

-- Metadata is coded in base64 without line feeds, and what one read decodes is the metadata.
abbrev pub IsCoded : Base64 → Text → Type 0
IsCoded b64 [] = Unit
IsCoded b64 (c ∷ m) =
    (d : ℕ) × (t : Text) × (b64.encode (c ∷ m) ≡ d ∷ t)
    × (has_line_feed (d ∷ t) ≡ false)
    × (b64.read (d ∷ t) ≡ some (c ∷ m))

pub record IsPrintable (b64 : Base64) (i : InstanceId) : Type 0 where
  pub named : i.driver ≢ []
  pub driver_bytes : Lacks b'=' i.driver × Lacks b':' i.driver
  pub service_bytes : Lacks b'=' i.service × Lacks b':' i.service
  pub id_bytes : Lacks b',' i.id
  pub fields_bytes : All IsField i.fields
  pub distinct : Distinct i.fields
  pub ordered : IsSorted key_of i.fields
  pub coded : IsCoded b64 i.metadata

read_fields-parse_fields : (t : Text) → read_fields t ≡ parse_fields t
unfolding parse_fields read_fields
read_fields-parse_fields [] = unfold split_at add_parts in refl
read_fields-parse_fields (c ∷ t) = refl

cut_fields-plain : (acc f : Text) → All IsPlain f → cut_fields acc f ≡ some (acc ++ f, [])
unfolding cut_fields
cut_fields-plain acc [] h = ap (λ r. some (r, [])) (sym (append-nil acc))
cut_fields-plain acc (c ∷ []) (h, hs) = rw h.1
cut_fields-plain acc (c ∷ d ∷ f) (h, hs) =
    rw (h.1, h.0, cut_fields-plain (acc ++ c ∷ []) (d ∷ f) hs)
      (ap (λ r. some (r, [])) (append_assoc acc (c ∷ []) (d ∷ f)))

cut_fields-comma :
    (acc f : Text) (d : ℕ) (m : Text)
    → All IsPlain f
    → has_line_feed (d ∷ m) ≡ false
    → cut_fields acc (f ++ b',' ∷ d ∷ m) ≡ some (acc ++ f, d ∷ m)
unfolding cut_fields
cut_fields-comma acc [] d m h lf = rw lf (ap (λ r. some (r, d ∷ m)) (sym (append-nil acc)))
cut_fields-comma acc (c ∷ []) d m (h, hs) lf = rw (h.1, h.0, lf)
cut_fields-comma acc (c ∷ e ∷ f) d m (h, hs) lf =
    rw (h.1, h.0, cut_fields-comma (acc ++ c ∷ []) (e ∷ f) d m hs lf)
      (ap (λ r. some (r, d ∷ m)) (append_assoc acc (c ∷ []) (e ∷ f)))

Lacks-sep : (x : ℕ) (s : Text) → Lacks x s → All (λ c. nat_beq x c ≡ false) s
Lacks-sep x [] h = tt
Lacks-sep x (c ∷ s) (h, hs) = (ground arith, Lacks-sep x s hs)

-- The driver and the service.
split_driver :
    (driver service : Text)
    → Lacks b':' driver
    → Lacks b':' service
    → (first (split b':' (driver ++ service_text service)) ≡ driver)
      × (second (split b':' (driver ++ service_text service)) ≡ service)
unfolding split
split_driver driver [] hd hs =
    rw (append-nil driver, split_at-word (nat_beq b':') driver (Lacks-sep b':' driver hd))
      (refl, refl)
split_driver driver (c ∷ s) hd hs =
    rw
      (
        split_at-separator (nat_beq b':') driver b':' (c ∷ s) (Lacks-sep b':' driver hd) refl,
        split_at-word (nat_beq b':') (c ∷ s) (Lacks-sep b':' (c ∷ s) hs),
      )
      (refl, refl)

read_encoded :
    (fs : Dict Text Text) → All IsField fs → Distinct fs → read_fields (encode_fields fs) ≡ some fs
read_encoded fs h d =
    read_fields-parse_fields (encode_fields fs) ∙ parse_fields-encode_fields fs h d

-- What stands behind the ID.
module _ (b64 : Base64) (dos id : Text) (plain : Lacks b',' id) where
  with_id-more :
      (fs : Dict Text Text) (m : Text)
      → All IsField fs
      → Distinct fs
      → IsSorted key_of fs
      → IsCoded b64 m
      → with_id b64 dos (cut_at b',' [] (id ++ more_text b64 fs m))
        ≡ with_metadata dos id fs (some m)
  unfolding with_id with_groups with_fields more_text
  with_id-more [] [] h d o k =
      rw (append-nil id, cut_at-absent b',' [] id plain) (unfold read_fields in refl)
  with_id-more [] (c ∷ m) h d o (e, t, coded, no_feed, decoded) =
      rw
        (
          cut_at-found b',' [] id (b',' ∷ b64.encode (c ∷ m)) plain,
          coded,
          cut_fields-comma [] [] e t tt no_feed,
          decoded,
        )
        (unfold read_fields in refl)
  with_id-more (f ∷ fs) [] h d o k = rw (
    sort_by-sorted key_of (f ∷ fs) o,
    append-nil (encode_fields (f ∷ fs)),
    cut_at-found b',' [] id (encode_fields (f ∷ fs)) plain,
    cut_fields-plain [] (encode_fields (f ∷ fs)) (encode_fields-IsPlain (f ∷ fs) h),
    read_encoded (f ∷ fs) h d,
  )
  with_id-more (f ∷ fs) (c ∷ m) h d o (e, t, coded, no_feed, decoded) = rw (
    sort_by-sorted key_of (f ∷ fs) o,
    coded,
    cut_at-found b',' [] id (encode_fields (f ∷ fs) ++ b',' ∷ e ∷ t) plain,
    cut_fields-comma [] (encode_fields (f ∷ fs)) e t (encode_fields-IsPlain (f ∷ fs) h) no_feed,
    read_encoded (f ∷ fs) h d,
    decoded,
  )

with_driver-some :
    (b64 : Base64) (dos s : Text)
    → dos ≢ []
    → with_driver b64 (dos, some s) ≡ with_id b64 dos (cut_at b',' [] s)
unfolding with_driver
with_driver-some b64 [] s h = absurd (h refl)
with_driver-some b64 (c ∷ dos) s h = refl

some_driver : (driver service : Text) → driver ≢ [] → driver ++ service_text service ≢ []
some_driver [] service h e = h refl
some_driver (c ∷ driver) service h e = cc e

Lacks-service : (service : Text) → Lacks b'=' service → Lacks b'=' (service_text service)
Lacks-service [] h = tt
Lacks-service (c ∷ s) h = (refl, h)

-- An instance ID whose driver has a name, whose driver and service have no equals sign and no colon, whose ID has
-- no comma, whose fields are bytes under different keys in their order, and whose metadata is coded without line feeds and
-- decoded by one read: it is read back from its text.
pub instance_id_read_back :
    (b64 : Base64) (i : InstanceId)
    → IsPrintable b64 i
    → unmarshal_text b64 (marshal_text b64 i) ≡ ok i
unfolding unmarshal_text marshal_text with_metadata
instance_id_read_back b64 i h =
    let dos = i.driver ++ service_text i.service in
    let lacks =
      All-append (λ c. (c == b'=') ≡ false) i.driver (service_text i.service) h.driver_bytes.0
        (Lacks-service i.service h.service_bytes.0) in
    let names = split_driver i.driver i.service h.driver_bytes.1 h.service_bytes.1 in
    rw (
      append_assoc dos (b'=' ∷ i.id) (more_text b64 i.fields i.metadata),
      cut_at-found b'=' [] dos (i.id ++ more_text b64 i.fields i.metadata) lacks,
      with_driver-some b64 dos (i.id ++ more_text b64 i.fields i.metadata)
          (some_driver i.driver i.service h.named),
      with_id-more b64 dos i.id h.id_bytes i.fields i.metadata h.fields_bytes h.distinct h.ordered
          h.coded,
      names.0,
      names.1,
    )

-- ===== src/Types/Transactions/RoundTrip.antt =====
-- The text of a transaction, of api/types/types_tx.go, is read back.
use libstorage.Base.{
  ℕ, ◌<◌, ◌^◌, [], ◌∷◌, ◌++◌, true, false, ◌&&◌, some, none, Text, codes, ok, ◌≡◌, refl, All, arith,
  leb, ◌==◌, nat_eq, text_beq, to_lower,
}
use libstorage.Base.Int.{pos, format_int, format_int-digits, parse_int-format_int}
use libstorage.Types.Uuids.{Uuid}
use libstorage.Types.Uuids
use libstorage.Types.Uuids.RoundTrip.{IsUuid, uuid_read_back, uuid_text_plain}
use libstorage.Types.Transactions.{
  Transaction, marshal_text, unmarshal_text, find_groups, cut_at_last_comma, behind, are_digits,
  has_line_feed, skip_blanks,
}

cut_nothing : (b : Text) → All (λ c. (c == b',') ≡ false) b → cut_at_last_comma b ≡ none
unfolding cut_at_last_comma
cut_nothing [] h = refl
cut_nothing (c ∷ b) (h, hs) = rw (cut_nothing b hs, h)

cut_at_last_comma-append :
    (a b : Text)
    → All (λ c. (c == b',') ≡ false) b
    → cut_at_last_comma (a ++ b',' ∷ b) ≡ some (a, b)
unfolding cut_at_last_comma
cut_at_last_comma-append [] b h = rw (cut_nothing b h)
cut_at_last_comma-append (c ∷ a) b h = rw (cut_at_last_comma-append a b h)

digits_plain :
    (s : Text) → All (λ c. (leb b'0' c && leb c b'9') ≡ true) s → All (λ c. (c == b',') ≡ false) s
digits_plain [] h = tt
digits_plain (c ∷ s) (h, hs) = (ground arith, digits_plain s hs)

all_digits : (s : Text) → All (λ c. (leb b'0' c && leb c b'9') ≡ true) s → are_digits s ≡ true
unfolding are_digits
all_digits [] h = refl
all_digits (c ∷ s) (h, hs) = rw (h, all_digits s hs)

no_line_feed : (s : Text) → All (λ c. (c == 10) ≡ false) s → has_line_feed s ≡ false
unfolding has_line_feed
no_line_feed [] h = refl
no_line_feed (c ∷ s) (h, hs) = rw (h, no_line_feed s hs)

-- The groups of a text that has an ID without a line feed, and digits.
find_groups_lem :
    (i d : ℕ) (id ds : Text)
    → All (λ c. (c == 10) ≡ false) (i ∷ id)
    → All (λ c. (leb b'0' c && leb c b'9') ≡ true) (d ∷ ds)
    → find_groups (codes "txID=" ++ ((i ∷ id) ++ (codes ", txCR=" ++ d ∷ ds)))
      ≡ some (i ∷ id, d ∷ ds)
unfolding find_groups behind to_lower text_beq skip_blanks
find_groups_lem i d id ds plain digits = rw (
  cut_at_last_comma-append (i ∷ id) (codes " txCR=" ++ d ∷ ds)
      (refl, (refl, (refl, (refl, (refl, (refl, digits_plain (d ∷ ds) digits)))))),
  all_digits (d ∷ ds) digits,
  no_line_feed (i ∷ id) plain,
)

find_groups-marshal_text :
    (id : Uuid) (n : ℕ)
    → IsUuid id
    → find_groups
        (codes "txID=" ++ (Uuids.marshal_text id ++ (codes ", txCR=" ++ format_int (pos n))))
      ≡ some (Uuids.marshal_text id, format_int (pos n))
find_groups-marshal_text id n h =
    let (i, is, e, plain) = uuid_text_plain id h in
    let (d, ds, f, digits) = format_int-digits n in
    rw (e, f) (find_groups_lem i d is ds plain digits)

-- A transaction whose ID is a UUID with a version from 1 to 5, and whose time is not before the epoch and its seconds in the
-- range of an int64: from its text the transaction with the same ID and the same second is read, and the part of the
-- second is lost.
pub transaction_read_back :
    (t : Transaction) (n : ℕ)
    → IsUuid t.id
    → t.created.unix ≡ pos n
    → n < 2 ^ 63
    → unmarshal_text (marshal_text t)
      ≡ ok (record t { created = record t.created { nanosecond = 0 } })
unfolding unmarshal_text marshal_text
transaction_read_back t n h e small = rw (
  e,
  find_groups-marshal_text t.id n h,
  uuid_read_back t.id h,
  parse_int-format_int (pos n) small,
)

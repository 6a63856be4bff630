-- ===== src/Types/Transactions.antt =====
-- Transaction of api/types/types_tx.go and its text. The location of a time is left out. The expression `txRX` is a
-- matcher of its parts.
pub mod RoundTrip
mod Tests
use libstorage.Base.{
  ℕ, [], ◌∷◌, ◌++◌, Bool, true, false, ◌&&◌, ◌||◌, Option, none, some, Text, codes, Result, ok, err,
  if◌then◌else◌, ◌==◌, nat_eq, leb, text_eq, to_lower,
}
use libstorage.Base.Int.{ℤ, format_int, parse_int}
use libstorage.Types.Errors.{Error, goof}
use libstorage.Types.Uuids
use libstorage.Types.Uuids.{Uuid}

-- A time.Time: the seconds since the epoch, and the nanoseconds in the second.
pub record TxTimestamp : Type 0 where
  pub unix : ℤ
  pub nanosecond : ℕ

pub record Transaction : Type 0 where
  pub id : Uuid
  pub created : TxTimestamp

-- String, and MarshalText
unfoldable pub marshal_text : Transaction → Text
marshal_text t =
    codes "txID=" ++ (Uuids.marshal_text t.id ++ (codes ", txCR=" ++ format_int t.created.unix))

-- `\s`
abbrev pub is_blank : ℕ → Bool
is_blank c = c == 9 || c == 10 || c == 12 || c == 13 || c == 32

unfoldable pub skip_blanks : Text → Text
skip_blanks [] = []
skip_blanks (c ∷ s) = let rest = skip_blanks s in if is_blank c then rest else c ∷ s

unfoldable pub are_digits : Text → Bool
are_digits [] = true
are_digits (c ∷ s) = (leb b'0' c && leb c b'9') && are_digits s

-- What stands behind `name`, in any case.
unfoldable pub behind : Text → Text → Option Text
behind [] s = some s
behind (c ∷ name) [] = none
behind (c ∷ name) (d ∷ s) =
    let rest = behind name s in if to_lower (c ∷ []) == to_lower (d ∷ []) then rest else none

abbrev pub put_before : ℕ → Text → Option (Text × Text) → Option (Text × Text)
put_before c s (some (a, b)) = some (c ∷ a, b)
put_before c s none = if c == b',' then some ([], s) else none

-- The text before the last comma, and the one behind it: `.+` takes as much as it can, and what follows the
-- comma of the expression has none.
unfoldable pub cut_at_last_comma : Text → Option (Text × Text)
cut_at_last_comma [] = none
cut_at_last_comma (c ∷ s) = put_before c s (cut_at_last_comma s)

unfoldable pub has_line_feed : Text → Bool
has_line_feed [] = false
has_line_feed (c ∷ s) = c == 10 || has_line_feed s

abbrev pub created_digits : Option Text → Option Text
unfolding are_digits
created_digits none = none
created_digits (some []) = none
created_digits (some (c ∷ s)) = if are_digits (c ∷ s) then some (c ∷ s) else none

abbrev pub paired : Text → Option Text → Option (Text × Text)
unfolding has_line_feed
paired [] digits = none
paired (c ∷ id) none = none
paired (c ∷ id) (some digits) = if has_line_feed (c ∷ id) then none else some (c ∷ id, digits)

abbrev pub groups_of : Option (Text × Text) → Option (Text × Text)
unfolding skip_blanks behind are_digits has_line_feed to_lower
groups_of none = none
groups_of (some (id, s)) = paired id (created_digits (behind (codes "txCR=") (skip_blanks s)))

abbrev pub behind_id : Option Text → Option (Text × Text)
unfolding cut_at_last_comma skip_blanks behind are_digits has_line_feed to_lower
behind_id none = none
behind_id (some s) = groups_of (cut_at_last_comma s)

-- The groups of txRX: the ID, and the digits of the time.
unfoldable pub find_groups : Text → Option (Text × Text)
unfolding cut_at_last_comma skip_blanks behind are_digits has_line_feed to_lower
find_groups s = behind_id (behind (codes "txID=") s)

abbrev pub invalid_transaction : Error
invalid_transaction = goof (codes "invalid transaction")

abbrev pub with_created : Uuid → Option ℤ → Result Error Transaction
with_created id none = err (goof (codes "value out of range"))
with_created id (some i) = ok (record { id = id; created = record { unix = i; nanosecond = 0 } })

abbrev pub with_id : Result Error Uuid → Text → Result Error Transaction
unfolding parse_int
with_id (err e) digits = err e
with_id (ok id) digits = with_created id (parse_int digits)

abbrev pub of_groups : Option (Text × Text) → Result Error Transaction
unfolding parse_int Uuids.unmarshal_text
of_groups none = err invalid_transaction
of_groups (some (id, digits)) = with_id (Uuids.unmarshal_text id) digits

unfoldable pub unmarshal_text : Text → Result Error Transaction
unfolding find_groups parse_int Uuids.unmarshal_text
unmarshal_text text = of_groups (find_groups text)

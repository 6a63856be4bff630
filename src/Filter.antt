-- ===== src/Filter.antt =====
-- CompileFilter of api/utils/filters/filters.go and the filter type of api/types/types_filter.go.
-- The compiler recurs on fuel, and `compile` gives one unit for each byte and one more.
pub mod Fuel
pub mod Printer
mod Items
mod Operands
pub mod RoundTrip
pub mod Faults
mod Tests
use libstorage.Base.{
  ℕ, zero, suc, ◌+◌, ◌-◌, ◌*◌, List, [], ◌∷◌, ◌++◌, Bool, true, false, ◌&&◌, ◌||◌, Option, none,
  some, Text, codes, ltb, leb, if◌then◌else◌, ◌==◌, nat_eq, Result, ok, err, length, get_elem?,
  drop,
}

pub data FilterOperator : Type 0 where
  filter_and filter_or filter_not filter_present filter_equality_match : FilterOperator
  filter_substrings filter_substrings_prefix filter_substrings_postfix : FilterOperator
  filter_greater_or_equal filter_less_or_equal filter_approx_match : FilterOperator

mutual
  pub data Filter : Type 0 where
    filter : FilterOperator → Filters → Text → Text → Filter

  -- A list of filters, the children.
  pub data Filters : Type 0 where
    nil : Filters
    cons : Filter → Filters → Filters

-- How a run ends without a filter: with an error value, with a panic of the runtime (an index or
-- a slice out of range), or, in the model only, without fuel.
pub data Failure : Type 0 where
  error : Text → Failure
  panic : Failure
  out_of_fuel : Failure

abbrev pub err_char_zero_not_lparen : Failure
err_char_zero_not_lparen = error (codes "filter does not start with an '()'")

abbrev pub err_unexpected_eof : Failure
err_unexpected_eof = error (codes "unexpected end of filter")

abbrev pub err_parse : Failure
err_parse = error (codes "error parsing filter")

abbrev pub err_extra : Failure
err_extra = error (codes "finished compiling filter with extra at end")

abbrev pub err_escape : Failure
err_escape = error (codes "invalid URL escape")

-- What `switch s[pos]` finds; `beyond` is an index out of range.
pub data Opening : Type 0 where
  beyond group all any negated item : Opening

unfoldable pub opening : Option ℕ → Opening
opening none = beyond
opening (some c) =
    if c == b'('
    then group
    else if c == b'&'
    then all
    else if c == b'|'
    then any
    else if c == b'!'
    then negated
    else item

-- What one round of the loop over an item does with a byte: end the loop, append the byte to the
-- right or to the left buffer, read an operator of one or of two bytes, or index out of range.
pub data Move : Type 0 where
  close content left overrun : Move
  single pair : FilterOperator → Move

abbrev two_bytes : ℕ → Option FilterOperator
two_bytes c =
    if c == b'>'
    then some filter_greater_or_equal
    else if c == b'<'
    then some filter_less_or_equal
    else if c == b'~'
    then some filter_approx_match
    else none

abbrev second : FilterOperator → Option ℕ → Move
second o none = overrun
second o (some d) = if d == b'=' then pair o else left

abbrev open_move : ℕ → Option ℕ → Move
open_move c next =
    if c == b'='
    then single filter_equality_match
    else elim (two_bytes c) [ none ↦ left | some o ↦ second o next ]

unfoldable pub move : Option FilterOperator → ℕ → Option ℕ → Move
move (some o) c next = if c == b')' then close else content
move none c next = if c == b')' then close else open_move c next

abbrev pub last_byte : ℕ → Text → ℕ
last_byte d [] = d
last_byte d (c ∷ s) = last_byte c s

abbrev pub all_but_last : Text → Text
all_but_last [] = []
all_but_last (c ∷ []) = []
all_but_last (c ∷ d ∷ s) = c ∷ all_but_last (d ∷ s)

-- The final `switch`: the operator and the right operand for the bytes `c ∷ s` of the buffer.
unfoldable pub classify : FilterOperator → ℕ → Text → FilterOperator × Text
classify filter_equality_match c [] =
    if c == b'*' then (filter_present, []) else (filter_equality_match, c ∷ [])
classify filter_equality_match c (d ∷ s) =
    let star_first = c == b'*' in
    let star_last = last_byte d s == b'*' in
    if star_first && (star_last && ltb 2 (length (c ∷ d ∷ s)))
    then (filter_substrings, all_but_last (d ∷ s))
    else if star_first
    then (filter_substrings_prefix, d ∷ s)
    else if star_last
    then (filter_substrings_postfix, all_but_last (c ∷ d ∷ s))
    else (filter_equality_match, c ∷ d ∷ s)
classify o c s = (o, c ∷ s)

abbrev pub leaf : Text → FilterOperator × Text → Filter
leaf l (o, r) = filter o nil l r

-- What follows the loop at the closing parenthesis at `pos`.
unfoldable pub finish : Option FilterOperator → Text → Text → ℕ → Result Failure (Filter × ℕ)
finish none l r pos = err err_parse
finish (some o) l [] pos = err panic
finish (some o) l (c ∷ s) pos = ok (leaf l (classify o c s), pos + 1)

abbrev pub head : Text → Option ℕ
head [] = none
head (c ∷ s) = some c

-- The loop over an item; `s` is the text from `pos` on.
unfoldable pub compile_item :
    Text → ℕ → Option FilterOperator → Text → Text → Result Failure (Filter × ℕ)
compile_item [] pos f l r = err err_unexpected_eof
compile_item (c ∷ []) pos f l r = elim (move f c none) [
  | close ↦ finish f l r pos
  | content ↦ err err_unexpected_eof
  | left ↦ err err_unexpected_eof
  | overrun ↦ err panic
  | single o ↦ err err_unexpected_eof
  | pair o ↦ err err_unexpected_eof
]
compile_item (c ∷ d ∷ s) pos f l r = elim (move f c (some d)) [
  | close ↦ finish f l r pos
  | content ↦ compile_item (d ∷ s) (pos + 1) f l (r ++ c ∷ [])
  | left ↦ compile_item (d ∷ s) (pos + 1) f (l ++ c ∷ []) r
  | overrun ↦ err panic
  | single o ↦ compile_item (d ∷ s) (pos + 1) (some o) l r
  | pair o ↦ compile_item s (pos + 2) (some o) l r
]

abbrev pub past_paren : Result Failure (Filter × ℕ) → Result Failure (Filter × ℕ)
past_paren (ok (f, pos)) = ok (f, pos + 1)
past_paren (err e) = err e

abbrev pub compound : FilterOperator → Result Failure (Filters × ℕ) → Result Failure (Filter × ℕ)
compound o (ok (fs, pos)) = ok (filter o fs [] [], pos)
compound o (err e) = err e

abbrev pub complement : Result Failure (Filter × ℕ) → Result Failure (Filter × ℕ)
complement (ok (f, pos)) = ok (filter filter_not (cons f nil) [] [], pos)
complement (err e) = err e

abbrev pub prepend : Filter → Result Failure (Filters × ℕ) → Result Failure (Filters × ℕ)
prepend f (ok (fs, pos)) = ok (cons f fs, pos)
prepend f (err e) = err e

-- What follows the loop over a set.
abbrev pub set_end : Text → ℕ → Result Failure (Filters × ℕ)
set_end s pos = if pos == length s then err err_unexpected_eof else ok (nil, pos + 1)

unfoldable mutual
  pub compile_filter : ℕ → Text → ℕ → Result Failure (Filter × ℕ)
  compile_filter zero s pos = err out_of_fuel
  compile_filter (suc fuel) s pos = elim (opening (get_elem? s pos)) [
    | beyond ↦ err panic
    | group ↦ past_paren (compile_filter fuel s (pos + 1))
    | all ↦ compound filter_and (compile_filter_set fuel s (pos + 1))
    | any ↦ compound filter_or (compile_filter_set fuel s (pos + 1))
    | negated ↦ complement (compile_filter fuel s (pos + 1))
    | item ↦ compile_item (drop pos s) pos none [] []
  ]

  -- The loop of compileFilterSet; the children that the source appends to the parent are the result.
  pub compile_filter_set : ℕ → Text → ℕ → Result Failure (Filters × ℕ)
  compile_filter_set zero s pos = err out_of_fuel
  compile_filter_set (suc fuel) s pos = elim (opening (get_elem? s pos)) [
    | group ↦ elim (compile_filter fuel s (pos + 1)) [
      | ok child ↦ prepend child.0 (compile_filter_set fuel s child.1)
      | err e ↦ err e
    ]
    | _ ↦ set_end s pos
  ]

abbrev pub hex_digit : ℕ → Option ℕ
hex_digit c =
    if leb b'0' c && leb c b'9'
    then some (c - b'0')
    else if leb b'a' c && leb c b'f'
    then some (c - b'a' + 10)
    else if leb b'A' c && leb c b'F'
    then some (c - b'A' + 10)
    else none

abbrev pub hex_pair : Option ℕ → Option ℕ → Option ℕ
hex_pair (some a) (some b) = some (16 * a + b)
hex_pair none b = none
hex_pair (some a) none = none

abbrev pub escaped : Option ℕ → Option Text → Option Text
escaped (some c) (some t) = some (c ∷ t)
escaped none t = none
escaped (some c) none = none

-- url.QueryUnescape
unfoldable pub query_unescape : Text → Option Text
query_unescape [] = some []
query_unescape (c ∷ []) = if c == b'%' then none else some ((if c == b'+' then b' ' else c) ∷ [])
query_unescape (c ∷ d ∷ []) =
    let rest = query_unescape (d ∷ []) in
    if c == b'%' then none else escaped (some (if c == b'+' then b' ' else c)) rest
query_unescape (c ∷ d ∷ e ∷ s) =
    let rest = query_unescape (d ∷ e ∷ s) in
    let behind = query_unescape s in
    if c == b'%'
    then escaped (hex_pair (hex_digit d) (hex_digit e)) behind
    else escaped (some (if c == b'+' then b' ' else c)) rest

-- The check for the end of the text; the slice in the error is out of range behind the end.
abbrev pub whole : Text → Result Failure (Filter × ℕ) → Result Failure Filter
whole s (err e) = err e
whole s (ok (f, pos)) =
    if pos == length s then ok f else if ltb (length s) pos then err panic else err err_extra

abbrev starts_with_paren : Text → Bool
starts_with_paren [] = false
starts_with_paren (c ∷ s) = c == b'('

-- CompileFilter behind the unescaping.
unfoldable pub compile_unescaped : Text → Result Failure Filter
compile_unescaped s =
    if starts_with_paren s
    then whole s (compile_filter (suc (length s)) s 1)
    else err err_char_zero_not_lparen

unfoldable pub compile_escaped : Option Text → Result Failure Filter
compile_escaped none = err err_escape
compile_escaped (some s) = compile_unescaped s

unfoldable pub compile : Text → Result Failure Filter
unfolding compile_escaped query_unescape compile_unescaped compile_filter opening compile_item move
    finish classify
compile t = compile_escaped (query_unescape t)

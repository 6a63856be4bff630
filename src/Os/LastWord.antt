-- ===== src/Os/LastWord.antt =====
-- The flags that parseOptions of drivers/os/linux/linux_mount.go makes of a list of options.
use libstorage.Base.{
  ℕ, List, [], ◌∷◌, ◌++◌, ◌≡◌, refl, ◌∙◌, sym, ap, Bool, true, false, not, Option, none, some, Text,
  text_eq, if◌then◌else◌, arith, append_assoc, append-nil,
}
use libstorage.Base.Split.{split, join}
use libstorage.Os.{Flags, is_bit}
use libstorage.Os.Options.{FlagOption, flag_option, take_option, take_options, parse_options}

-- What an option, with its entry of the table, says about a bit: nothing, or the value that it has then.
abbrev said : Option FlagOption → ℕ → Option Bool
said none b = none
said (some f) b = if is_bit b f.bits then some (not f.clear) else none

abbrev pub or_later : Option Bool → Option Bool → Option Bool
or_later earlier none = earlier
or_later earlier (some v) = some v

-- The last word on a bit, if there is one.
unfoldable pub last_word : List Text → ℕ → Option Bool
last_word [] b = none
last_word (o ∷ os) b = or_later (said (flag_option o) b) (last_word os b)

abbrev pub value_or : Bool → Option Bool → Bool
value_or d none = d
value_or d (some v) = v

abbrev pub no_flag : Option FlagOption → Bool
no_flag none = true
no_flag (some f) = elim f.bits [ [] ↦ true | b ∷ bs ↦ false ]

-- The options without a flag.
unfoldable pub flagless : List Text → List Text
flagless [] = []
flagless (o ∷ os) = let rest = flagless os in if no_flag (flag_option o) then o ∷ rest else rest

take_option-said :
    (o : Text) (f : Option FlagOption) (flag : Flags) (texts : List Text) (b : ℕ)
    → (take_option o f (flag, texts)).0 b ≡ value_or (flag b) (said f b)
take_option-said o none flag texts b = refl
take_option-said o (some f) flag texts b = go f.bits f.clear
  where
    go :
        (bits : List ℕ) (clear : Bool)
        → (take_option o (some (record { clear = clear; bits = bits })) (flag, texts)).0 b
          ≡ value_or (flag b) (said (some (record { clear = clear; bits = bits })) b)
    go [] clear = refl
    go (c ∷ cs) true = ground arith
    go (c ∷ cs) false = ground arith

take_option-texts :
    (o : Text) (f : Option FlagOption) (flag : Flags) (texts : List Text)
    → (take_option o f (flag, texts)).1 ≡ texts ++ (if no_flag f then o ∷ [] else [])
take_option-texts o none flag texts = refl
take_option-texts o (some f) flag texts = go f.bits f.clear
  where
    go :
        (bits : List ℕ) (clear : Bool)
        → let f : Option FlagOption = some (record { clear = clear; bits = bits }) in
          (take_option o f (flag, texts)).1 ≡ texts ++ (if no_flag f then o ∷ [] else [])
    go [] clear = refl
    go (c ∷ cs) clear = sym (append-nil texts)

value_or-later :
    (d : Bool) (u v : Option Bool) → value_or (value_or d u) v ≡ value_or d (or_later u v)
value_or-later d u none = refl
value_or-later d u (some v) = refl

one_more :
    (o : Text) (t : Bool) (os : List Text)
    → (if t then o ∷ [] else []) ++ os ≡ (if t then o ∷ os else os)
one_more o true os = refl
one_more o false os = refl

take_options-last_word :
    (os : List Text) (flag : Flags) (texts : List Text) (b : ℕ)
    → let r = take_options os (flag, texts) in
      (r.0 b ≡ value_or (flag b) (last_word os b)) × (r.1 ≡ texts ++ flagless os)
unfolding take_options last_word flagless
take_options-last_word [] flag texts b = (refl, sym (append-nil texts))
take_options-last_word (o ∷ os) flag texts b =
    let f = flag_option o in
    let st = take_option o f (flag, texts) in
    let rest = take_options-last_word os st.0 st.1 b in
    (
      rest.0
          ∙ ap (λ v. value_or v (last_word os b)) (take_option-said o f flag texts b)
          ∙ value_or-later (flag b) (said f b) (last_word os b),
      rest.1
          ∙ ap (λ ts. ts ++ flagless os) (take_option-texts o f flag texts)
          ∙ append_assoc texts (if no_flag f then o ∷ [] else []) (flagless os)
          ∙ ap (λ ts. texts ++ ts) (one_more o (no_flag f) (flagless os)),
    )

-- The flags and the text of a list of options: a bit of the flags is what the last option that names
-- it makes of it, and clear if there is none; the text is made of the options that stand for no flag,
-- in their order.
pub parse_options-last_word :
    (options : Text) (b : ℕ)
    → ((parse_options options).0 b ≡ value_or false (last_word (split b',' options) b))
      × ((parse_options options).1 ≡ join b',' (flagless (split b',' options)))
unfolding parse_options
parse_options-last_word options b =
    let h = take_options-last_word (split b',' options) (λ b. false) [] b in
    (h.0, ap (join b',') h.1)

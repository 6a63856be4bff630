-- ===== src/Base/Paths.antt =====
-- path.Join and path.Clean of Go's standard library.
use mathlib.Core.Bool.{Bool, true, false, ◌||◌}
use mathlib.Core.List.{List, [], ◌∷◌, ◌++◌, reverse}
use libstorage.Base.Tests.{nat_beq, if◌then◌else◌}
use libstorage.Base.Texts.{Text, codes, text_beq}

-- The parts of a path between its slashes; `part` is the one being read.
abbrev cut : Text → Text → List Text
cut [] part = part ∷ []
cut (c ∷ s) part = elim (nat_beq c b'/') [ true ↦ part ∷ cut s [] | false ↦ cut s (part ++ c ∷ []) ]

-- Behind "..", the last part that is kept goes; a ".." that has none to take is kept unless the
-- path is rooted.
abbrev up : Bool → List Text → List Text
up true [] = []
up false [] = codes ".." ∷ []
up rooted (p ∷ kept) = if text_beq p (codes "..") then codes ".." ∷ p ∷ kept else kept

abbrev resolve : Bool → List Text → List Text → List Text
resolve rooted [] kept = kept
resolve rooted (p ∷ ps) kept = resolve rooted ps (
    if text_beq p [] || text_beq p (codes ".")
    then kept
    else if text_beq p (codes "..")
    then up rooted kept
    else p ∷ kept)

abbrev slashed : List Text → Text
slashed [] = []
slashed (p ∷ []) = p
slashed (p ∷ q ∷ ps) = p ++ b'/' ∷ slashed (q ∷ ps)

abbrev is_rooted : Text → Bool
is_rooted [] = false
is_rooted (c ∷ s) = nat_beq c b'/'

abbrev or_dot : Text → Text
or_dot [] = codes "."
or_dot (c ∷ s) = c ∷ s

abbrev cleaned : Bool → Text → Text
cleaned true t = b'/' ∷ t
cleaned false t = or_dot t

unfoldable pub clean : Text → Text
unfolding text_beq
clean s = cleaned (is_rooted s) (slashed (reverse (resolve (is_rooted s) (cut s []) [])))

-- Two elements; the empty ones are left out.
unfoldable pub path_join : Text → Text → Text
unfolding clean
path_join [] [] = []
path_join [] (c ∷ t) = clean (c ∷ t)
path_join (c ∷ s) [] = clean (c ∷ s)
path_join (c ∷ s) (d ∷ t) = clean (c ∷ s ++ b'/' ∷ d ∷ t)

-- ===== src/Store/Getters.antt =====
-- What the typed getters of api/utils/utils_store.go make of values of other types.
use libstorage.Base.{◌≡◌, some, refl, Bool, true, false, Text}
use libstorage.Base.Int.{parse_bool, ℤ, IsInt64, format_int, parse_int-format_int}
use libstorage.Types.Values.{
  str, bool, num, NumKind, num_ptr, print_bool, bool_ptr, sprint, get_str_from_possible_ptr, int,
  int64,
}
use libstorage.Store.Typed.{as_int, as_int64, as_int64_ptr, as_bool, as_bool_ptr}

module _ (i : ℤ) (h : IsInt64 i) where
  num_int64 : (k : NumKind) → as_int64 (num k i) ≡ i
  unfolding as_int64 sprint
  num_int64 int64 = refl
  num_int64 _ = rw (parse_int-format_int i h)

  num_int : (k : NumKind) → as_int (num k i) ≡ i
  unfolding as_int sprint
  num_int int = refl
  num_int _ = rw (parse_int-format_int i h)

  num_int64_ptr : (k : NumKind) → as_int64_ptr (num k i) ≡ some i
  unfolding as_int64_ptr get_str_from_possible_ptr
  num_int64_ptr int64 = refl
  num_int64_ptr _ = rw (parse_int-format_int i h)

  ptr_int64_ptr : (a : Text) (k : NumKind) → as_int64_ptr (num_ptr a k i) ≡ some i
  unfolding as_int64_ptr get_str_from_possible_ptr
  ptr_int64_ptr a int64 = refl
  ptr_int64_ptr a _ = rw (parse_int-format_int i h)

  -- An integer in the range of an int64 is read back by GetInt64 and GetInt from a value of any
  -- integer type and from its decimal text, and by GetInt64Ptr also from a pointer to it.
  as_int64-format_int :
      (k : NumKind) (a : Text)
      → (as_int64 (num k i) ≡ i)
        × (as_int64 (str (format_int i)) ≡ i)
        × (as_int (num k i) ≡ i)
        × (as_int (str (format_int i)) ≡ i)
        × (as_int64_ptr (num k i) ≡ some i)
        × (as_int64_ptr (num_ptr a k i) ≡ some i)
        × (as_int64_ptr (str (format_int i)) ≡ some i)
  unfolding as_int64 as_int as_int64_ptr get_str_from_possible_ptr
  as_int64-format_int k a = (
    num_int64 k,
    rw (parse_int-format_int i h),
    num_int k,
    rw (parse_int-format_int i h),
    num_int64_ptr k,
    ptr_int64_ptr a k,
    rw (parse_int-format_int i h),
  )

-- A Boolean is read back by GetBool and GetBoolPtr from itself, and from the text that fmt prints
-- of it; GetBoolPtr also from a pointer to it.
pub as_bool-print_bool :
    (b : Bool) (a : Text)
    → (as_bool (bool b) ≡ b)
      × (as_bool (str (print_bool b)) ≡ b)
      × (as_bool_ptr (str (print_bool b)) ≡ some b)
      × (as_bool_ptr (bool_ptr a b) ≡ some b)
unfolding as_bool as_bool_ptr parse_bool get_str_from_possible_ptr
as_bool-print_bool true a = (refl, refl, refl, refl)
as_bool-print_bool false a = (refl, refl, refl, refl)

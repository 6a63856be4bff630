-- ===== src/Filter/Tests.antt =====
-- Runs of the filter compiler.
use libstorage.Base.{◌≡◌, ◌≢◌, arith, refl, codes, ok, err, []}
use libstorage.Filter.{
  Filter, Filters, filter, nil, cons, compile, filter_and, filter_not, filter_equality_match,
  filter_substrings_prefix, panic, filter_present, compile_unescaped, err_unexpected_eof,
  out_of_fuel,
}
use libstorage.Filter.Printer.{print, ArePrintable, IsPrintable, IsLeft}
use libstorage.Filter.RoundTrip.{compile_unescaped-print}
use libstorage.Filter.Fuel.{compile-ne-out_of_fuel}

compile_and :
    compile (codes "(%26(a=b)(!(c=*d)))")
    ≡ ok (
        filter filter_and
          (cons (filter filter_equality_match nil (codes "a") (codes "b")) (
            cons
              (filter filter_not
                (cons (filter filter_substrings_prefix nil (codes "c") (codes "d")) nil)
                []
                [])
              nil))
          []
          [])
unfolding compile
compile_and = refl

compile_empty_right : compile (codes "(a=)") ≡ err panic
unfolding compile
compile_empty_right = refl

compile_group : compile (codes "((a=b)") ≡ err panic
unfolding compile
compile_group = refl

compile_lone : compile (codes "(") ≡ err panic
unfolding compile
compile_lone = refl

compile_open : compile (codes "(a=b") ≡ err err_unexpected_eof
unfolding compile
compile_open = refl

-- The filter of `(&(a=b)(c=*))`.
abbrev both : Filter
both =
    filter filter_and
      (cons (filter filter_equality_match nil (codes "a") (codes "b"))
        (cons (filter filter_present nil (codes "c") []) nil))
      [] []

both-IsPrintable : IsPrintable both
both-IsPrintable = ground arith

compile_unescaped-print_example : compile_unescaped (print both) ≡ ok both
compile_unescaped-print_example = compile_unescaped-print both both-IsPrintable

compile-ne-out_of_fuel_example : compile (codes "(&(a=b)") ≢ err out_of_fuel
compile-ne-out_of_fuel_example = compile-ne-out_of_fuel (codes "(&(a=b)")

name-IsLeft : IsLeft (codes "name")
name-IsLeft = ground arith

abbrev two_children : Filters
two_children =
    cons (filter filter_equality_match nil (codes "a") (codes "b"))
      (cons (filter filter_present nil (codes "c") []) nil)

two_children-ArePrintable : ArePrintable two_children
two_children-ArePrintable = ground arith

-- ===== src/Examples/Table.antt =====
-- The table of server 1.0 at a small size, so that runs go round its end, and its results at concrete inputs.
use rest_technosphere_cpp_se.Base.{
  ◌≡◌, refl, none, some, Bytes, codes, text_eq, if◌then◌else◌, arith,
}
use rest_technosphere_cpp_se.Memory.{Mem, write, strcpy, strcmp, c_string}
use rest_technosphere_cpp_se.Locks.{follow}
use rest_technosphere_cpp_se.Probe.{switch_block, scan, wrap_around, find}
use rest_technosphere_cpp_se.Probe.Search.{first_from}
use rest_technosphere_cpp_se.Records.{IsKey, Fits, filled_with, is_free, lookup}
use rest_technosphere_cpp_se.Murmur
use rest_technosphere_cpp_se.PosixTable.Slots.{zeroed}
use rest_technosphere_cpp_se.BaseTable.{
  HashTableBase, IsGeometry, done, value_size, get, set, del, contents,
}
use rest_technosphere_cpp_se.BaseTable.Meaning.{IsValid, contents-set, set-IsValid}
use rest_technosphere_cpp_se.BaseTable.Deletion.{contents-del}

program : Unit {0}
unfolding text_eq write strcpy strcmp c_string follow switch_block scan wrap_around find first_from
    filled_with is_free lookup Murmur.hash get set del
program = tt

-- two blocks of two records
abbrev small : HashTableBase
small = record { n_blocks = 2; block_size = 2 }

small-IsGeometry : IsGeometry small
small-IsGeometry = record { positive = omega arith; fits = omega arith }

abbrev one : Bytes
one = codes "one"

abbrev two : Bytes
two = codes "two"

zeroed-IsValid : IsValid small zeroed
unfolding filled_with
zeroed-IsValid = record {
  unique = λ key i j k li lj fi fj. absurd (ground arith);
  ended = λ i l f. absurd (omega arith);
}

set_accepted : (set small zeroed one two).status ≡ done
unfolding program
set_accepted = refl

abbrev stored : Mem
stored = (set small zeroed one two).memory

one-IsKey : IsKey one
one-IsKey = omega arith

two-IsKey : IsKey two
two-IsKey = omega arith

two-Fits : Fits value_size two
two-Fits = omega arith

contents-set_example :
    contents small stored two ≡ (if text_eq two one then some two else contents small zeroed two)
contents-set_example =
    contents-set small small-IsGeometry zeroed one two zeroed-IsValid one-IsKey two-Fits
      set_accepted two two-IsKey

contents-del_example :
    contents small (del small stored one).memory two
    ≡ (if text_eq two one then none else contents small stored two)
contents-del_example =
    contents-del small small-IsGeometry stored one
      (set-IsValid small small-IsGeometry zeroed one two zeroed-IsValid one-IsKey two-Fits)
      one-IsKey two two-IsKey

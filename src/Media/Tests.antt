-- ===== src/Media/Tests.antt =====
-- The theorems on byte ranges at inputs that meet their hypotheses.
use peanut_butter.Prelude.{◌≡◌, refl, ◌-◌, min, some, arith}
use peanut_butter.Text.{codes}
use peanut_butter.Media.Range.{parse_range}
use peanut_butter.Media.Range.Laws.{
  IsInside, parse_range-IsInside, parse_range_forms, closed, from, suffix,
}

read_tail : parse_range (codes "bytes=90-200, 3-4") 100 ≡ some (90, 99)
unfolding parse_range
read_tail = refl

parse_range-IsInside_example : IsInside 100 (90, 99)
parse_range-IsInside_example =
    parse_range-IsInside (codes "bytes=90-200, 3-4") 100 (90, 99) (omega arith) read_tail

parse_range_forms_example :
    (parse_range (closed 10 250) 100 ≡ some (10, min 250 (100 - 1)))
    × (parse_range (from 10) 100 ≡ some (10, 100 - 1))
    × (parse_range (suffix 300) 100 ≡ some (100 - 300, 100 - 1))
parse_range_forms_example =
    parse_range_forms 10 250 300 100 (omega arith) (omega arith) (omega arith) (omega arith)
      (omega arith)

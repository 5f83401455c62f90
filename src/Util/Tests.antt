-- ===== src/Util/Tests.antt =====
-- StrArr2IntArr and WrapSqlLike at concrete inputs.
use seckill_pkg.Base.{
  ◌≡◌, refl, true, false, none, some, List, [], ◌∷◌, map, arith, codes, ℤ, pos, negsuc, decimal_int,
  value, trim_space, is_space,
}
use seckill_pkg.Util.{wrap_sql_like, parse_int, converted, convert_from, str_arr_2_int_arr}
use seckill_pkg.Util.Numbers.{str_arr_2_int_arr-decimal_int}

abbrev numbers : List ℤ
numbers = pos 0 ∷ (negsuc 41 ∷ (pos 9223372036854775807 ∷ []))

str_arr_2_int_arr-decimal_int_example :
    str_arr_2_int_arr (map decimal_int numbers) true ≡ converted numbers
str_arr_2_int_arr-decimal_int_example =
    str_arr_2_int_arr-decimal_int numbers true (omega arith, (omega arith, (omega arith, tt)))

not_a_number : parse_int (codes "4x") ≡ none
unfolding parse_int
not_a_number = refl

twelve : parse_int (codes "12") ≡ some (pos 12)
unfolding parse_int value
twelve = refl

too_large : parse_int (codes "9223372036854775808") ≡ none
unfolding parse_int value
too_large = refl

smallest : parse_int (codes "-9223372036854775808") ≡ some (negsuc 9223372036854775807)
unfolding parse_int value
smallest = refl

empty_kept :
    str_arr_2_int_arr (codes "1" ∷ ([] ∷ (codes "3" ∷ []))) false
    ≡ converted (pos 1 ∷ (pos 0 ∷ (pos 3 ∷ [])))
unfolding str_arr_2_int_arr convert_from parse_int value
empty_kept = refl

empty_dropped :
    str_arr_2_int_arr (codes "1" ∷ ([] ∷ (codes "3" ∷ []))) true ≡ converted (pos 1 ∷ (pos 3 ∷ []))
unfolding str_arr_2_int_arr convert_from parse_int value
empty_dropped = refl

like_trimmed : wrap_sql_like (codes "  a b ") ≡ codes "%a b%"
unfolding wrap_sql_like trim_space is_space
like_trimmed = refl

-- ===== src/Util.antt =====
-- pkg/util/util.go: WrapSqlLike and StrArr2IntArr, with strconv.ParseInt in base 10 for 64 bits.
pub mod Numbers
mod Tests
use seckill_pkg.Base.{
  ℕ, suc, ◌+◌, ◌-◌, ◌*◌, ◌^◌, not, ◌≡◌, Bool, true, false, ◌&&◌, Option, none, some, List, [], ◌∷◌,
  ◌++◌, if◌then◌else◌, eqb, leb, ltb, is_empty, Text, ℤ, pos, negsuc, value, trim_space,
}

-- WrapSqlLike
unfoldable pub wrap_sql_like : Text → Text
wrap_sql_like v = b'%' ∷ (trim_space v ++ b'%' ∷ [])

abbrev pub all_digits : Text → Bool
all_digits [] = true
all_digits (c ∷ s) = (leb 48 c && leb c 57) && all_digits s

-- One digit or more.
abbrev pub is_number : Text → Bool
is_number s = not (is_empty s) && all_digits s

-- The negative of a number.
abbrev pub negative : ℕ → ℤ
negative n = if eqb n 0 then pos 0 else negsuc (n - 1)

abbrev pub parse_unsigned : Text → Option ℤ
parse_unsigned s = if is_number s && ltb (value 0 s) (2 ^ 63) then some (pos (value 0 s)) else none

abbrev pub parse_negative : Text → Option ℤ
parse_negative s =
    if is_number s && leb (value 0 s) (2 ^ 63) then some (negative (value 0 s)) else none

-- ParseInt(s, 10, 64), without the kind of its error.
unfoldable pub parse_int : Text → Option ℤ
parse_int [] = none
parse_int (c ∷ s) =
    if eqb c b'-'
    then parse_negative s
    else if eqb c b'+'
    then parse_unsigned s
    else parse_unsigned (c ∷ s)

-- What StrArr2IntArr gives: the numbers, or the index of the item that is wrong.
pub data IntArr : Type 0 where
  converted : List ℤ → IntArr
  wrong_item : ℕ → IntArr

-- The loop goes on with what it has appended so far; `none` is an item that does not parse.
abbrev pub appended : (List ℤ → IntArr) → ℕ → List ℤ → Option ℤ → IntArr
appended go_on i result none = wrong_item i
appended go_on i result (some v) = go_on (result ++ v ∷ [])

unfoldable pub convert_from : Bool → List Text → ℕ → List ℤ → IntArr
convert_from ignore_zero [] i result = converted result
convert_from ignore_zero (t ∷ ts) i result =
    let go_on = convert_from ignore_zero ts (suc i) in
    if not (is_empty t)
    then appended go_on i result (parse_int t)
    else if not ignore_zero
    then go_on (result ++ pos 0 ∷ [])
    else go_on result

-- StrArr2IntArr; an int has 64 bits, so that the conversion of a value keeps it.
unfoldable pub str_arr_2_int_arr : List Text → Bool → IntArr
str_arr_2_int_arr s ignore_zero = convert_from ignore_zero s 0 []

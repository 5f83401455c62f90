-- ===== src/Util/Numbers.antt =====
-- pkg/util/util.go: what StrArr2IntArr makes of a list of texts.
use seckill_pkg.Base.{
  ℕ, suc, ◌+◌, ◌/◌, ◌%◌, ◌^◌, ◌<◌, not, ◌≡◌, refl, ap, ◌∙◌, ◌⊎◌, inl, inr, Bool, true, false, none,
  some, List, [], ◌∷◌, ◌++◌, arith, map, list_laws, if◌then◌else◌, eqb, leb, ltb, is_empty, length,
  All, Text, ℤ, pos, negsuc, value, digits, decimal, decimal_int, value-digits, digits-IsDigit,
  IsDigit,
}
use seckill_pkg.Util.{
  all_digits, is_number, parse_unsigned, parse_negative, parse_int, converted, wrong_item, appended,
  convert_from, str_arr_2_int_arr,
}

-- A number of 64 bits.
abbrev pub IsInt64 : ℤ → Type 0
IsInt64 (pos n) = n < 2 ^ 63
IsInt64 (negsuc n) = n < 2 ^ 63

digits-All : (s : Text) → All IsDigit s → all_digits s ≡ true
digits-All [] h = refl
digits-All (c ∷ s) ((lo, hi), h) = ground (arith, digits-All s h, lo, hi)

snoc-nonempty : (s : Text) (c : ℕ) → is_empty (s ++ c ∷ []) ≡ false
snoc-nonempty [] c = refl
snoc-nonempty (d ∷ s) c = refl

digits-nonempty : (fuel n : ℕ) → is_empty (digits (suc fuel) n) ≡ false
unfolding digits
digits-nonempty fuel n = ground (arith, snoc-nonempty (digits fuel (n / 10)) (48 + n % 10))

decimal-is_number : (n : ℕ) → is_number (decimal n) ≡ true
unfolding decimal
decimal-is_number n =
    ground (arith, digits-nonempty n n, digits-All (digits (suc n) n) (digits-IsDigit (suc n) n))

value-decimal : (n : ℕ) → value 0 (decimal n) ≡ n
unfolding decimal
value-decimal n = value-digits (suc n) n (omega arith)

parse_unsigned-decimal : (n : ℕ) → n < 2 ^ 63 → parse_unsigned (decimal n) ≡ some (pos n)
parse_unsigned-decimal n h =
    let small : ltb n (2 ^ 63) ≡ true = ground (arith, h) in
    rw (decimal-is_number n, value-decimal n, small) refl

parse_negative-decimal : (n : ℕ) → n < 2 ^ 63 → parse_negative (decimal (suc n)) ≡ some (negsuc n)
parse_negative-decimal n h =
    let small : leb (suc n) (2 ^ 63) ≡ true = ground (arith, h) in
    rw (decimal-is_number (suc n), value-decimal (suc n), small) (ground arith)

-- A number without a sign is parsed as it is.
parse_int-digits : (t : Text) → is_number t ≡ true → parse_int t ≡ parse_unsigned t
unfolding parse_int
parse_int-digits [] h = absurd (ground (arith, h))
parse_int-digits (c ∷ s) h =
    let minus : eqb c b'-' ≡ false = ground (arith, h) in
    let plus : eqb c b'+' ≡ false = ground (arith, h) in rw (minus, plus) refl

parse_int-minus : (t : Text) → parse_int (b'-' ∷ t) ≡ parse_negative t
unfolding parse_int
parse_int-minus t = refl

parse_int-decimal_int : (z : ℤ) → IsInt64 z → parse_int (decimal_int z) ≡ some z
unfolding decimal_int
parse_int-decimal_int (pos n) h =
    parse_int-digits (decimal n) (decimal-is_number n) ∙ parse_unsigned-decimal n h
parse_int-decimal_int (negsuc n) h = parse_int-minus (decimal (suc n)) ∙ parse_negative-decimal n h

decimal_int-nonempty : (z : ℤ) → is_empty (decimal_int z) ≡ false
unfolding decimal_int decimal
decimal_int-nonempty (pos n) = digits-nonempty n n
decimal_int-nonempty (negsuc n) = refl

-- An item that holds a number is appended.
convert_from-number :
    (ignore_zero : Bool) (t : Text) (ts : List Text) (i : ℕ) (result : List ℤ) (v : ℤ)
    → is_empty t ≡ false
    → parse_int t ≡ some v
    → convert_from ignore_zero (t ∷ ts) i result
      ≡ convert_from ignore_zero ts (suc i) (result ++ v ∷ [])
unfolding convert_from
convert_from-number ignore_zero t ts i result v there parsed =
    let go_on = convert_from ignore_zero ts (suc i) in
    ap
      (λ b.
        if not b
        then appended go_on i result (parse_int t)
        else if not ignore_zero
        then go_on (result ++ pos 0 ∷ [])
        else go_on result)
      there
    ∙ ap (appended go_on i result) parsed

convert_from-decimal_int :
    (ignore_zero : Bool) (xs : List ℤ) (i : ℕ) (result : List ℤ)
    → All IsInt64 xs
    → convert_from ignore_zero (map decimal_int xs) i result ≡ converted (result ++ xs)
unfolding convert_from
convert_from-decimal_int ignore_zero [] i result h = simp list_laws
convert_from-decimal_int ignore_zero (x ∷ xs) i result (first, h) =
    convert_from-number ignore_zero (decimal_int x) (map decimal_int xs) i result x
      (decimal_int-nonempty x) (parse_int-decimal_int x first)
    ∙ convert_from-decimal_int ignore_zero xs (suc i) (result ++ x ∷ []) h
    ∙ simp list_laws

-- StrArr2IntArr gives back any numbers of 64 bits from their decimal texts, with ignoreZero or
-- without.
pub str_arr_2_int_arr-decimal_int :
    (xs : List ℤ) (ignore_zero : Bool)
    → All IsInt64 xs
    → str_arr_2_int_arr (map decimal_int xs) ignore_zero ≡ converted xs
unfolding str_arr_2_int_arr
str_arr_2_int_arr-decimal_int xs ignore_zero h = convert_from-decimal_int ignore_zero xs 0 [] h

-- An item that StrArr2IntArr takes: empty, or a number.
abbrev pub IsTaken : Text → Type 0
IsTaken t = (is_empty t ≡ true) ⊎ ((v : ℤ) × (parse_int t ≡ some v))

parse_int-nonempty : (t : Text) (v : ℤ) → parse_int t ≡ some v → is_empty t ≡ false
unfolding parse_int
parse_int-nonempty [] v h = absurd (ground (arith, h))
parse_int-nonempty (c ∷ t) v h = refl

-- After an item that is taken the loop goes on.
convert_from-taken :
    (ignore_zero : Bool) (t : Text) (ts : List Text) (i : ℕ) (result : List ℤ)
    → IsTaken t
    → (more : List ℤ) × (convert_from ignore_zero (t ∷ ts) i result
        ≡ convert_from ignore_zero ts (suc i) more)
unfolding convert_from
convert_from-taken true t ts i result (inl e) = (
  result,
  ap
      (λ b.
        if not b
        then appended (convert_from true ts (suc i)) i result (parse_int t)
        else convert_from true ts (suc i) result)
      e,
)
convert_from-taken false t ts i result (inl e) = (
  result ++ pos 0 ∷ [],
  ap
      (λ b.
        if not b
        then appended (convert_from false ts (suc i)) i result (parse_int t)
        else convert_from false ts (suc i) (result ++ pos 0 ∷ []))
      e,
)
convert_from-taken ignore_zero t ts i result (inr (v, parsed)) = (
  result ++ v ∷ [],
  convert_from-number ignore_zero t ts i result v (parse_int-nonempty t v parsed) parsed,
)

convert_from-wrong :
    (ignore_zero : Bool) (xs : List Text) (bad : Text) (ys : List Text) (i : ℕ) (result : List ℤ)
    → All IsTaken xs
    → is_empty bad ≡ false
    → parse_int bad ≡ none
    → convert_from ignore_zero (xs ++ bad ∷ ys) i result ≡ wrong_item (i + length xs)
unfolding convert_from
convert_from-wrong ignore_zero [] bad ys i result h there fails =
    let go_on = convert_from ignore_zero ys (suc i) in
    ap
      (λ b.
        if not b
        then appended go_on i result (parse_int bad)
        else if not ignore_zero
        then go_on (result ++ pos 0 ∷ [])
        else go_on result)
      there
    ∙ ap (appended go_on i result) fails
    ∙ ap wrong_item (omega arith)
convert_from-wrong ignore_zero (x ∷ xs) bad ys i result (first, h) there fails =
    let step = convert_from-taken ignore_zero x (xs ++ bad ∷ ys) i result first in
    step.1
    ∙ convert_from-wrong ignore_zero xs bad ys (suc i) (step.0) h there fails
    ∙ ap wrong_item (omega arith)

-- When every item in front of an item that is not empty and does not parse is empty or a number,
-- StrArr2IntArr reports the index of this item, whatever comes after it.
pub first_wrong_item :
    (xs : List Text) (bad : Text) (ys : List Text) (ignore_zero : Bool)
    → All IsTaken xs
    → is_empty bad ≡ false
    → parse_int bad ≡ none
    → str_arr_2_int_arr (xs ++ bad ∷ ys) ignore_zero ≡ wrong_item (length xs)
unfolding str_arr_2_int_arr
first_wrong_item xs bad ys ignore_zero h there fails =
    convert_from-wrong ignore_zero xs bad ys 0 [] h there fails ∙ ap wrong_item (omega arith)

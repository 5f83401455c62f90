-- ===== src/Base/Decimal.antt =====
-- Go's `int` as an integer, its order, and its decimal text (`%d`, strconv.Itoa).
use Prim.Native.Nat.{ℕ, zero, suc, ◌+◌, ◌*◌, ◌-◌, ◌/◌, ◌%◌, ◌≤◌, ◌<◌}
use mathlib.Core.Path.{◌≡◌, refl, ap, ◌∙◌, sym, subst}
use mathlib.Core.Logic.{◌≢◌}
use mathlib.Core.Bool.{Bool, true, false}
use mathlib.Core.List.{[], ◌∷◌, ◌++◌}
use native.Mathlib.Omega.{arith}
use seckill_pkg.Base.Tests.{ltb, if◌then◌else◌}
use seckill_pkg.Base.Lists.{All, All-append}
use seckill_pkg.Base.Texts.{Text, codes}

-- `negsuc n` is -(n + 1).
pub data ℤ : Type 0 where
  pos : ℕ → ℤ
  negsuc : ℕ → ℤ

abbrev pub lt_int : ℤ → ℤ → Bool
lt_int (pos a) (pos b) = ltb a b
lt_int (pos a) (negsuc b) = false
lt_int (negsuc a) (pos b) = true
lt_int (negsuc a) (negsuc b) = ltb b a

-- The digits of a number; the fuel is above the number of digits.
unfoldable pub digits : ℕ → ℕ → Text
digits zero n = []
digits (suc fuel) n =
    let front = digits fuel (n / 10) in
    if ltb n 10 then (48 + n) ∷ [] else front ++ (48 + n % 10) ∷ []

unfoldable pub decimal : ℕ → Text
unfolding digits
decimal n = digits (suc n) n

unfoldable pub decimal_int : ℤ → Text
unfolding decimal
decimal_int (pos n) = decimal n
decimal_int (negsuc n) = b'-' ∷ decimal (suc n)

-- The number that digits stand for.
unfoldable pub value : ℕ → Text → ℕ
value a [] = a
value a (c ∷ s) = value (10 * a + (c - 48)) s

value-append : (a : ℕ) (s : Text) (c : ℕ) → value a (s ++ c ∷ []) ≡ 10 * value a s + (c - 48)
unfolding value
value-append a [] c = refl
value-append a (d ∷ s) c = value-append (10 * a + (d - 48)) s c

pub value-digits : (fuel n : ℕ) → n < fuel → value 0 (digits fuel n) ≡ n
unfolding value digits
value-digits zero n h = absurd (omega arith)
value-digits (suc fuel) n h =
    ground (arith, value-digits fuel (n / 10), value-append 0 (digits fuel (n / 10)) (48 + n % 10))

abbrev pub IsDigit : ℕ → Type 0
IsDigit c = (48 ≤ c) × (c ≤ 57)

pub digits-IsDigit : (fuel n : ℕ) → All IsDigit (digits fuel n)
unfolding digits
digits-IsDigit zero n = tt
digits-IsDigit (suc fuel) n = ground (
  arith,
  All-append IsDigit (digits fuel (n / 10)) ((48 + n % 10) ∷ []) (digits-IsDigit fuel (n / 10)),
)

pub decimal-IsDigit : (n : ℕ) → All IsDigit (decimal n)
unfolding decimal
decimal-IsDigit n = digits-IsDigit (suc n) n

pub decimal_injective : (a b : ℕ) → decimal a ≡ decimal b → a ≡ b
unfolding decimal
decimal_injective a b e =
    sym (value-digits (suc a) a (omega arith))
    ∙ ap (value 0) e
    ∙ value-digits (suc b) b (omega arith)

decimal_int_injective : (a b : ℤ) → decimal_int a ≡ decimal_int b → a ≡ b
unfolding decimal_int
decimal_int_injective (pos a) (pos b) e = ap pos (decimal_injective a b e)
decimal_int_injective (pos a) (negsuc b) e =
    let minus = subst (All IsDigit) e (decimal-IsDigit a) in absurd (omega arith)
decimal_int_injective (negsuc a) (pos b) e =
    let minus = subst (All IsDigit) (sym e) (decimal-IsDigit b) in absurd (omega arith)
decimal_int_injective (negsuc a) (negsuc b) e =
    let tails : decimal (suc a) ≡ decimal (suc b) = cc in
    let same = decimal_injective (suc a) (suc b) tails in ap negsuc (omega arith)

-- Texts without the separator are cut off by it.
separated_injective :
    (sep : ℕ) (xs ys s t : Text)
    → All (λ c. c ≢ sep) xs
    → All (λ c. c ≢ sep) ys
    → xs ++ sep ∷ s ≡ ys ++ sep ∷ t
    → (xs ≡ ys) × (s ≡ t)
separated_injective sep [] [] s t h k e = (refl, cc)
separated_injective sep [] (y ∷ ys) s t h (n, k) e = absurd (n (cc))
separated_injective sep (x ∷ xs) [] s t (n, h) k e = absurd (n (cc))
separated_injective sep (x ∷ xs) (y ∷ ys) s t (n, h) (o, k) e =
    let tails : xs ++ sep ∷ s ≡ ys ++ sep ∷ t = cc in
    let same = separated_injective sep xs ys s t h k tails in
    let heads : x ≡ y = cc in (cc (same.0), same.1)

abbrev underscore : ℕ
underscore = b'_'

no_underscore : (s : Text) → All IsDigit s → All (λ c. c ≢ underscore) s
no_underscore [] h = tt
no_underscore (c ∷ s) (d, h) = (omega arith, no_underscore s h)

decimal_int-no_underscore : (a : ℤ) → All (λ c. c ≢ underscore) (decimal_int a)
unfolding decimal_int
decimal_int-no_underscore (pos n) = no_underscore (decimal n) (decimal-IsDigit n)
decimal_int-no_underscore (negsuc n) =
    (omega arith, no_underscore (decimal (suc n)) (decimal-IsDigit (suc n)))

-- `fmt.Sprintf("%d_%s", a, s)` tells the pairs apart.
pub int_text_injective :
    (a b : ℤ) (s t : Text)
    → decimal_int a ++ b'_' ∷ s ≡ decimal_int b ++ b'_' ∷ t
    → (a ≡ b) × (s ≡ t)
int_text_injective a b s t e =
    let parts =
      separated_injective b'_' (decimal_int a) (decimal_int b) s t (decimal_int-no_underscore a)
        (decimal_int-no_underscore b) e in
    (decimal_int_injective a b parts.0, parts.1)

-- A common front is cut off.
pub append_cancel : (p s t : Text) → p ++ s ≡ p ++ t → s ≡ t
append_cancel [] s t e = e
append_cancel (c ∷ p) s t e = append_cancel p s t (cc)

decimal_large : decimal_int (negsuc 9223372036854775807) ≡ codes "-9223372036854775808"
unfolding decimal_int
decimal_large = refl

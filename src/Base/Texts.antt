-- ===== src/Base/Texts.antt =====
-- Go strings as lists of code points, with the tests and the functions of package strings that the
-- repository calls.
use Prim.Native.Nat.{ℕ}
use Prim.Native.Char.{code}
use Prim.Native.String.{String}
use mathlib.Core.Path.{◌≡◌, refl}
use mathlib.Core.Logic.{◌↔◌}
use mathlib.Core.Bool.{Bool, true, false, ◌&&◌, ◌||◌}
use mathlib.Core.List.{List, [], ◌∷◌, ◌++◌}
use native.Mathlib.Omega.{arith}
use seckill_pkg.Base.Tests.{eqb, if◌then◌else◌}
use seckill_pkg.Base.Lists.{length, drop, drop_append}

abbrev pub Text : Type 0
Text = List ℕ

-- The code points of a literal.
abbrev pub codes : String → Text
codes String.[] = []
codes (String.◌∷◌ c s) = code c ∷ codes s

infix 50 ◌==◌
unfoldable pub ◌==◌ : Text → Text → Bool
[] == [] = true
[] == (y ∷ ys) = false
(x ∷ xs) == [] = false
(x ∷ xs) == (y ∷ ys) = eqb x y && xs == ys

pub ==_iff : (s t : Text) → ((s == t) ≡ true) ↔ (s ≡ t)
unfolding ◌==◌
==_iff [] [] = ground arith
==_iff [] (y ∷ ys) = ground arith
==_iff (x ∷ xs) [] = ground arith
==_iff (x ∷ xs) (y ∷ ys) = ground (arith, ==_iff xs ys)

pub ==_self : (s : Text) → (s == s) ≡ true
==_self s = (==_iff s s).1 refl

-- Whether a text stands in a list.
abbrev pub mem : Text → List Text → Bool
mem x [] = false
mem x (y ∷ l) = y == x || mem x l

-- No text stands twice.
abbrev pub Distinct : List Text → Type 0
Distinct [] = Unit
Distinct (x ∷ l) = (mem x l ≡ false) × Distinct l

pub mem-append : (x : Text) (l k : List Text) → mem x (l ++ k) ≡ (mem x l || mem x k)
mem-append x [] k = refl
mem-append x (y ∷ l) k = ground (arith, mem-append x l k)

pub Distinct-concat :
    (l : List Text) (x : Text) → Distinct l → mem x l ≡ false → Distinct (l ++ x ∷ [])
Distinct-concat [] x d h = (refl, tt)
Distinct-concat (y ∷ l) x (n, d) h = (
  ground (arith, mem-append y l (x ∷ []), ==_iff x y, ==_iff y x),
  Distinct-concat l x d (ground arith),
)

-- strings.HasPrefix
unfoldable pub has_prefix : Text → Text → Bool
has_prefix s [] = true
has_prefix [] (p ∷ ps) = false
has_prefix (c ∷ s) (p ∷ ps) = eqb c p && has_prefix s ps

-- strings.TrimPrefix
unfoldable pub trim_prefix : Text → Text → Text
unfolding has_prefix
trim_prefix s p = if has_prefix s p then drop (length p) s else s

pub has_prefix-append : (p s : Text) → has_prefix (p ++ s) p ≡ true
unfolding has_prefix
has_prefix-append [] s = refl
has_prefix-append (c ∷ p) s = ground (arith, has_prefix-append p s)

pub trim_prefix-append : (p s : Text) → trim_prefix (p ++ s) p ≡ s
unfolding trim_prefix
trim_prefix-append p s = rw (has_prefix-append p s) (drop_append p s)

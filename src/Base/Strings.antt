-- ===== src/Base/Strings.antt =====
-- Functions of Go's package strings, on texts as lists of code points.
use Prim.Native.Nat.{ℕ}
use mathlib.Core.Bool.{Bool, false, ◌&&◌, ◌||◌}
use mathlib.Core.List.{List, [], ◌∷◌, ◌++◌}
use seckill_pkg.Base.Tests.{eqb, leb, if◌then◌else◌}
use seckill_pkg.Base.Lists.{is_empty}
use seckill_pkg.Base.Texts.{Text}

-- unicode.IsSpace
unfoldable pub is_space : ℕ → Bool
is_space c =
    (leb 9 c && leb c 13)
    || eqb c 0x20
    || eqb c 0x85
    || eqb c 0xa0
    || eqb c 0x1680
    || (leb 0x2000 c && leb c 0x200a)
    || eqb c 0x2028
    || eqb c 0x2029
    || eqb c 0x202f
    || eqb c 0x205f
    || eqb c 0x3000

abbrev pub trim_left : Text → Text
trim_left [] = []
trim_left (c ∷ s) = if is_space c then trim_left s else c ∷ s

abbrev pub trim_right : Text → Text
trim_right [] = []
trim_right (c ∷ s) = let t = trim_right s in if is_empty t && is_space c then [] else c ∷ t

-- strings.TrimSpace
unfoldable pub trim_space : Text → Text
trim_space s = trim_right (trim_left s)

-- strings.HasSuffix, for a suffix of one character
unfoldable pub ends_with : Text → ℕ → Bool
ends_with [] c = false
ends_with (d ∷ []) c = eqb d c
ends_with (d ∷ e ∷ s) c = ends_with (e ∷ s) c

-- strings.ReplaceAll(s, c, ""), for one character
unfoldable pub remove_all : Text → ℕ → Text
remove_all [] c = []
remove_all (d ∷ s) c = if eqb d c then remove_all s c else d ∷ remove_all s c

-- What strings.Split does to a character before the pieces of the rest.
abbrev pub put_front : ℕ → List Text → List Text
put_front c [] = (c ∷ []) ∷ []
put_front c (piece ∷ pieces) = (c ∷ piece) ∷ pieces

-- strings.Split, for a separator of one character: a text without it is one piece.
unfoldable pub split : Text → ℕ → List Text
split [] sep = [] ∷ []
split (c ∷ s) sep = if eqb c sep then [] ∷ split s sep else put_front c (split s sep)

-- strings.Join, for a separator of one character
unfoldable pub join : List Text → ℕ → Text
join [] sep = []
join (s ∷ []) sep = s
join (s ∷ t ∷ l) sep = s ++ sep ∷ join (t ∷ l) sep

-- ===== src/Base/Dict.antt =====
-- Go maps with text keys, as association lists: a key stands at most once after `insert`.
use mathlib.Core.Path.{◌≡◌, refl}
use mathlib.Core.Option.{Option, none, some}
use mathlib.Core.List.{List, [], ◌∷◌}
use native.Mathlib.Omega.{arith}
use seckill_pkg.Base.Tests.{if◌then◌else◌}
use seckill_pkg.Base.Texts.{Text, ◌==◌, ==_iff, ==_self}

abbrev pub Dict {ℓ} : Type ℓ → Type ℓ
Dict V = List (Text × V)

module _ {ℓ} {V : Type ℓ} where
  -- `v, ok := m[x]`
  unfoldable pub lookup : Text → Dict V → Option V
  lookup x [] = none
  lookup x (e ∷ rest) = if e.0 == x then some (e.1) else lookup x rest

  -- `m[x] = v`: the entry of the key is replaced, or a new one goes to the end.
  unfoldable pub insert : Text → V → Dict V → Dict V
  insert x v [] = (x, v) ∷ []
  insert x v (e ∷ rest) = if e.0 == x then (x, v) ∷ rest else e ∷ insert x v rest

  -- `delete(m, x)`
  unfoldable pub erase : Text → Dict V → Dict V
  erase x [] = []
  erase x (e ∷ rest) = let others = erase x rest in if e.0 == x then others else e ∷ others

  -- After a write every other key reads as before.
  pub lookup-insert :
      (written asked : Text) (v : V) (m : Dict V)
      → lookup asked (insert written v m) ≡ (if written == asked then some v else lookup asked m)
  unfolding insert lookup
  lookup-insert written asked v [] = refl
  lookup-insert written asked v (e ∷ rest) =
      let tail = lookup-insert written asked v rest in
      ground (arith, tail, ==_iff (e.0) asked, ==_iff (e.0) written, ==_iff written asked)

  pub lookup-erase :
      (gone asked : Text) (m : Dict V)
      → lookup asked (erase gone m) ≡ (if gone == asked then none else lookup asked m)
  unfolding erase lookup
  lookup-erase gone asked [] = ground arith
  lookup-erase gone asked (e ∷ rest) =
      let tail = lookup-erase gone asked rest in
      ground (arith, tail, ==_iff (e.0) asked, ==_iff (e.0) gone, ==_iff gone asked)

  pub lookup-insert_self : (k : Text) (v : V) (m : Dict V) → lookup k (insert k v m) ≡ some v
  lookup-insert_self k v m = rw lookup-insert (rw (==_self k))

  pub lookup-erase_self : (k : Text) (m : Dict V) → lookup k (erase k m) ≡ none
  lookup-erase_self k m = rw lookup-erase (rw (==_self k))

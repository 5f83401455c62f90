-- ===== src/BranchTree/Binary.antt =====
-- What Decision is meant to do, and where it does it: on each list of siblings the first node that
-- answers decides. levelOrderTree agrees on trees of at most two siblings where the second is silent
-- when the first opens its children.
use mathlib.Core.Path.{subst}
use seckill_pkg.Base.{
  ℕ, zero, suc, ◌≡◌, ◌≢◌, refl, sym, ap, ◌∙◌, false, some, List, [], ◌∷◌, Text, is_empty, length,
}
use seckill_pkg.Base.Dict
use seckill_pkg.Base.Dict.{Dict}
use seckill_pkg.BranchTree.{Root, Entry, root_ref, root_id, DecisionTree, children_list}
use seckill_pkg.BranchTree.Walk.{
  Outcome, executed, finished, out_of_fuel, Level, next, stop, enter, level_from, level_order,
  decide,
}
use seckill_pkg.BranchTree.Siblings.{
  Answer, opens, leaf, silent, answer, level_from-answer, level_order_cons, level_of_two,
  decide_root,
}

module _ {P R : Type 0} (r : Root P R) (m : Dict (Entry P R)) (param : P) where
  abbrev or_else : Answer r m param → Answer r m param → Answer r m param
  or_else (opens children) y = opens children
  or_else (leaf e) y = leaf e
  or_else silent y = y

  -- The first sibling that is not silent decides.
  abbrev pub verdict : List Text → Answer r m param
  verdict [] = silent
  verdict (v ∷ q) = or_else (answer r m param v) (verdict q)

  -- The intended walk, one unit of fuel for each level.
  unfoldable pub walk : ℕ → List Text → Outcome R
  walk zero q = out_of_fuel
  walk (suc fuel) q = elim (verdict q) [
    | opens children ↦ walk fuel children
    | leaf e ↦ executed e
    | silent ↦ finished
  ]

  -- At most two siblings, and the second is silent when the first opens its children.
  abbrev pub IsNarrow : List Text → Type 0
  IsNarrow [] = Unit
  IsNarrow (a ∷ []) = Unit
  IsNarrow (a ∷ b ∷ []) =
      (children : List Text) → answer r m param a ≡ opens children → answer r m param b ≡ silent
  IsNarrow (a ∷ b ∷ c ∷ q) = ⊥

  abbrev settle : Answer r m param → Level R
  settle (opens children) = next children
  settle (leaf e) = stop (executed e)
  settle silent = next []

  verdict_cons :
      (v : Text) (q : List Text) (x : Answer r m param)
      → answer r m param v ≡ x
      → settle (or_else x (verdict q)) ≡ settle (verdict (v ∷ q))
  verdict_cons v q x h = ap (λ y. settle (or_else y (verdict q))) (sym h)

  level_of_last :
      (v : Text) (x : Answer r m param)
      → answer r m param v ≡ x
      → level_from r m param 1 (v ∷ []) ≡ settle (verdict (v ∷ []))
  unfolding level_from enter
  level_of_last v (opens children) h =
      level_from-answer r m param 0 v [] h ∙ verdict_cons v [] (opens children) h
  level_of_last v (leaf e) h = level_from-answer r m param 0 v [] h ∙ verdict_cons v [] (leaf e) h
  level_of_last v silent h = level_from-answer r m param 0 v [] h ∙ verdict_cons v [] silent h

  level_of_pair :
      (a b : Text) (x : Answer r m param)
      → IsNarrow (a ∷ b ∷ [])
      → answer r m param a ≡ x
      → level_from r m param 2 (a ∷ b ∷ []) ≡ settle (verdict (a ∷ b ∷ []))
  unfolding level_from enter
  level_of_pair a b (opens children) n h =
      level_of_two r m param a b children h (n children h)
      ∙ verdict_cons a (b ∷ []) (opens children) h
  level_of_pair a b (leaf e) n h =
      level_from-answer r m param 1 a (b ∷ []) h ∙ verdict_cons a (b ∷ []) (leaf e) h
  level_of_pair a b silent n h =
      level_from-answer r m param 1 a (b ∷ []) h
      ∙ level_of_last b (answer r m param b) refl
      ∙ verdict_cons a (b ∷ []) silent h

  level-eq-settle :
      (q : List Text) → IsNarrow q → level_from r m param (length q) q ≡ settle (verdict q)
  unfolding level_from
  level-eq-settle [] n = refl
  level-eq-settle (a ∷ []) n = level_of_last a (answer r m param a) refl
  level-eq-settle (a ∷ b ∷ []) n = level_of_pair a b (answer r m param a) n refl
  level-eq-settle (a ∷ b ∷ c ∷ q) n = absurd n

  module _
      (narrow : (v : Text) (children : List Text)
        → answer r m param v ≡ opens children
        → IsNarrow children) where
    or_else-IsNarrow :
        (v : Text) (x y : Answer r m param) (children : List Text)
        → answer r m param v ≡ x
        → (y ≡ opens children → IsNarrow children)
        → or_else x y ≡ opens children
        → IsNarrow children
    or_else-IsNarrow v (opens k) y children e later h =
        let same : k ≡ children = cc in subst IsNarrow same (narrow v k e)
    or_else-IsNarrow v (leaf k) y children e later h = cc
    or_else-IsNarrow v silent y children e later h = later h

    verdict-IsNarrow : (q children : List Text) → verdict q ≡ opens children → IsNarrow children
    verdict-IsNarrow [] children h = cc
    verdict-IsNarrow (v ∷ q) children h =
        or_else-IsNarrow v (answer r m param v) (verdict q) children refl
          (verdict-IsNarrow q children) h

    abbrev follow : ℕ → Answer r m param → Outcome R
    follow fuel x = elim x [
      | opens children ↦ walk fuel children
      | leaf e ↦ executed e
      | silent ↦ finished
    ]

    level_order-eq-walk :
        (fuel : ℕ) (q : List Text)
        → IsNarrow q
        → walk fuel q ≢ out_of_fuel
        → level_order r m param (suc fuel) q ≡ walk fuel q
    unfolding walk level_order
    level_order-eq-walk zero q n h = absurd (h refl)
    level_order-eq-walk (suc fuel) [] n h = refl
    level_order-eq-walk (suc fuel) (v ∷ q) n h =
        level_order_cons r m param (suc fuel) v q (level-eq-settle (v ∷ q) n)
        ∙ go (level_order-eq-walk fuel) (verdict (v ∷ q)) (verdict-IsNarrow (v ∷ q)) h
      where
        go :
            ((k : List Text)
              → IsNarrow k
              → walk fuel k ≢ out_of_fuel
              → level_order r m param (suc fuel) k ≡ walk fuel k)
            → (x : Answer r m param) → ((k : List Text) → x ≡ opens k → IsNarrow k)
            → follow fuel x ≢ out_of_fuel
            → (elim (settle x) [ next rest ↦ level_order r m param (suc fuel) rest | stop o ↦ o ])
              ≡ follow fuel x
        go ih (opens k) narrow_k ends = ih k (narrow_k k refl) ends
        go ih (leaf e) narrow_k ends = refl
        go ih silent narrow_k ends = refl

    -- On a tree whose root is registered and has children, in which no node that opens has more
    -- than two children, nor the root, and of two siblings the second is silent when the first
    -- opens its children, Decision is the intended walk, in which the first sibling that is not
    -- silent decides, whenever this walk ends within the fuel.
    pub decide-eq-walk :
        (t : DecisionTree P R) (fuel : ℕ)
        → t.root ≡ some r
        → t.node_map ≡ some m
        → Dict.lookup root_id m ≡ some root_ref
        → is_empty r.child_list ≡ false
        → IsNarrow (children_list r)
        → walk fuel (children_list r) ≢ out_of_fuel
        → decide (suc (suc fuel)) t param ≡ walk fuel (children_list r)
    decide-eq-walk t fuel hr hm registered full n h =
        decide_root r m param t hr hm registered full (suc fuel)
        ∙ level_order-eq-walk fuel (children_list r) n h

-- ===== src/BranchTree/Weights.antt =====
-- levelOrderTree ends on trees without cycles. A weight of ids that is positive, and at every
-- decision node above the sum of its children's weights, bounds the rounds that are left.
use seckill_pkg.Base.{
  ℕ, zero, suc, ◌+◌, ◌-◌, ◌≤◌, ◌<◌, ◌≡◌, ◌≢◌, refl, inl, inr, Bool, some, List, [], ◌∷◌, ◌++◌,
  arith, Text, if◌then◌else◌, is_empty, length, Bool-cases, Option-cases, some_inj,
}
use seckill_pkg.Base.Dict
use seckill_pkg.Base.Dict.{Dict}
use seckill_pkg.BranchTree.{Root, Entry, root_id, DecisionTree}
use seckill_pkg.BranchTree.Walk.{
  executed, out_of_fuel, Level, next, stop, pop_front, Kind, is_decision, is_exec, is_other, kind,
  enter, round, level_from, level_order, decide,
}

module _ (w : Text → ℕ) where
  abbrev pub total : List Text → ℕ
  total [] = 0
  total (x ∷ q) = w x + total q

  total-append : (l k : List Text) → total (l ++ k) ≡ total l + total k
  total-append [] k = omega arith
  total-append (x ∷ l) k = omega (arith, total-append l k)

  total-pop_front : (k : ℕ) (q rest : List Text) → pop_front k q ≡ some rest → total rest ≤ total q
  unfolding pop_front
  total-pop_front zero q rest e = rw (some_inj e) (omega arith)
  total-pop_front (suc k) [] rest e = cc
  total-pop_front (suc k) (x ∷ q) rest e = omega (arith, total-pop_front k q rest e)

module _ {P R : Type 0} (w : Text → ℕ) (r : Root P R) (m : Dict (Entry P R)) (param : P) where
  -- The weight of a decision node is above what it puts into the queue.
  abbrev pub IsWeighted : Type 0
  IsWeighted =
      (v : Text) (rule : P → Bool) (children : List Text)
      → kind r (Dict.lookup v m) ≡ is_decision rule children
      → total w children < w v

  -- A part of a walk may go on with less weight, or stop for a reason other than fuel.
  abbrev Lighter : ℕ → Level R → Type 0
  Lighter n (next q) = total w q ≤ n
  Lighter n (stop o) = o ≢ out_of_fuel

  Lighter-le : (a b : ℕ) (l : Level R) → a ≤ b → Lighter a l → Lighter b l
  Lighter-le a b (next q) le h = omega arith
  Lighter-le a b (stop o) le h = h

  enter-Lighter :
      (k : ℕ) (pid : Text) (q children : List Text)
      → Lighter (total w q + total w children) (enter k pid q children)
  unfolding enter
  enter-Lighter zero pid q children = omega (arith, total-append w q children)
  enter-Lighter (suc k) pid q children = elim (Option-cases (pop_front k q)) [
    | inl gone ↦ rw (gone, enter) (λ e. cc)
    | inr (rest, popped) ↦
        rw (popped, enter)
          (omega (arith, total-append w rest children, total-pop_front w k q rest popped))
  ]

  module _ (weighted : IsWeighted) (positive : (v : Text) → 0 < w v) where
    round-Lighter :
        (k : ℕ) (pid : Text) (q : List Text)
        → Lighter (total w q + w pid - 1) (round r m param k pid q)
    unfolding round
    round-Lighter k pid q = go (kind r (Dict.lookup pid m)) refl
      where
        go :
            (x : Kind P R)
            → kind r (Dict.lookup pid m) ≡ x
            → Lighter (total w q + w pid - 1) (elim x [
              | is_decision rule children ↦ if rule param then enter k pid q children else next q
              | is_exec do_it ↦ stop (executed (do_it param))
              | is_other ↦ next q
            ])
        go (is_decision rule children) e = elim (Bool-cases (rule param)) [
          | inl holds ↦ rw holds (
              Lighter-le (total w q + total w children) (total w q + w pid - 1) _
                (omega (arith, weighted pid rule children e)) (enter-Lighter k pid q children))
          | inr fails ↦ rw fails (omega (arith, positive pid))
        ]
        go (is_exec do_it) e = λ h. cc
        go is_other e = omega (arith, positive pid)

    level_from-Lighter :
        (k : ℕ) (q : List Text) → Lighter (total w q - k) (level_from r m param k q)
    unfolding level_from
    level_from-Lighter zero q = omega arith
    level_from-Lighter (suc k) [] = λ e. cc
    level_from-Lighter (suc k) (pid ∷ q) =
        go (level_from-Lighter k) (round r m param k pid q) (round-Lighter k pid q)
      where
        go :
            ((rest : List Text) → Lighter (total w rest - k) (level_from r m param k rest))
            → (l : Level R) → Lighter (total w q + w pid - 1) l
            → Lighter
                (w pid + total w q - suc k)
                (elim l [ next rest ↦ level_from r m param k rest | stop o ↦ stop o ])
        go ih (next rest) h =
            Lighter-le (total w rest - k) (w pid + total w q - suc k) _ (omega arith) (ih rest)
        go ih (stop o) h = h

    level_order_ends :
        (fuel : ℕ) (q : List Text) → total w q < fuel → level_order r m param fuel q ≢ out_of_fuel
    unfolding level_order
    level_order_ends zero q h = absurd (omega arith)
    level_order_ends (suc fuel) [] h = λ e. cc
    level_order_ends (suc fuel) (x ∷ q) h =
        go (level_order_ends fuel) (level_from r m param (length (x ∷ q)) (x ∷ q))
          (level_from-Lighter (length (x ∷ q)) (x ∷ q))
      where
        go :
            ((rest : List Text)
              → total w rest < fuel
              → level_order r m param fuel rest ≢ out_of_fuel)
            → (l : Level R) → Lighter (w x + total w q - suc (length q)) l
            → (elim l [ next rest ↦ level_order r m param fuel rest | stop o ↦ o ]) ≢ out_of_fuel
        go ih (next rest) lighter = ih rest (omega (arith, positive x))
        go ih (stop o) lighter = lighter

    -- On a tree with positive weights for the ids, where the weight of a decision node is above
    -- the sum of its children's weights, Decision does not run out of a number of levels that
    -- is above the weight of the root.
    pub decide_ends :
        (fuel : ℕ) (t : DecisionTree P R)
        → t.root ≡ some r
        → t.node_map ≡ some m
        → w root_id < fuel
        → decide fuel t param ≢ out_of_fuel
    unfolding decide
    decide_ends fuel t hr hm h =
        rw (hr, hm)
          (elim (Bool-cases (is_empty r.child_list)) [
            | inl empty ↦ rw empty (λ e. cc)
            | inr full ↦ rw full (level_order_ends fuel (root_id ∷ []) (omega arith))
          ])

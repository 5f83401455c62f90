-- ===== src/BranchTree/Walk.antt =====
-- tree.go, Decision and levelOrderTree.
use seckill_pkg.Base.{
  ℕ, zero, suc, Bool, true, Option, none, some, List, [], ◌∷◌, ◌++◌, Text, if◌then◌else◌, is_empty,
  length,
}
use seckill_pkg.Base.Dict
use seckill_pkg.Base.Dict.{Dict}
use seckill_pkg.BranchTree.{
  decision, exec, plain, Root, root_id, Entry, root_ref, user, DecisionTree, children_list,
}

-- How a walk ends: with the error "not have node", with what `Do` of a leaf came to, with nil when
-- the queue is empty, with a panic, or because the fuel ran out.
pub data Outcome (R : Type 0) : Type 0 where
  not_have_node : Outcome R
  executed : R → Outcome R
  finished : Outcome R
  panicked : Outcome R
  out_of_fuel : Outcome R

-- How one round of the outer loop ends: with the queue for the next, or for good.
pub data Level (R : Type 0) : Type 0 where
  next : List Text → Level R
  stop : Outcome R → Level R

-- `queue.Remove(queue.Front())`, k times. `Front` of an empty list is nil, and Remove reads it.
unfoldable pub pop_front : ℕ → List Text → Option (List Text)
pop_front zero q = some q
pop_front (suc k) [] = none
pop_front (suc k) (x ∷ q) = pop_front k q

-- What the type switch on `t.nodeMap[pid]` finds.
pub data Kind (P R : Type 0) : Type 0 where
  is_decision : (P → Bool) → List Text → Kind P R
  is_exec : (P → R) → Kind P R
  is_other : Kind P R

-- A decision node whose rule holds, at the front of the queue `pid ∷ q` with k more rounds after
-- this one (k = size-1-i). For k = 0 its children go behind the queue and `queue.Remove(e)` takes
-- `pid` off. Else k elements are popped from the front, `pid` the first of them, so that the
-- last `queue.Remove(e)` finds `e` in no list and does nothing.
unfoldable pub enter : {R : Type 0} → ℕ → Text → List Text → List Text → Level R
unfolding pop_front
enter zero pid q children = next (q ++ children)
enter (suc k) pid q children = elim (pop_front (suc k) (pid ∷ q)) [
  | none ↦ stop panicked
  | some rest ↦ next (rest ++ children)
]

module _ {P R : Type 0} where
  -- The root's DecisionRule is always true.
  abbrev pub kind : Root P R → Option (Entry P R) → Kind P R
  kind r none = is_other
  kind r (some root_ref) = is_decision (λ _. true) (children_list r)
  kind r (some (user (decision id rule children))) = is_decision rule children
  kind r (some (user (exec id do_it))) = is_exec do_it
  kind r (some (user (plain id))) = is_other

  -- One round of the inner loop, at the front `pid` of the queue `pid ∷ q`.
  unfoldable pub round : Root P R → Dict (Entry P R) → P → ℕ → Text → List Text → Level R
  unfolding enter
  round r m param k pid q = elim (kind r (Dict.lookup pid m)) [
    | is_decision rule children ↦ if rule param then enter k pid q children else next q
    | is_exec do_it ↦ stop (executed (do_it param))
    | is_other ↦ next q
  ]

  -- The rounds `i = size - k … size - 1` of the inner loop. An empty queue has a nil front, and
  -- reading its value panics.
  unfoldable pub level_from : Root P R → Dict (Entry P R) → P → ℕ → List Text → Level R
  unfolding round
  level_from r m param zero q = next q
  level_from r m param (suc k) [] = stop panicked
  level_from r m param (suc k) (pid ∷ q) = elim (round r m param k pid q) [
    | next rest ↦ level_from r m param k rest
    | stop o ↦ stop o
  ]

  -- The outer loop; one unit of fuel for each level.
  unfoldable pub level_order : Root P R → Dict (Entry P R) → P → ℕ → List Text → Outcome R
  unfolding level_from
  level_order r m param zero q = out_of_fuel
  level_order r m param (suc fuel) [] = finished
  level_order r m param (suc fuel) (x ∷ q) = elim (level_from r m param (length (x ∷ q)) (x ∷ q)) [
    | next rest ↦ level_order r m param fuel rest
    | stop o ↦ o
  ]

  -- Decision reads `t.root.childList`, so a tree with a nil root panics. A nil map holds no key.
  unfoldable pub decide : ℕ → DecisionTree P R → P → Outcome R
  unfolding level_order
  decide fuel t param = elim t.root [
    | none ↦ panicked
    | some r ↦
        if is_empty r.child_list
        then not_have_node
        else level_order r (elim t.node_map [ none ↦ [] | some m ↦ m ]) param fuel (root_id ∷ [])
  ]

-- ===== src/BranchTree.antt =====
-- pkg/branch_tree: node.go (the node interfaces and the hidden root node) and tree.go. This file
-- has the data and the state; the children have the operations and what is proved of them.
-- `P` is the type of `param interface{}`, `R` that of what a call of `Do` comes to: the error that it
-- returns, and whatever else the caller's code does.
pub mod Add
pub mod Walk
pub mod Print
pub mod Invariant
pub mod Search
pub mod Place
pub mod Termination
pub mod Rounds
pub mod Weights
pub mod Siblings
pub mod Binary
pub mod Park
mod Tests
use seckill_pkg.Base.{ℕ, ◌≡◌, Bool, true, false, Option, none, some, List, [], ◌∷◌, ◌++◌, map}
use seckill_pkg.Base.{Text, codes, ◌==◌, if◌then◌else◌, is_some}
use seckill_pkg.Base.Dict
use seckill_pkg.Base.Dict.{Dict}

-- A value of interface Node, by what its dynamic type implements: DecisionNode (with DecisionRule
-- and ChildrenList), ExecNode (with Do), or ID alone.
pub data Node (P R : Type 0) : Type 0 where
  decision : Text → (P → Bool) → List Text → Node P R
  exec : Text → (P → R) → Node P R
  plain : Text → Node P R

abbrev pub node_id : {P R : Type 0} → Node P R → Text
node_id (decision id rule children) = id
node_id (exec id do_it) = id
node_id (plain id) = id

-- rootDecisionNode. A nil slice or map reads as an empty one, and AddChildren makes both.
pub record Root (P R : Type 0) : Type 0 where
  pub child_list : List (Node P R)
  pub child_map : Dict ℕ

abbrev pub root_id : Text
root_id = codes "ROOT_NODE"

-- What nodeMap holds under a key: the pointer to the tree's own root, or a node of the caller.
pub data Entry (P R : Type 0) : Type 0 where
  root_ref : Entry P R
  user : Node P R → Entry P R

-- DecisionTree; `none` is a nil pointer or a nil map.
pub record DecisionTree (P R : Type 0) : Type 0 where
  pub root : Option (Root P R)
  pub node_map : Option (Dict (Entry P R))

-- `DecisionTree{}`
abbrev pub empty_tree : {P R : Type 0} → DecisionTree P R
empty_tree = record { root = none; node_map = none }

-- `&rootDecisionNode{}`
abbrev pub new_root : {P R : Type 0} → Root P R
new_root = record { child_list = []; child_map = [] }

module _ {P R : Type 0} where
  unfoldable pub add_children : Root P R → Node P R → Root P R
  add_children r n = record {
    child_list = r.child_list ++ n ∷ [];
    child_map = Dict.insert (node_id n) 1 r.child_map;
  }

  unfoldable pub has_children : Root P R → Text → Bool
  has_children r id = is_some (Dict.lookup id r.child_map)

  -- the loop of DeleteChildren: the first entry with the id is cut out
  unfoldable pub remove_first : Text → List (Node P R) → List (Node P R)
  remove_first id [] = []
  remove_first id (v ∷ l) = if node_id v == id then l else v ∷ remove_first id l

  unfoldable pub delete_children : Root P R → Text → Root P R
  unfolding has_children remove_first
  delete_children r id =
      if has_children r id
      then record {
        child_list = remove_first id r.child_list;
        child_map = Dict.erase id r.child_map;
      }
      else r

  abbrev pub children_list : Root P R → List Text
  children_list r = map node_id r.child_list

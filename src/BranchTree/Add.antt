-- ===== src/BranchTree/Add.antt =====
-- tree.go, AddNode and dfsTree. `dfs_tree` takes fuel for the depth of the calls: `none` says that
-- it ran out (`BranchTree.Termination` says when it does not).
use seckill_pkg.Base.{
  ℕ, zero, suc, Bool, true, false, Option, none, some, List, [], ◌∷◌, ◌&&◌, not, Text, ◌==◌,
  if◌then◌else◌, is_empty, ◌>>=◌,
}
use seckill_pkg.Base.Dict
use seckill_pkg.Base.Dict.{Dict}
use seckill_pkg.BranchTree.{
  Node, decision, exec, plain, node_id, Root, root_id, Entry, root_ref, user, DecisionTree,
  new_root, add_children, has_children, delete_children, children_list,
}

-- The two errors of AddNode.
pub data AddError : Type 0 where
  must_set_node : AddError
  not_support_type : AddError

-- `none` is the nil error.
abbrev pub AddResult : Type 0 → Type 0 → Type 0
AddResult P R = DecisionTree P R × Option AddError

module _ {P R : Type 0} where
  abbrev pub is_root : Entry P R → Bool
  is_root root_ref = true
  is_root (user n) = false

  -- The case `DecisionNode` of a type switch on an entry: its ChildrenList, read now.
  abbrev pub decision_children : Root P R → Entry P R → Option (List Text)
  decision_children r root_ref = some (children_list r)
  decision_children r (user (decision id rule children)) = some children
  decision_children r (user (exec id do_it)) = none
  decision_children r (user (plain id)) = none

  -- `if t.root.HasChildren(v) && n != root { t.root.DeleteChildren(v) }`
  unfoldable pub drop_pending : Root P R → Entry P R → Text → Root P R
  drop_pending r n v = if has_children r v && not (is_root n) then delete_children r v else r

  -- The loop of dfsTree over the children `cl` of `n`; `self` is the recursive call.
  unfoldable pub scan :
      (Root P R → Entry P R → List Text → Option (Root P R × Bool))
      → Dict (Entry P R)
      → Text
      → Entry P R
      → Root P R
      → List Text
      → Option (Root P R × Bool)
  scan self m p n r [] = some (r, false)
  scan self m p n r (v ∷ cl) =
      if v == p then some (drop_pending r n v, true) else elim (Dict.lookup v m) [
        | none ↦ scan self m p n r cl
        | some e ↦ elim (decision_children r e) [
          | none ↦ scan self m p n r cl
          | some children ↦ self r e children >>= λ found. (elim found.1 [
            | true ↦ some (found.0, true)
            | false ↦ scan self m p n found.0 cl
          ])
        ]
      ]

  -- dfsTree at a node `n` whose ChildrenList is `cl`.
  unfoldable pub dfs_tree :
      ℕ → Dict (Entry P R) → Text → Root P R → Entry P R → List Text → Option (Root P R × Bool)
  dfs_tree zero m p r n cl = none
  dfs_tree (suc fuel) m p r n cl =
      if is_empty (children_list r) then some (r, false) else scan (dfs_tree fuel m p) m p n r cl

  -- the loop that takes the children of a new decision node off the root
  unfoldable pub adopt : Root P R → List Text → Root P R
  adopt r [] = r
  adopt r (v ∷ l) = adopt (if has_children r v then delete_children r v else r) l

  -- The first lines of AddNode: a nil root and a nil nodeMap are made.
  abbrev pub ready_root : DecisionTree P R → Root P R
  ready_root t = elim t.root [ none ↦ new_root | some r ↦ r ]

  abbrev pub ready_map : DecisionTree P R → Dict (Entry P R)
  ready_map t = elim t.node_map [ none ↦ Dict.insert root_id root_ref [] | some m ↦ m ]

  -- the end of AddNode, from `if !t.dfsTree(…)`
  unfoldable pub place : ℕ → Dict (Entry P R) → Root P R → Node P R → Option (DecisionTree P R)
  place fuel m r n = dfs_tree fuel m (node_id n) r root_ref (children_list r) >>= λ found.
      some (record {
        root = some (if found.1 then found.0 else add_children found.0 n);
        node_map = some (Dict.insert (node_id n) (user n) m);
      })

  -- AddNode; a nil argument is `none`.
  unfoldable pub add_node : ℕ → DecisionTree P R → Option (Node P R) → Option (AddResult P R)
  add_node fuel t none =
      some (
        record { root = some (ready_root t); node_map = some (ready_map t) },
        some not_support_type,
      )
  add_node fuel t (some (plain id)) =
      some
        (record { root = some (ready_root t); node_map = some (ready_map t) }, some must_set_node)
  add_node fuel t (some (exec id do_it)) =
      place fuel (ready_map t) (ready_root t) (exec id do_it) >>= λ u. some (u, none)
  add_node fuel t (some (decision id rule children)) =
      place fuel (ready_map t) (adopt (ready_root t) children) (decision id rule children) >>= λ u.
      some (u, none)

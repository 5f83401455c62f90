-- ===== src/BranchTree/Termination.antt =====
-- When AddNode and Decision end. Both follow the children lists of the registered nodes with no
-- mark on what was visited, so they end on trees without cycles: a rank that falls from a node to
-- its children bounds the depth of dfsTree, and a weight above the sum of the children's bounds the
-- rounds of levelOrderTree. A node that lists itself sends AddNode into an endless recursion.
use seckill_pkg.Base.{
  ℕ, zero, suc, ◌<◌, ◌≡◌, refl, inl, inr, Bool, true, false, Option, none, some, List, [], ◌∷◌,
  arith, Text, ◌==◌, ==_self, is_empty, is_some, ◌>>=◌, mem, Bool-cases, Option-cases,
}
use seckill_pkg.Base.Dict
use seckill_pkg.Base.Dict.{Dict}
use seckill_pkg.BranchTree.{
  Node, decision, exec, plain, node_id, Root, Entry, root_ref, user, DecisionTree, children_list,
}
use seckill_pkg.BranchTree.Add.{
  dfs_tree, scan, decision_children, adopt, place, add_node, ready_root, ready_map,
}
use seckill_pkg.BranchTree.Invariant.{IsSound, mem-adopt}
use seckill_pkg.BranchTree.Search.{Post, dfs_tree-Post_below}

-- The rest of the loop is reached at the same root.
descend_ends :
    {P R : Type 0} (m : Dict (Entry P R)) (p : Text) (r : Root P R) (children : List Text)
    (found : Option (Root P R × Bool)) (rest : Root P R → Option (Root P R × Bool))
    → is_some found ≡ true
    → Post m p r children found
    → is_some (rest r) ≡ true
    → is_some (found >>= λ f. elim f.1 [ true ↦ some (f.0, true) | false ↦ rest f.0 ]) ≡ true
descend_ends m p r children none rest h q k = cc
descend_ends m p r children (some (r', true)) rest h q k = refl
descend_ends m p r children (some (r', false)) rest h q k = rw q.0 k

module _ {P R : Type 0} (m : Dict (Entry P R)) (rank : Text → ℕ) where
  -- Below every registered decision node, and below the root, the rank falls.
  abbrev pub IsRanked : Root P R → Type 0
  IsRanked r =
      (v c : Text) (e : Entry P R) (children : List Text)
      → Dict.lookup v m ≡ some e
      → decision_children r e ≡ some children
      → mem c children ≡ true
      → rank c < rank v

  module _ (p : Text) (r : Root P R) where
    -- The loop of dfsTree ends if every search below a child does.
    module _ (self : Root P R → Entry P R → List Text → Option (Root P R × Bool)) (n : Entry P R)
        (bound : ℕ)
        (ends : (v : Text) (e : Entry P R) (children : List Text)
          → Dict.lookup v m ≡ some e
          → decision_children r e ≡ some children
          → rank v < bound
          → (is_some (self r e children) ≡ true) × Post m p r children (self r e children)) where
      scan_ends :
          (cl : List Text)
          → ((c : Text) → mem c cl ≡ true → rank c < bound)
          → is_some (scan self m p n r cl) ≡ true
      unfolding scan
      scan_ends [] h = refl
      scan_ends (v ∷ cl) h =
          let later = scan_ends cl (λ c k. h c (ground arith)) in
          elim (Bool-cases (v == p)) [
            | inl same ↦ rw same refl
            | inr other ↦
                rw (other, scan)
                  (elim (Option-cases (Dict.lookup v m)) [
                    | inl missing ↦ rw missing later
                    | inr (e, found) ↦ rw found (elim (Option-cases (decision_children r e)) [
                      | inl leaf ↦ rw leaf later
                      | inr (children, inner) ↦
                          let below =
                            ends v e children found inner (h v (ground (arith, ==_self v))) in
                          rw inner (
                            descend_ends m p r children (self r e children)
                              (λ r'. scan self m p n r' cl) below.0 below.1 later)
                    ])
                  ])
          ]

    dfs_tree_ends :
        (fuel : ℕ) (n : Entry P R) (cl : List Text)
        → IsRanked r
        → ((c : Text) → mem c cl ≡ true → rank c < fuel)
        → is_some (dfs_tree (suc fuel) m p r n cl) ≡ true
    unfolding dfs_tree
    dfs_tree_ends zero n cl ranked h = elim (Bool-cases (is_empty (children_list r))) [
      | inl empty ↦ rw empty refl
      | inr full ↦
          rw full (scan_ends (dfs_tree zero m p) n zero (λ v e k found inner lt. elim lt [ ]) cl h)
    ]
    dfs_tree_ends (suc fuel) n cl ranked h = elim (Bool-cases (is_empty (children_list r))) [
      | inl empty ↦ rw empty refl
      | inr full ↦ rw full (
          scan_ends (dfs_tree (suc fuel) m p) n (suc fuel)
            (λ v e k found inner lt. (
              dfs_tree_ends fuel e k ranked
                  (λ c listed. omega (arith, ranked v c e k found inner listed)),
              dfs_tree-Post_below m p (suc fuel) r v e k found inner full,
            ))
            cl h)
    ]

module _ {P R : Type 0} (rank : Text → ℕ) (t : DecisionTree P R) (s : IsSound (ready_root t)) where
  -- A root that lost children to the adoption is ranked as before.
  IsRanked-adopt :
      (m : Dict (Entry P R)) (r : Root P R) (l : List Text)
      → IsSound r
      → IsRanked m rank r
      → IsRanked m rank (adopt r l)
  IsRanked-adopt m r l sound ranked v c root_ref children found inner listed =
      ranked v c root_ref (children_list r) found refl (ground (arith, mem-adopt r l c sound))
  IsRanked-adopt m r l sound ranked v c (user n) children found inner listed =
      ranked v c (user n) children found (same_children n inner) listed
    where
      same_children :
          (n : Node P R)
          → decision_children (adopt r l) (user n) ≡ some children
          → decision_children r (user n) ≡ some children
      same_children (decision id rule k) e = e
      same_children (exec id do_it) e = e
      same_children (plain id) e = e

  place_ends :
      (fuel : ℕ) (m : Dict (Entry P R)) (r : Root P R) (n : Node P R)
      → IsRanked m rank r
      → ((c : Text) → mem c (children_list r) ≡ true → rank c < fuel)
      → is_some (place (suc fuel) m r n) ≡ true
  unfolding place
  place_ends fuel m r n ranked h =
      ground (arith, dfs_tree_ends m rank (node_id n) r fuel root_ref (children_list r) ranked h)

  -- On a tree with a sound root whose registered children have lower ranks than their parents,
  -- AddNode ends as soon as the depth of the calls may pass the ranks of the root's children.
  pub add_node_ends :
      (fuel : ℕ) (n : Option (Node P R))
      → IsRanked (ready_map t) rank (ready_root t)
      → ((c : Text) → mem c (children_list (ready_root t)) ≡ true → rank c < fuel)
      → is_some (add_node (suc fuel) t n) ≡ true
  unfolding add_node
  add_node_ends fuel none ranked h = refl
  add_node_ends fuel (some (plain id)) ranked h = refl
  add_node_ends fuel (some (exec id do_it)) ranked h =
      ground (arith, place_ends fuel (ready_map t) (ready_root t) (exec id do_it) ranked h)
  add_node_ends fuel (some (decision id rule children)) ranked h =
      let r = adopt (ready_root t) children in
      let ends =
        place_ends fuel (ready_map t) r (decision id rule children)
          (IsRanked-adopt (ready_map t) (ready_root t) children s ranked)
          (λ c listed. h c (ground (arith, mem-adopt (ready_root t) children c s))) in
      ground (arith, ends)

-- A registered decision node that is its own first child: the search below it makes the same call
-- again, so dfsTree never ends, whatever the fuel.
module _ {P R : Type 0} (m : Dict (Entry P R)) (p : Text) (r : Root P R) (v id : Text)
    (rule : P → Bool) (rest : List Text)
    (found : Dict.lookup v m ≡ some (user (decision id rule (v ∷ rest))))
    (other : (v == p) ≡ false) where
  dfs_tree_diverges :
      (fuel : ℕ) (n : Entry P R) (cl : List Text)
      → is_empty (children_list r) ≡ false
      → dfs_tree fuel m p r n (v ∷ cl) ≡ none
  unfolding dfs_tree scan
  dfs_tree_diverges zero n cl full = refl
  dfs_tree_diverges (suc fuel) n cl full =
      rw (full, other, found)
        (rw (dfs_tree_diverges fuel (user (decision id rule (v ∷ rest))) rest full))

  pub place_diverges :
      (fuel : ℕ) (n : Node P R) (cl : List Text)
      → children_list r ≡ v ∷ cl
      → node_id n ≡ p
      → place fuel m r n ≡ none
  unfolding place
  place_diverges fuel n cl first same =
      rw (first, same) (rw (dfs_tree_diverges fuel root_ref cl (rw first)))

-- AddNode of any leaf with another id runs out of any fuel on a tree whose first pending node
-- is a registered decision node that lists itself first.
pub add_node_diverges :
    {P R : Type 0} (fuel : ℕ) (t : DecisionTree P R) (id v : Text) (do_it : P → R) (rule : P → Bool)
    (rest cl : List Text)
    → Dict.lookup v (ready_map t) ≡ some (user (decision v rule (v ∷ rest)))
    → children_list (ready_root t) ≡ v ∷ cl
    → (v == id) ≡ false
    → add_node fuel t (some (exec id do_it)) ≡ none
unfolding add_node
add_node_diverges fuel t id v do_it rule rest cl found first other = rw (
    place_diverges (ready_map t) id (ready_root t) v v rule rest found other fuel (exec id do_it) cl
      first refl)

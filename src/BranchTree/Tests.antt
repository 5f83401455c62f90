-- ===== src/BranchTree/Tests.antt =====
-- Runs of the decision tree, and the theorems at concrete trees.
use seckill_pkg.Base.{
  ◌⊎◌, ==_iff, ℕ, ◌≡◌, refl, Bool, true, Option, none, some, List, [], ◌∷◌, ◌>>=◌, ◌<◌, ◌≢◌, ◌++◌,
  is_some, All, inl, inr, Bool-cases, arith, eqb, ltb, leb, mem, if◌then◌else◌, Text, codes, pos,
  ◌==◌,
}
use seckill_pkg.Base.Dict
use seckill_pkg.Base.Dict.{Dict}
use seckill_pkg.BranchTree.Invariant.{IsSound}
use seckill_pkg.BranchTree.Termination.{IsRanked, add_node_ends, add_node_diverges}
use seckill_pkg.BranchTree.Place.{
  add_node-IsSound, add_node-lookup, HasParents, add_node-HasParents,
}
use seckill_pkg.BranchTree.Rounds.{Executed, decide_executes}
use seckill_pkg.BranchTree.Weights.{IsWeighted, decide_ends}
use seckill_pkg.BranchTree.Siblings.{answer, opens, silent, decide_visits_last, decide_panics}
use seckill_pkg.BranchTree.Print.{
  out_of_fuel, IsKnown, pushed, levels, printed, print_tree, print_tree-eq-levels, bfs_tree_print,
  bfs_tree_print_diverges,
}
use seckill_pkg.BranchTree.Binary.{IsNarrow, walk, decide-eq-walk}
use seckill_pkg.BranchTree.{
  Node, decision, exec, Root, root_id, Entry, root_ref, user, DecisionTree, children_list,
  empty_tree, new_root, add_children, has_children, remove_first, delete_children,
}
use seckill_pkg.BranchTree.Add.{
  ready_root, ready_map, add_node, place, dfs_tree, scan, drop_pending, adopt,
}
use seckill_pkg.BranchTree.Walk
use seckill_pkg.BranchTree.Walk.{Outcome, executed, finished, panicked, kind, is_decision, decide}
use seckill_pkg.BranchTree.Park.{
  park_tree, people, Visit, buy_ticket, enter_park, discount_ticket, age_id, age_rule,
}

-- The walks of the example's `main`.
visit_of : ℕ → ℕ → Option (Outcome Visit)
unfolding park_tree decide place dfs_tree scan drop_pending adopt add_children has_children
    remove_first delete_children Dict.lookup Dict.insert Dict.erase ◌==◌ age_id age_rule
visit_of a h =
    park_tree >>= λ t. some (decide 9 t (people (record { age = pos a; height = pos h })))

visit_16 : visit_of 16 150 ≡ some (executed buy_ticket)
unfolding visit_of
visit_16 = refl

visit_8 : visit_of 8 110 ≡ some (executed enter_park)
unfolding visit_of
visit_8 = refl

visit_61 : visit_of 61 160 ≡ some (executed discount_ticket)
unfolding visit_of
visit_61 = refl

visit_45 : visit_of 45 160 ≡ some (executed buy_ticket)
unfolding visit_of
visit_45 = refl

-- A tree with two decision nodes under the root and one leaf, which answers with its parameter.
abbrev a_id : Text
a_id = codes "a"

abbrev b_id : Text
b_id = codes "b"

abbrev x_id : Text
x_id = codes "x"

abbrev node_a : Node ℕ ℕ
node_a = decision a_id (λ n. ltb n 5) (x_id ∷ [])

abbrev node_b : Node ℕ ℕ
node_b = decision b_id (λ n. leb 5 n) (x_id ∷ [])

abbrev node_x : Node ℕ ℕ
node_x = exec x_id (λ n. n)

abbrev small_root : Root ℕ ℕ
small_root = record { child_list = node_a ∷ node_b ∷ []; child_map = (a_id, 1) ∷ (b_id, 1) ∷ [] }

abbrev small_map : Dict (Entry ℕ ℕ)
small_map =
    (root_id, root_ref) ∷ (a_id, user node_a) ∷ (b_id, user node_b) ∷ (x_id, user node_x) ∷ []

abbrev small : DecisionTree ℕ ℕ
small = record { root = some small_root; node_map = some small_map }

abbrev height_of : Text → ℕ
height_of v = if root_id == v then 2 else if a_id == v then 1 else if b_id == v then 1 else 0

small-IsSound : IsSound small_root
unfolding has_children Dict.lookup ◌==◌
small-IsSound = record { mapped = λ id. ground arith; distinct = ground arith }

small-IsRanked : IsRanked small_map height_of small_root
unfolding Dict.lookup
small-IsRanked v c e children found inner listed = ground (
  arith,
  ==_iff root_id v,
  ==_iff a_id v,
  ==_iff b_id v,
  ==_iff x_id v,
  ==_iff root_id c,
  ==_iff a_id c,
  ==_iff b_id c,
  ==_iff x_id c,
)

small_low : (c : Text) → mem c (children_list small_root) ≡ true → height_of c < 2
small_low c h = ground (arith, ==_iff root_id c, ==_iff a_id c, ==_iff b_id c)

add_node_ends_example : is_some (add_node 3 small (some node_x)) ≡ true
add_node_ends_example =
    add_node_ends height_of small small-IsSound 2 (some node_x) small-IsRanked small_low

-- A new decision node that takes `a` from the root.
abbrev c_id : Text
c_id = codes "c"

abbrev node_c : Node ℕ ℕ
node_c = decision c_id (λ n. ltb n 9) (a_id ∷ [])

abbrev larger : DecisionTree ℕ ℕ
larger = record {
  root =
      some (record { child_list = node_b ∷ node_c ∷ []; child_map = (b_id, 1) ∷ (c_id, 1) ∷ [] });
  node_map = some (small_map ++ (c_id, user node_c) ∷ []);
}

small_grows : add_node 3 small (some node_c) ≡ some (larger, none)
unfolding add_node place dfs_tree scan drop_pending adopt add_children has_children remove_first
    delete_children Dict.lookup Dict.insert Dict.erase ◌==◌
small_grows = refl

add_node-IsSound_example : IsSound (ready_root larger)
add_node-IsSound_example =
    add_node-IsSound 3 small (some node_c) larger none small-IsSound small_grows

add_node-lookup_example :
    Dict.lookup c_id (ready_map larger)
    ≡ (if c_id == c_id then some (user node_c) else Dict.lookup c_id small_map)
add_node-lookup_example = add_node-lookup 3 small node_c larger c_id small-IsSound small_grows

small-HasParents : HasParents small
unfolding Dict.lookup
small-HasParents id n found = elim (Bool-cases (x_id == id)) [
  | inl same ↦ inr (record {
    key = a_id;
    id = a_id;
    rule = λ k. ltb k 5;
    children = x_id ∷ [];
    registered = unfold ◌==◌ in refl;
    listed = ground arith;
  })
  | inr other ↦ inl (ground (arith, ==_iff root_id id, ==_iff a_id id, ==_iff b_id id))
]

add_node-HasParents_example : HasParents larger
add_node-HasParents_example =
    add_node-HasParents 3 small node_c larger small-IsSound small-HasParents
      (unfold Dict.lookup ◌==◌ in refl) small_grows

small_executes : decide 4 small 3 ≡ executed 3
unfolding decide Dict.lookup ◌==◌
small_executes = refl

decide_executes_example : Executed small_root small_map 3 3
decide_executes_example = decide_executes small_root small_map 3 4 small 3 refl refl small_executes

abbrev weight_of : Text → ℕ
weight_of v = if root_id == v then 6 else if a_id == v then 2 else if b_id == v then 2 else 1

-- The decision nodes of the tree and their children.
small_decisions :
    (v : Text) (rule : ℕ → Bool) (children : List Text)
    → kind small_root (Dict.lookup v small_map) ≡ is_decision rule children
    → ((v ≡ root_id) × (children ≡ a_id ∷ b_id ∷ []))
      ⊎ (((v ≡ a_id) ⊎ (v ≡ b_id)) × (children ≡ x_id ∷ []))
unfolding Dict.lookup
small_decisions v rule children found =
    ground (arith, ==_iff root_id v, ==_iff a_id v, ==_iff b_id v, ==_iff x_id v)

small-IsWeighted : IsWeighted weight_of small_root small_map 3
unfolding ◌==◌
small-IsWeighted v rule children found = elim (small_decisions v rule children found) [
  | inl (e, k) ↦ rw (e, k) (omega arith)
  | inr (inl e, k) ↦ rw (e, k) (omega arith)
  | inr (inr e, k) ↦ rw (e, k) (omega arith)
]

decide_ends_example : decide 7 small 3 ≢ Walk.out_of_fuel
unfolding ◌==◌
decide_ends_example =
    decide_ends weight_of small_root small_map 3 small-IsWeighted (λ v. ground arith) 7 small refl
      refl (omega arith)

small_answers :
    (v : Text) (children : List Text)
    → answer small_root small_map 3 v ≡ opens children
    → (children ≡ a_id ∷ b_id ∷ []) ⊎ (children ≡ x_id ∷ [])
unfolding Dict.lookup
small_answers v children found =
    ground (arith, ==_iff root_id v, ==_iff a_id v, ==_iff b_id v, ==_iff x_id v)

silent_b : answer small_root small_map 3 b_id ≡ silent
unfolding Dict.lookup ◌==◌
silent_b = refl

small-IsNarrow :
    (v : Text) (children : List Text)
    → answer small_root small_map 3 v ≡ opens children
    → IsNarrow small_root small_map 3 children
small-IsNarrow v children found = elim (small_answers v children found) [
  | inl e ↦ rw e (λ k h. silent_b)
  | inr e ↦ rw e tt
]

small_walk : walk small_root small_map 3 3 (a_id ∷ b_id ∷ []) ≡ executed 3
unfolding walk Dict.lookup ◌==◌
small_walk = refl

decide-eq-walk_example : decide 5 small 3 ≡ walk small_root small_map 3 3 (a_id ∷ b_id ∷ [])
decide-eq-walk_example =
    decide-eq-walk small_root small_map 3 small-IsNarrow small 3 refl refl
      (unfold Dict.lookup ◌==◌ in refl) refl (λ k h. silent_b) (λ e. cc (small_walk))

small_pushes :
    (v : Text) (e : Entry ℕ ℕ)
    → Dict.lookup v small_map ≡ some e
    → ((v ≡ root_id) × (pushed small_root e ≡ a_id ∷ b_id ∷ []))
      ⊎ (((v ≡ a_id) ⊎ (v ≡ b_id)) × (pushed small_root e ≡ x_id ∷ []))
      ⊎ (pushed small_root e ≡ [])
unfolding Dict.lookup
small_pushes v e found =
    ground (arith, ==_iff root_id v, ==_iff a_id v, ==_iff b_id v, ==_iff x_id v)

small_closed :
    (v : Text) (e : Entry ℕ ℕ)
    → Dict.lookup v small_map ≡ some e
    → All (IsKnown small_root small_map) (pushed small_root e)
unfolding Dict.lookup ◌==◌
small_closed v e found = elim (small_pushes v e found) [
  | inl (at, k) ↦ rw k ((user node_a, refl), ((user node_b, refl), tt))
  | inr (inl (at, k)) ↦ rw k ((user node_x, refl), tt)
  | inr (inr k) ↦ rw k tt
]

small_falls :
    (v : Text) (e : Entry ℕ ℕ)
    → Dict.lookup v small_map ≡ some e
    → All (λ c. height_of c < height_of v) (pushed small_root e)
unfolding ◌==◌
small_falls v e found = elim (small_pushes v e found) [
  | inl (at, k) ↦ rw (at, k) (omega arith)
  | inr (inl (inl at, k)) ↦ rw (at, k) (omega arith)
  | inr (inl (inr at, k)) ↦ rw (at, k) (omega arith)
  | inr (inr k) ↦ rw k tt
]

print_tree-eq-levels_example :
    print_tree 4 small ≡ printed (levels small_root small_map 4 (root_id ∷ []))
unfolding ◌==◌
print_tree-eq-levels_example =
    print_tree-eq-levels small_root small_map height_of small_closed small_falls 3 small refl refl
      (unfold Dict.lookup in refl) (omega arith)

small_levels :
    print_tree 4 small ≡ printed ((root_id ∷ []) ∷ (a_id ∷ b_id ∷ []) ∷ (x_id ∷ x_id ∷ []) ∷ [])
unfolding print_tree Dict.lookup ◌==◌
small_levels = refl

-- PrintTree of a tree without nodes reads an empty map.
bfs_tree_print_diverges_example :
    bfs_tree_print {P = ℕ} {R = ℕ} new_root [] 1000 (root_id ∷ []) [] ≡ out_of_fuel
unfolding Dict.lookup ◌==◌
bfs_tree_print_diverges_example =
    bfs_tree_print_diverges new_root [] root_id 1000 (root_id ∷ []) [] refl refl

-- A node that lists itself under the root.
abbrev loop_node : Node ℕ ℕ
loop_node = decision a_id (λ n. true) (a_id ∷ [])

abbrev looped : DecisionTree ℕ ℕ
looped = record {
  root = some (record { child_list = loop_node ∷ []; child_map = (a_id, 1) ∷ [] });
  node_map = some ((root_id, root_ref) ∷ (a_id, user loop_node) ∷ []);
}

looped_made : add_node 1 empty_tree (some loop_node) ≡ some (looped, none)
unfolding add_node place dfs_tree scan drop_pending adopt add_children has_children remove_first
    delete_children Dict.lookup Dict.insert Dict.erase ◌==◌
looped_made = refl

add_node_diverges_example : add_node 1000 looped (some node_x) ≡ none
unfolding Dict.lookup ◌==◌
add_node_diverges_example =
    add_node_diverges 1000 looped x_id a_id (λ n. n) (λ n. true) [] [] refl refl refl

-- The leaf `y` stands beside `a`, which opens its children.
abbrev y_id : Text
y_id = codes "y"

abbrev node_y : Node ℕ ℕ
node_y = exec y_id (λ _. 7)

abbrev beside_root : Root ℕ ℕ
beside_root = record { child_list = node_a ∷ node_y ∷ []; child_map = (a_id, 1) ∷ (y_id, 1) ∷ [] }

abbrev beside_map : Dict (Entry ℕ ℕ)
beside_map =
    (root_id, root_ref) ∷ (a_id, user node_a) ∷ (x_id, user node_x) ∷ (y_id, user node_y) ∷ []

decide_visits_last_example :
    decide 2 (record { root = some beside_root; node_map = some beside_map }) 3 ≡ executed 7
unfolding Dict.lookup ◌==◌
decide_visits_last_example =
    decide_visits_last beside_root beside_map 3
      (record { root = some beside_root; node_map = some beside_map }) refl refl refl refl 0 a_id
      y_id (x_id ∷ []) 7 refl refl refl

-- Five branches whose rules exclude one another; the first has one child, which opens in turn.
abbrev gate : Text → ℕ → Text → Node ℕ ℕ
gate id k child = decision id (λ n. eqb n k) (child ∷ [])

abbrev wide_root : Root ℕ ℕ
wide_root = record {
  child_list =
      gate (codes "g1") 1 a_id
      ∷ gate (codes "g2") 2 x_id
      ∷ gate (codes "g3") 3 x_id
      ∷ gate (codes "g4") 4 x_id
      ∷ gate (codes "g5") 5 x_id
      ∷ [];
  child_map = [];
}

abbrev wide_map : Dict (Entry ℕ ℕ)
wide_map =
    (root_id, root_ref)
    ∷ (codes "g1", user (gate (codes "g1") 1 a_id))
    ∷ (codes "g5", user (gate (codes "g5") 5 x_id))
    ∷ (a_id, user node_a)
    ∷ (x_id, user node_x)
    ∷ []

decide_panics_example :
    decide 2 (record { root = some wide_root; node_map = some wide_map }) 1 ≡ panicked
unfolding Dict.lookup ◌==◌
decide_panics_example =
    decide_panics wide_root wide_map 1 (record { root = some wide_root; node_map = some wide_map })
      refl refl refl refl 0 (codes "g1") (codes "g2") (codes "g3") (codes "g4") (codes "g5") a_id
      (x_id ∷ []) refl refl refl refl

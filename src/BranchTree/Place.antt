-- ===== src/BranchTree/Place.antt =====
-- What AddNode does to a sound tree: the bookkeeping stays sound, the node is registered, and no
-- node is left without a parent.
use seckill_pkg.Base.{
  ℕ, ◌≡◌, refl, ◌⊎◌, inl, inr, ◌∙◌, Bool, true, false, Option, none, some, arith, Text, ◌==◌,
  ==_iff, ==_self, if◌then◌else◌, ◌>>=◌, mem, of_some, Bool-cases,
}
use seckill_pkg.Base.Dict
use seckill_pkg.Base.Dict.{Dict}
use seckill_pkg.BranchTree.{
  Node, decision, exec, plain, node_id, Root, Entry, user, DecisionTree, add_children,
  delete_children, children_list,
}
use seckill_pkg.BranchTree.Add.{adopt, place, add_node, AddError, ready_root, ready_map}
use seckill_pkg.BranchTree.Invariant.{
  IsSound, add_children-IsSound, delete_children-IsSound, adopt-IsSound, mem-delete_children,
  mem-add_children, mem-adopt,
}
use seckill_pkg.BranchTree.Search.{IsListed, Found, Post, dfs_tree-Post_root}

module _ {P R : Type 0} where
  -- The tree after `place`: its root, and how it differs from the root before.
  pub record Placed (m : Dict (Entry P R)) (r : Root P R) (n : Node P R) (r' : Root P R)
      : Type 0 where
    pub sound : IsSound r'
    pub others :
        (j : Text) → (node_id n == j) ≡ false → mem j (children_list r') ≡ mem j (children_list r)
    pub parent : (mem (node_id n) (children_list r') ≡ true) ⊎ IsListed m (node_id n)

  module _ (m : Dict (Entry P R)) (r : Root P R) (n : Node P R) (s : IsSound r) where
    Placed-added : mem (node_id n) (children_list r) ≡ false → Placed m r n (add_children r n)
    Placed-added h = record {
      sound = add_children-IsSound r n h s;
      others = λ j ne. ground (arith, mem-add_children r n j);
      parent = inl (ground (arith, mem-add_children r n (node_id n), ==_self (node_id n)));
    }

    Placed-kept :
        (mem (node_id n) (children_list r) ≡ true) ⊎ IsListed m (node_id n) → Placed m r n r
    Placed-kept h = record { sound = s; others = λ j ne. refl; parent = h }

    Placed-deleted : IsListed m (node_id n) → Placed m r n (delete_children r (node_id n))
    Placed-deleted h = record {
      sound = delete_children-IsSound r (node_id n) s;
      others = λ j ne. ground (arith, mem-delete_children r (node_id n) j s);
      parent = inr h;
    }

    Placed-of_Found : {r' : Root P R} → Found m (node_id n) r r' → Placed m r n r'
    Placed-of_Found (inl (e, h)) = rw e (Placed-kept (inl h))
    Placed-of_Found (inr (l, inl e)) = rw e (Placed-kept (inr l))
    Placed-of_Found (inr (l, inr e)) = rw e (Placed-deleted l)

    abbrev IsPlaced : DecisionTree P R → Type 0
    IsPlaced t = Placed m r n (ready_root t) × (ready_map t ≡ Dict.insert (node_id n) (user n) m)

    Placed_of_Post :
        (o : Option (Root P R × Bool))
        → Post m (node_id n) r (children_list r) o
        → (t : DecisionTree P R)
        → (o >>= λ found. some (record {
          root = some (if found.1 then found.0 else add_children found.0 n);
          node_map = some (Dict.insert (node_id n) (user n) m);
        }))
          ≡ some t
        → IsPlaced t
    Placed_of_Post none h t e = cc
    Placed_of_Post (some (r', true)) h t e = of_some IsPlaced e (Placed-of_Found h, refl)
    Placed_of_Post (some (r', false)) h t e = of_some IsPlaced e (rw h.0 (Placed-added h.1), refl)

  place-IsPlaced :
      (fuel : ℕ) (m : Dict (Entry P R)) (r : Root P R) (n : Node P R) (t : DecisionTree P R)
      (s : IsSound r)
      → place fuel m r n ≡ some t
      → IsPlaced m r n s t
  unfolding place
  place-IsPlaced fuel m r n t s e =
      Placed_of_Post m r n s _ (dfs_tree-Post_root m (node_id n) fuel r) t e

  -- Every registered node of the caller hangs under the root or a registered decision node.
  abbrev pub HasParents : DecisionTree P R → Type 0
  HasParents t =
      (id : Text) (n : Node P R)
      → Dict.lookup id (ready_map t) ≡ some (user n)
      → (mem id (children_list (ready_root t)) ≡ true) ⊎ IsListed (ready_map t) id

  -- What AddNode starts the search with.
  abbrev adopted : DecisionTree P R → Node P R → Root P R
  adopted t (decision id rule children) = adopt (ready_root t) children
  adopted t (exec id do_it) = ready_root t
  adopted t (plain id) = ready_root t

  adopted-IsSound :
      (t : DecisionTree P R) (n : Node P R) → IsSound (ready_root t) → IsSound (adopted t n)
  adopted-IsSound t (decision id rule children) s = adopt-IsSound (ready_root t) children s
  adopted-IsSound t (exec id do_it) s = s
  adopted-IsSound t (plain id) s = s

  -- A call that returns nil has placed the node.
  add_node-IsPlaced :
      (fuel : ℕ) (t : DecisionTree P R) (n : Node P R) (t' : DecisionTree P R)
      (s : IsSound (ready_root t))
      → add_node fuel t (some n) ≡ some (t', none)
      → IsPlaced (ready_map t) (adopted t n) n (adopted-IsSound t n s) t'
  unfolding add_node
  add_node-IsPlaced fuel t (plain id) t' s e = cc
  add_node-IsPlaced fuel t (exec id do_it) t' s e =
      place-IsPlaced fuel (ready_map t) (ready_root t) (exec id do_it) t' s (ground arith)
  add_node-IsPlaced fuel t (decision id rule children) t' s e =
      place-IsPlaced fuel (ready_map t) (adopt (ready_root t) children) (decision id rule children)
        t' (adopt-IsSound (ready_root t) children s) (ground arith)

  -- However AddNode ends, the root's childMap holds the ids of its childList, each once, if it
  -- did before.
  pub add_node-IsSound :
      (fuel : ℕ) (t : DecisionTree P R) (n : Option (Node P R)) (t' : DecisionTree P R)
      (err : Option AddError)
      → IsSound (ready_root t)
      → add_node fuel t n ≡ some (t', err)
      → IsSound (ready_root t')
  unfolding add_node
  add_node-IsSound fuel t none t' err s e = of_some (λ u. IsSound (ready_root u.0)) e s
  add_node-IsSound fuel t (some (plain id)) t' err s e = of_some (λ u. IsSound (ready_root u.0)) e s
  add_node-IsSound fuel t (some (exec id do_it)) t' err s e =
      (add_node-IsPlaced fuel t (exec id do_it) t' s (ground arith)).0.sound
  add_node-IsSound fuel t (some (decision id rule children)) t' err s e =
      (add_node-IsPlaced fuel t (decision id rule children) t' s (ground arith)).0.sound

  IsListed_insert :
      (m : Dict (Entry P R)) (id j : Text) (n : Node P R)
      → Dict.lookup id m ≡ none
      → IsListed m j
      → IsListed (Dict.insert id (user n) m) j
  IsListed_insert m id j n fresh l = record {
    key = l.key;
    id = l.id;
    rule = l.rule;
    children = l.children;
    registered =
        ground (arith, l.registered, Dict.lookup-insert id l.key (user n) m, ==_iff id l.key);
    listed = l.listed;
  }

  -- A child of the root is still one after the adoption, or is listed by the new node.
  adopted_or_listed :
      (t : DecisionTree P R) (n : Node P R) (j : Text)
      → IsSound (ready_root t)
      → mem j (children_list (ready_root t)) ≡ true
      → (mem j (children_list (adopted t n)) ≡ true)
        ⊎ IsListed (Dict.insert (node_id n) (user n) (ready_map t)) j
  adopted_or_listed t (exec id do_it) j s h = inl h
  adopted_or_listed t (plain id) j s h = inl h
  adopted_or_listed t (decision id rule children) j s h = elim (Bool-cases (mem j children)) [
    | inl listed ↦ inr (record {
      key = id;
      id = id;
      rule = rule;
      children = children;
      registered = Dict.lookup-insert_self id _ _;
      listed = listed;
    })
    | inr other ↦ inl (rw (mem-adopt (ready_root t) children j s, other) h)
  ]

  module _ (t : DecisionTree P R) (n : Node P R) (t' : DecisionTree P R)
      (s : IsSound (ready_root t)) (hp : HasParents t)
      (fresh : Dict.lookup (node_id n) (ready_map t) ≡ none)
      (placed : IsPlaced (ready_map t) (adopted t n) n (adopted-IsSound t n s) t') where
    abbrev Hangs : Text → Type 0
    Hangs j =
        (mem j (children_list (ready_root t')) ≡ true)
        ⊎ IsListed (Dict.insert (node_id n) (user n) (ready_map t)) j

    new-Hangs : Hangs (node_id n)
    new-Hangs = elim placed.0.parent [
      | inl under ↦ inl under
      | inr l ↦ inr (IsListed_insert (ready_map t) (node_id n) (node_id n) n fresh l)
    ]

    old-Hangs :
        (j : Text) (k : Node P R)
        → (node_id n == j) ≡ false
        → Dict.lookup j (ready_map t) ≡ some (user k)
        → Hangs j
    old-Hangs j k other found = elim (hp j k found) [
      | inr l ↦ inr (IsListed_insert (ready_map t) (node_id n) j n fresh l)
      | inl under ↦ elim (adopted_or_listed t n j s under) [
        | inl still ↦ inl (placed.0.others j other ∙ still)
        | inr l ↦ inr l
      ]
    ]

  -- On a tree with a sound root, adding a node with a new id without an error leaves no
  -- registered node without a parent.
  pub add_node-HasParents :
      (fuel : ℕ) (t : DecisionTree P R) (n : Node P R) (t' : DecisionTree P R)
      → IsSound (ready_root t)
      → HasParents t
      → Dict.lookup (node_id n) (ready_map t) ≡ none
      → add_node fuel t (some n) ≡ some (t', none)
      → HasParents t'
  add_node-HasParents fuel t n t' s hp fresh e j k found =
      let placed = add_node-IsPlaced fuel t n t' s e in
      let inserted = Dict.lookup-insert (node_id n) j (user n) (ready_map t) in
      rw placed.1 (elim (Bool-cases (node_id n == j)) [
        | inl new ↦ rw (← (==_iff (node_id n) j).0 new) (new-Hangs t n t' s hp fresh placed)
        | inr old ↦ old-Hangs t n t' s hp fresh placed j k old (ground (arith, inserted))
      ])

  -- On a tree with a sound root, a call of AddNode that returns nil registers the node under
  -- its id and changes no other key.
  pub add_node-lookup :
      (fuel : ℕ) (t : DecisionTree P R) (n : Node P R) (t' : DecisionTree P R) (j : Text)
      → IsSound (ready_root t)
      → add_node fuel t (some n) ≡ some (t', none)
      → Dict.lookup j (ready_map t')
        ≡ (if node_id n == j then some (user n) else Dict.lookup j (ready_map t))
  add_node-lookup fuel t n t' j s e =
      rw (add_node-IsPlaced fuel t n t' s e).1 (Dict.lookup-insert (node_id n) j (user n) _)

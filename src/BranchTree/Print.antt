-- ===== src/BranchTree/Print.antt =====
-- tree.go, PrintTree and bfsTreePrint (without the lines that only print), and what they return.
use seckill_pkg.Base.{
  ℕ, zero, suc, ◌<◌, ◌≡◌, ◌≢◌, refl, sym, ap, ◌∙◌, inl, inr, true, Option, none, some, List, [],
  ◌∷◌, ◌++◌, arith, Text, ==_iff, mem, mem-append, length, append_assoc, append-nil, All,
  All-append, Option-cases, of_some,
}
use seckill_pkg.Base.Dict
use seckill_pkg.Base.Dict.{Dict}
use seckill_pkg.BranchTree.{Root, Entry, root_ref, user, node_id, root_id, new_root, DecisionTree}
use seckill_pkg.BranchTree.Add.{decision_children}

-- How a print ends.
pub data Printed : Type 0 where
  printed : List (List Text) → Printed
  panicked : Printed
  out_of_fuel : Printed

module _ {P R : Type 0} where
  abbrev pub entry_id : Entry P R → Text
  entry_id root_ref = root_id
  entry_id (user n) = node_id n

  -- What a round pushes: the children of a decision node.
  abbrev pub pushed : Root P R → Entry P R → List Text
  pushed r e = elim (decision_children r e) [ none ↦ [] | some children ↦ children ]

  -- The rounds of one level that are left, the queue and the ids collected; `none` is the panic on
  -- the nil front of an empty queue. `continue` on an unknown id leaves it in the queue.
  unfoldable pub print_level :
      Root P R → Dict (Entry P R) → ℕ → List Text → List Text → Option (List Text × List Text)
  print_level r m zero q ids = some (q, ids)
  print_level r m (suc k) [] ids = none
  print_level r m (suc k) (pid ∷ q) ids = elim (Dict.lookup pid m) [
    | none ↦ print_level r m k (pid ∷ q) ids
    | some e ↦ print_level r m k (q ++ pushed r e) (ids ++ entry_id e ∷ [])
  ]

  unfoldable pub bfs_tree_print :
      Root P R → Dict (Entry P R) → ℕ → List Text → List (List Text) → Printed
  unfolding print_level
  bfs_tree_print r m zero q result = out_of_fuel
  bfs_tree_print r m (suc fuel) [] result = printed result
  bfs_tree_print r m (suc fuel) (x ∷ q) result =
      elim (print_level r m (length (x ∷ q)) (x ∷ q) []) [
        | none ↦ panicked
        | some level ↦ bfs_tree_print r m fuel level.0 (result ++ level.1 ∷ [])
      ]

  -- ID() of a nil root is still the root's; a nil map holds no key, so no child list is read.
  unfoldable pub print_tree : ℕ → DecisionTree P R → Printed
  unfolding bfs_tree_print
  print_tree fuel t =
      bfs_tree_print (elim t.root [ none ↦ new_root | some r ↦ r ])
        (elim t.node_map [ none ↦ [] | some m ↦ m ]) fuel (root_id ∷ []) []

  module _ (r : Root P R) (m : Dict (Entry P R)) where
    -- The children that a list of ids pushes, and the ids that are printed for it.
    abbrev pub below : List Text → List Text
    below [] = []
    below (v ∷ q) = elim (Dict.lookup v m) [ none ↦ [] | some e ↦ pushed r e ] ++ below q

    abbrev pub names : List Text → List Text
    names [] = []
    names (v ∷ q) = elim (Dict.lookup v m) [ none ↦ [] | some e ↦ entry_id e ∷ [] ] ++ names q

    -- The levels of the tree from the ids `q` down.
    pub levels : ℕ → List Text → List (List Text)
    levels zero q = []
    levels (suc fuel) [] = []
    levels (suc fuel) (x ∷ q) = names (x ∷ q) ∷ levels fuel (below (x ∷ q))

    abbrev pub IsKnown : Text → Type 0
    IsKnown v = (e : Entry P R) × (Dict.lookup v m ≡ some e)

    print_level_known :
        (k : ℕ) (v : Text) (q ids : List Text) (e : Entry P R)
        → Dict.lookup v m ≡ some e
        → print_level r m (suc k) (v ∷ q) ids
          ≡ print_level r m k (q ++ pushed r e) (ids ++ entry_id e ∷ [])
    unfolding print_level
    print_level_known k v q ids e found = rw (found, print_level)

    print_level-eq-below :
        (q rest ids : List Text)
        → All IsKnown q
        → print_level r m (length q) (q ++ rest) ids ≡ some (rest ++ below q, ids ++ names q)
    unfolding print_level
    print_level-eq-below [] rest ids h = rw (append-nil rest, append-nil ids)
    print_level-eq-below (v ∷ q) rest ids ((e, found), h) =
        print_level_known (length q) v (q ++ rest) ids e found
        ∙ ap (λ s. print_level r m (length q) s (ids ++ entry_id e ∷ []))
            (append_assoc q rest (pushed r e))
        ∙ print_level-eq-below q (rest ++ pushed r e) (ids ++ entry_id e ∷ []) h
        ∙ rw
            (
              append_assoc rest (pushed r e) (below q),
              append_assoc ids (entry_id e ∷ []) (names q),
              found,
            )
            refl

    -- What holds of all the ids pushed below a list.
    below-All :
        (P' Q : Text → Type 0)
        → ((v : Text) (e : Entry P R) → P' v → Dict.lookup v m ≡ some e → All Q (pushed r e))
        → (q : List Text) → All P' q
        → All IsKnown q
        → All Q (below q)
    below-All P' Q push [] h k = tt
    below-All P' Q push (v ∷ q) (p, h) ((e, found), k) =
        rw found
          (All-append Q (pushed r e) (below q) (push v e p found) (below-All P' Q push q h k))

    module _ (rank : Text → ℕ)
        (closed : (v : Text) (e : Entry P R) → Dict.lookup v m ≡ some e → All IsKnown (pushed r e))
        (ranked : (v : Text) (e : Entry P R)
          → Dict.lookup v m ≡ some e
          → All (λ c. rank c < rank v) (pushed r e)) where
      below-lower :
          (fuel : ℕ) (q : List Text)
          → All (λ v. rank v < suc fuel) q
          → All IsKnown q
          → All (λ v. rank v < fuel) (below q)
      below-lower fuel =
          below-All (λ v. rank v < suc fuel) (λ v. rank v < fuel)
            (λ v e lt found. All_weaken (pushed r e) (λ c less. omega arith) (ranked v e found))
        where
          All_weaken :
              {n : ℕ} (l : List Text)
              → ((c : Text) → rank c < n → rank c < fuel)
              → All (λ c. rank c < n) l
              → All (λ c. rank c < fuel) l
          All_weaken [] f a = tt
          All_weaken (x ∷ l) f (a, k) = (f x a, All_weaken l f k)

      bfs_tree_print-eq-levels :
          (fuel : ℕ) (q : List Text) (result : List (List Text))
          → All IsKnown q
          → All (λ v. rank v < fuel) q
          → bfs_tree_print r m (suc fuel) q result ≡ printed (result ++ levels (suc fuel) q)
      unfolding bfs_tree_print levels
      bfs_tree_print-eq-levels fuel [] result h k = rw (append-nil result)
      bfs_tree_print-eq-levels zero (x ∷ q) result h k = absurd (omega arith)
      bfs_tree_print-eq-levels (suc fuel) (x ∷ q) result h k =
          ap next_level level_of
          ∙ bfs_tree_print-eq-levels fuel (below (x ∷ q)) (result ++ names (x ∷ q) ∷ [])
              (below-All IsKnown IsKnown (λ v e kn found. closed v e found) (x ∷ q) h h)
              (below-lower fuel (x ∷ q) k h)
          ∙ ap printed
              (append_assoc result (names (x ∷ q) ∷ []) (levels (suc fuel) (below (x ∷ q))))
        where
          next_level : Option (List Text × List Text) → Printed
          next_level o = elim o [
            | none ↦ panicked
            | some level ↦ bfs_tree_print r m (suc fuel) level.0 (result ++ level.1 ∷ [])
          ]

          level_of :
              print_level r m (length (x ∷ q)) (x ∷ q) [] ≡ some (below (x ∷ q), names (x ∷ q))
          level_of =
              ap (λ s. print_level r m (length (x ∷ q)) s []) (sym (append-nil (x ∷ q)))
              ∙ print_level-eq-below (x ∷ q) [] [] h

      -- On a tree whose root is registered and whose children are all registered and of lower
      -- rank than their parents, PrintTree ends, within a number of levels that is above the
      -- rank of the root, with the levels of the tree.
      pub print_tree-eq-levels :
          (fuel : ℕ) (t : DecisionTree P R)
          → t.root ≡ some r
          → t.node_map ≡ some m
          → Dict.lookup root_id m ≡ some root_ref
          → rank root_id < fuel
          → print_tree (suc fuel) t ≡ printed (levels (suc fuel) (root_id ∷ []))
      unfolding print_tree
      print_tree-eq-levels fuel t hr hm registered h =
          rw (hr, hm)
            (bfs_tree_print-eq-levels fuel (root_id ∷ []) [] ((root_ref, registered), tt) (h, tt))

    -- An id that is not registered is never taken off the queue.
    print_level_stuck :
        (v : Text) (k : ℕ) (q ids : List Text)
        → Dict.lookup v m ≡ none
        → mem v q ≡ true
        → (level : List Text × List Text) → print_level r m k q ids ≡ some level
        → mem v level.0 ≡ true
    unfolding print_level
    print_level_stuck v zero q ids unknown h level e =
        of_some (λ (l : List Text × List Text). mem v l.0 ≡ true) e h
    print_level_stuck v (suc k) [] ids unknown h level e = cc
    print_level_stuck v (suc k) (pid ∷ q) ids unknown h level e =
        elim (Option-cases (Dict.lookup pid m)) [
          | inl missing ↦
              print_level_stuck v k (pid ∷ q) ids unknown h level (rw (missing, print_level) at e)
          | inr (x, found) ↦
              print_level_stuck v k (q ++ pushed r x) (ids ++ entry_id x ∷ []) unknown
                (ground (arith, ==_iff pid v, mem-append v q (pushed r x))) level
                (rw (found, print_level) at e)
        ]

    -- With such an id in the queue no front is nil.
    print_level_lives :
        (v : Text) (k : ℕ) (q ids : List Text)
        → Dict.lookup v m ≡ none
        → mem v q ≡ true
        → print_level r m k q ids ≢ none
    unfolding print_level
    print_level_lives v zero q ids unknown h e = cc
    print_level_lives v (suc k) [] ids unknown h e = cc
    print_level_lives v (suc k) (pid ∷ q) ids unknown h e =
        elim (Option-cases (Dict.lookup pid m)) [
          | inl missing ↦
              print_level_lives v k (pid ∷ q) ids unknown h (rw (missing, print_level) at e)
          | inr (x, found) ↦
              print_level_lives v k (q ++ pushed r x) (ids ++ entry_id x ∷ []) unknown
                (ground (arith, ==_iff pid v, mem-append v q (pushed r x)))
                (rw (found, print_level) at e)
        ]

    -- The loop of PrintTree runs out of any fuel once an id without a node stands in its queue.
    pub bfs_tree_print_diverges :
        (v : Text) (fuel : ℕ) (q : List Text) (result : List (List Text))
        → Dict.lookup v m ≡ none
        → mem v q ≡ true
        → bfs_tree_print r m fuel q result ≡ out_of_fuel
    unfolding bfs_tree_print
    bfs_tree_print_diverges v zero q result unknown h = refl
    bfs_tree_print_diverges v (suc fuel) [] result unknown h = cc
    bfs_tree_print_diverges v (suc fuel) (x ∷ q) result unknown h =
        elim (Option-cases (print_level r m (length (x ∷ q)) (x ∷ q) [])) [
          | inl gone ↦ absurd (print_level_lives v (length (x ∷ q)) (x ∷ q) [] unknown h gone)
          | inr (level, there) ↦
              ap next_level there
              ∙ bfs_tree_print_diverges v fuel level.0 (result ++ level.1 ∷ []) unknown
                  (print_level_stuck v (length (x ∷ q)) (x ∷ q) [] unknown h level there)
        ]
      where
        next_level : Option (List Text × List Text) → Printed
        next_level o = elim o [
          | none ↦ panicked
          | some level ↦ bfs_tree_print r m fuel level.0 (result ++ level.1 ∷ [])
        ]

-- ===== src/BranchTree/Search.antt =====
-- What dfsTree finds, for every fuel at which it ends. A failed search leaves the root as it was and
-- the id is in none of the lists it read; a successful one has met the id in the root's list or in
-- that of a registered decision node, and takes at most that id off the root.
use seckill_pkg.Base.{
  ℕ, zero, suc, ◌≡◌, refl, ◌⊎◌, inl, inr, Bool, true, false, Option, none, some, List, [], ◌∷◌,
  arith, Text, ◌==◌, ==_iff, is_empty, ◌>>=◌, mem, Bool-cases, Option-cases,
}
use seckill_pkg.Base.Dict
use seckill_pkg.Base.Dict.{Dict}
use seckill_pkg.BranchTree.{
  decision, exec, plain, Root, Entry, root_ref, user, delete_children, children_list,
}
use seckill_pkg.BranchTree.Add.{scan, dfs_tree, drop_pending, decision_children}

module _ {P R : Type 0} (m : Dict (Entry P R)) (p : Text) where
  -- Some registered decision node has the id among its children.
  pub record IsListed : Type 0 where
    pub key : Text
    pub id : Text
    pub rule : P → Bool
    pub children : List Text
    pub registered : Dict.lookup key m ≡ some (user (decision id rule children))
    pub listed : mem p children ≡ true

module _ {P R : Type 0} (m : Dict (Entry P R)) (p : Text) (r : Root P R) where
  -- Where the id stands in the list that is read at the node `n`.
  abbrev pub Origin : Entry P R → Type 0
  Origin root_ref = mem p (children_list r) ≡ true
  Origin (user n) = IsListed m p

  abbrev pub Found : Root P R → Type 0
  Found r' =
      ((r' ≡ r) × (mem p (children_list r) ≡ true))
      ⊎ (IsListed m p × ((r' ≡ r) ⊎ (r' ≡ delete_children r p)))

  abbrev pub Post : List Text → Option (Root P R × Bool) → Type 0
  Post cl none = Unit
  Post cl (some (r', true)) = Found r'
  Post cl (some (r', false)) = (r' ≡ r) × (mem p cl ≡ false)

  drop_pending-Found : (n : Entry P R) → Origin n → Found (drop_pending r n p)
  unfolding drop_pending
  drop_pending-Found root_ref o = ground arith
  drop_pending-Found (user n) o = ground arith

  -- The list that is read at a node found in the map.
  Origin-of_lookup :
      (v : Text) (e : Entry P R) (children : List Text)
      → Dict.lookup v m ≡ some e
      → decision_children r e ≡ some children
      → mem p children ≡ true
      → Origin e
  Origin-of_lookup v root_ref children found inner h = ground arith
  Origin-of_lookup v (user (decision id rule l)) children found inner h = record {
    key = v;
    id = id;
    rule = rule;
    children = l;
    registered = found;
    listed = ground arith;
  }
  Origin-of_lookup v (user (exec id d)) children found inner h = cc
  Origin-of_lookup v (user (plain id)) children found inner h = cc

  -- A child that is not the id adds nothing to what the rest of the loop finds.
  Post-skip :
      (v : Text) (cl : List Text) (o : Option (Root P R × Bool))
      → (v == p) ≡ false
      → Post cl o
      → Post (v ∷ cl) o
  Post-skip v cl none other q = tt
  Post-skip v cl (some (r', true)) other q = q
  Post-skip v cl (some (r', false)) other q = (q.0, rw other q.1)

  -- The rest of the loop, after the search below one child.
  Post-descend :
      (v : Text) (cl children : List Text) (rest : Root P R → Option (Root P R × Bool))
      (found : Option (Root P R × Bool))
      → (v == p) ≡ false
      → Post children found
      → Post cl (rest r)
      → Post (v ∷ cl) (found >>= λ f. elim f.1 [ true ↦ some (f.0, true) | false ↦ rest f.0 ])
  Post-descend v cl children rest none other h k = tt
  Post-descend v cl children rest (some (r', true)) other h k = h
  Post-descend v cl children rest (some (r', false)) other h k =
      rw h.0 (Post-skip v cl (rest r) other k)

  module _ (self : Root P R → Entry P R → List Text → Option (Root P R × Bool)) (n : Entry P R)
      (below : (e : Entry P R) (cl : List Text)
        → (mem p cl ≡ true → Origin e)
        → Post cl (self r e cl)) where
    scan-Post : (cl : List Text) → (mem p cl ≡ true → Origin n) → Post cl (scan self m p n r cl)
    unfolding scan
    scan-Post [] o = (refl, refl)
    scan-Post (v ∷ cl) o =
        let later : mem p cl ≡ true → Origin n = λ h. o (ground arith) in
        elim (Bool-cases (v == p)) [
          | inl same ↦ rw (same, (==_iff v p).0 same) (drop_pending-Found n (o (ground arith)))
          | inr other ↦
              rw (other, scan)
                (elim (Option-cases (Dict.lookup v m)) [
                  | inl missing ↦ rw missing (Post-skip v cl _ other (scan-Post cl later))
                  | inr (e, found) ↦ rw found (elim (Option-cases (decision_children r e)) [
                    | inl leaf ↦ rw leaf (Post-skip v cl _ other (scan-Post cl later))
                    | inr (children, inner) ↦ rw inner (
                        Post-descend v cl children (λ r'. scan self m p n r' cl) (self r e children)
                          other (below e children (Origin-of_lookup v e children found inner))
                          (scan-Post cl later))
                  ])
                ])
        ]

module _ {P R : Type 0} (m : Dict (Entry P R)) (p : Text) where
  dfs_tree-Post :
      (fuel : ℕ) (r : Root P R) (n : Entry P R) (cl : List Text)
      → (mem p cl ≡ true → Origin m p r n)
      → (is_empty (children_list r) ≡ true → mem p cl ≡ false)
      → Post m p r cl (dfs_tree fuel m p r n cl)
  unfolding dfs_tree
  dfs_tree-Post zero r n cl o z = tt
  dfs_tree-Post (suc fuel) r n cl o z = elim (Bool-cases (is_empty (children_list r))) [
    | inl empty ↦ rw empty (refl, z empty)
    | inr full ↦ rw full (
        scan-Post m p r (dfs_tree fuel m p) n (λ e k o'. dfs_tree-Post fuel r e k o' (λ empty. cc))
          cl o)
  ]

  -- The search below a node that was found in the map, from a root that is not empty.
  pub dfs_tree-Post_below :
      (fuel : ℕ) (r : Root P R) (v : Text) (e : Entry P R) (children : List Text)
      → Dict.lookup v m ≡ some e
      → decision_children r e ≡ some children
      → is_empty (children_list r) ≡ false
      → Post m p r children (dfs_tree fuel m p r e children)
  dfs_tree-Post_below fuel r v e children found inner full =
      dfs_tree-Post fuel r e children (Origin-of_lookup m p r v e children found inner)
        (λ empty. cc)

  -- The search from the root.
  pub dfs_tree-Post_root :
      (fuel : ℕ) (r : Root P R)
      → Post m p r (children_list r) (dfs_tree fuel m p r root_ref (children_list r))
  dfs_tree-Post_root fuel r =
      dfs_tree-Post fuel r root_ref (children_list r) (λ h. h) (empty_mem (children_list r))
    where
      empty_mem : (l : List Text) → is_empty l ≡ true → mem p l ≡ false
      empty_mem [] h = refl
      empty_mem (x ∷ l) h = cc

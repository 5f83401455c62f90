-- ===== src/BranchTree/Invariant.antt =====
-- The root's bookkeeping: childMap holds the ids of childList, each of which stands there once.
-- AddNode keeps it so, on every path.
use seckill_pkg.Base.{
  ◌≡◌, refl, ap, false, List, [], ◌∷◌, ◌++◌, ◌||◌, map, arith, Text, ◌==◌, ==_iff, if◌then◌else◌,
  mem, mem-append, Distinct, Distinct-concat, Bool-cases, inl, inr,
}
use seckill_pkg.Base.Dict
use seckill_pkg.Base.Dict.{Dict}
use seckill_pkg.BranchTree.{
  Node, node_id, Root, new_root, add_children, has_children, remove_first, delete_children,
  children_list,
}
use seckill_pkg.BranchTree.Add.{adopt}

module _ {P R : Type 0} where
  pub record IsSound (r : Root P R) : Type 0 where
    pub mapped : (id : Text) → has_children r id ≡ mem id (children_list r)
    pub distinct : Distinct (children_list r)

  map-concat :
      (l : List (Node P R)) (n : Node P R)
      → map node_id (l ++ n ∷ []) ≡ map node_id l ++ node_id n ∷ []
  map-concat [] n = refl
  map-concat (m ∷ l) n = ap (λ t. node_id m ∷ t) (map-concat l n)

  mem-remove_first :
      (id j : Text) (l : List (Node P R))
      → Distinct (map node_id l)
      → mem j (map node_id (remove_first id l)) ≡ (if id == j then false else mem j (map node_id l))
  unfolding remove_first
  mem-remove_first id j [] d = ground arith
  mem-remove_first id j (v ∷ l) (n, d) =
      ground
        (arith, ==_iff (node_id v) id, ==_iff (node_id v) j, ==_iff id j, mem-remove_first id j l d)

  Distinct-remove_first :
      (id : Text) (l : List (Node P R))
      → Distinct (map node_id l)
      → Distinct (map node_id (remove_first id l))
  unfolding remove_first
  Distinct-remove_first id [] d = tt
  Distinct-remove_first id (v ∷ l) (n, d) =
      ground (arith, Distinct-remove_first id l d, mem-remove_first id (node_id v) l d)

  pub new_root-IsSound : IsSound (new_root {P = P} {R = R})
  unfolding has_children Dict.lookup
  new_root-IsSound = record { mapped = λ id. refl; distinct = tt }

  pub add_children-IsSound :
      (r : Root P R) (n : Node P R)
      → mem (node_id n) (children_list r) ≡ false
      → IsSound r
      → IsSound (add_children r n)
  unfolding add_children has_children
  add_children-IsSound r n h s = record {
    mapped = λ id. ground (
      arith,
      Dict.lookup-insert (node_id n) id 1 r.child_map,
      map-concat r.child_list n,
      mem-append id (children_list r) (node_id n ∷ []),
      s.mapped id,
    );
    distinct =
        rw (map-concat r.child_list n) (Distinct-concat (children_list r) (node_id n) s.distinct h);
  }

  pub delete_children-IsSound :
      (r : Root P R) (id : Text) → IsSound r → IsSound (delete_children r id)
  unfolding delete_children has_children
  delete_children-IsSound r id s = record {
    mapped = λ j. ground (
      arith,
      Dict.lookup-erase id j r.child_map,
      mem-remove_first id j r.child_list s.distinct,
      s.mapped j,
    );
    distinct = ground (arith, s.distinct, Distinct-remove_first id r.child_list s.distinct);
  }

  pub adopt-IsSound : (r : Root P R) (l : List Text) → IsSound r → IsSound (adopt r l)
  unfolding adopt
  adopt-IsSound r [] s = s
  adopt-IsSound r (v ∷ l) s = elim (Bool-cases (has_children r v)) [
    | inl has ↦ rw has (adopt-IsSound (delete_children r v) l (delete_children-IsSound r v s))
    | inr has ↦ rw has (adopt-IsSound r l s)
  ]

  pub mem-delete_children :
      (r : Root P R) (id j : Text)
      → IsSound r
      → mem j (children_list (delete_children r id))
        ≡ (if id == j then false else mem j (children_list r))
  unfolding delete_children
  mem-delete_children r id j s =
      ground (arith, ==_iff id j, mem-remove_first id j r.child_list s.distinct, s.mapped id)

  pub mem-add_children :
      (r : Root P R) (n : Node P R) (j : Text)
      → mem j (children_list (add_children r n)) ≡ (mem j (children_list r) || (node_id n == j))
  unfolding add_children
  mem-add_children r n j =
      ground (arith, map-concat r.child_list n, mem-append j (children_list r) (node_id n ∷ []))

  -- Adoption takes exactly the listed children off the root.
  pub mem-adopt :
      (r : Root P R) (l : List Text) (j : Text)
      → IsSound r
      → mem j (children_list (adopt r l)) ≡ (if mem j l then false else mem j (children_list r))
  unfolding adopt
  mem-adopt r [] j s = refl
  mem-adopt r (v ∷ l) j s = elim (Bool-cases (has_children r v)) [
    | inl has ↦
        rw (has, adopt)
          (ground (
            arith,
            mem-adopt (delete_children r v) l j (delete_children-IsSound r v s),
            mem-delete_children r v j s,
          ))
    | inr has ↦ rw (has, adopt) (ground (arith, mem-adopt r l j s, s.mapped v, ==_iff v j))
  ]

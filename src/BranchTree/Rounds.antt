-- ===== src/BranchTree/Rounds.antt =====
-- The leaf that levelOrderTree executes: how it was reached.
use mathlib.Core.Path.{subst}
use seckill_pkg.Base.{
  ℕ, zero, suc, ◌≡◌, refl, Bool, true, false, none, some, List, [], ◌∷◌, ◌++◌, arith, Text, ==_iff,
  if◌then◌else◌, is_empty, mem, length, inl, inr, Bool-cases, All, All-append,
}
use seckill_pkg.Base.Dict
use seckill_pkg.Base.Dict.{Dict}
use seckill_pkg.BranchTree.{Root, Entry, root_id, DecisionTree}
use seckill_pkg.BranchTree.Walk.{
  Outcome, not_have_node, executed, finished, panicked, out_of_fuel, Level, next, stop, pop_front,
  Kind, is_decision, is_exec, is_other, kind, enter, round, level_from, level_order, decide,
}

-- The nodes that DecisionRule lets a walk reach.
module _ {P R : Type 0} (r : Root P R) (m : Dict (Entry P R)) (param : P) where
  pub data Reached : Text → Type 0 where
    at_root : Reached root_id
    below :
        {v c : Text} {rule : P → Bool} {children : List Text}
        → Reached v
        → kind r (Dict.lookup v m) ≡ is_decision rule children
        → rule param ≡ true
        → mem c children ≡ true
        → Reached c

  -- The leaf that answered.
  pub record Executed (answer : R) : Type 0 where
    pub leaf : Text
    pub do_it : P → R
    pub reached : Reached leaf
    pub executes : kind r (Dict.lookup leaf m) ≡ is_exec do_it
    pub answers : answer ≡ do_it param

  abbrev pub Sound : Outcome R → Type 0
  Sound (executed e) = Executed e
  Sound not_have_node = Unit
  Sound finished = Unit
  Sound panicked = Unit
  Sound out_of_fuel = Unit

  abbrev SoundLevel : Level R → Type 0
  SoundLevel (next q) = All Reached q
  SoundLevel (stop o) = Sound o

  pop_front-Reached :
      (k : ℕ) (q children : List Text)
      → All Reached q
      → All Reached children
      → SoundLevel
          (elim (pop_front k q) [ none ↦ stop panicked | some rest ↦ next (rest ++ children) ])
  unfolding pop_front
  pop_front-Reached zero q children h k = All-append Reached q children h k
  pop_front-Reached (suc n) [] children h k = tt
  pop_front-Reached (suc n) (x ∷ q) children h k = pop_front-Reached n q children h.1 k

  enter-Reached :
      (k : ℕ) (pid : Text) (q children : List Text)
      → All Reached (pid ∷ q)
      → All Reached children
      → SoundLevel (enter k pid q children)
  unfolding enter
  enter-Reached zero pid q children h k = All-append Reached q children h.1 k
  enter-Reached (suc n) pid q children h k = pop_front-Reached (suc n) (pid ∷ q) children h k

  All-of_mem : (l : List Text) → ((c : Text) → mem c l ≡ true → Reached c) → All Reached l
  All-of_mem [] f = tt
  All-of_mem (x ∷ l) f =
      (f x (ground (arith, ==_iff x x)), All-of_mem l (λ c h. f c (ground arith)))

  round-Sound :
      (k : ℕ) (pid : Text) (q : List Text)
      → All Reached (pid ∷ q)
      → SoundLevel (round r m param k pid q)
  unfolding round
  round-Sound k pid q h = go (kind r (Dict.lookup pid m)) refl
    where
      entered :
          (b : Bool) (rule : P → Bool) (children : List Text)
          → kind r (Dict.lookup pid m) ≡ is_decision rule children
          → rule param ≡ b
          → SoundLevel (if b then enter k pid q children else next q)
      entered true rule children e holds =
          enter-Reached k pid q children h (All-of_mem children (λ c l. below h.0 e holds l))
      entered false rule children e holds = h.1

      go :
          (x : Kind P R)
          → kind r (Dict.lookup pid m) ≡ x
          → SoundLevel (elim x [
            | is_decision rule children ↦ if rule param then enter k pid q children else next q
            | is_exec do_it ↦ stop (executed (do_it param))
            | is_other ↦ next q
          ])
      go (is_decision rule children) e = entered (rule param) rule children e refl
      go (is_exec do_it) e = (record {
        leaf = pid;
        do_it = do_it;
        reached = h.0;
        executes = e;
        answers = refl;
      })
      go is_other e = h.1

  level_from_next :
      (f : List Text → Level R)
      → ((q : List Text) → All Reached q → SoundLevel (f q))
      → (l : Level R) → SoundLevel l
      → SoundLevel (elim l [ next rest ↦ f rest | stop o ↦ stop o ])
  level_from_next f ih (next rest) a = ih rest a
  level_from_next f ih (stop o) a = a

  level_from-Sound : (k : ℕ) (q : List Text) → All Reached q → SoundLevel (level_from r m param k q)
  unfolding level_from
  level_from-Sound zero q h = h
  level_from-Sound (suc k) [] h = tt
  level_from-Sound (suc k) (pid ∷ q) h =
      level_from_next (level_from r m param k) (level_from-Sound k) (round r m param k pid q)
        (round-Sound k pid q h)

  level_order_next :
      (f : List Text → Outcome R)
      → ((q : List Text) → All Reached q → Sound (f q))
      → (l : Level R) → SoundLevel l
      → Sound (elim l [ next rest ↦ f rest | stop o ↦ o ])
  level_order_next f ih (next rest) a = ih rest a
  level_order_next f ih (stop o) a = a

  level_order-Sound :
      (fuel : ℕ) (q : List Text) → All Reached q → Sound (level_order r m param fuel q)
  unfolding level_order
  level_order-Sound zero q h = tt
  level_order-Sound (suc fuel) [] h = tt
  level_order-Sound (suc fuel) (x ∷ q) h =
      level_order_next (level_order r m param fuel) (level_order-Sound fuel) _
        (level_from-Sound (length (x ∷ q)) (x ∷ q) h)

  decide-Sound :
      (fuel : ℕ) (t : DecisionTree P R)
      → t.root ≡ some r
      → t.node_map ≡ some m
      → Sound (decide fuel t param)
  unfolding decide
  decide-Sound fuel t hr hm =
      rw (hr, hm)
        (elim (Bool-cases (is_empty r.child_list)) [
          | inl empty ↦ rw empty tt
          | inr full ↦ rw full (level_order-Sound fuel (root_id ∷ []) (at_root, tt))
        ])

  -- When Decision returns the result of a leaf, this leaf is reached from the root by a path of
  -- registered decision nodes whose rules all hold of the parameter, and the result is what it
  -- gives for this parameter.
  pub decide_executes :
      (fuel : ℕ) (t : DecisionTree P R) (e : R)
      → t.root ≡ some r
      → t.node_map ≡ some m
      → decide fuel t param ≡ executed e
      → Executed e
  decide_executes fuel t e hr hm h = subst Sound h (decide-Sound fuel t hr hm)

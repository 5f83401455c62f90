-- ===== src/BranchTree/Siblings.antt =====
-- What a decision node whose rule holds does to its siblings. node.go says that they are passed
-- over; levelOrderTree pops the node itself as the first of them, so the last sibling stays.
use seckill_pkg.Base.{
  ℕ, suc, ◌≡◌, refl, ap, ◌∙◌, false, some, List, [], ◌∷◌, Text, if◌then◌else◌, is_empty, length,
  Bool-cases, inl, inr,
}
use seckill_pkg.Base.Dict
use seckill_pkg.Base.Dict.{Dict}
use seckill_pkg.BranchTree.{Root, Entry, root_ref, root_id, DecisionTree, children_list}
use seckill_pkg.BranchTree.Walk.{
  Outcome, executed, panicked, Level, next, stop, Kind, is_decision, is_exec, is_other, kind, enter,
  round, level_from, level_order, decide,
}

module _ {P R : Type 0} (r : Root P R) (m : Dict (Entry P R)) (param : P) where
  -- How a node answers the parameter: it opens its children, it is a leaf, or nothing happens.
  pub data Answer : Type 0 where
    opens : List Text → Answer
    leaf : R → Answer
    silent : Answer

  abbrev pub answer_of : Kind P R → Answer
  answer_of (is_decision rule children) = if rule param then opens children else silent
  answer_of (is_exec do_it) = leaf (do_it param)
  answer_of is_other = silent

  abbrev pub answer : Text → Answer
  answer v = answer_of (kind r (Dict.lookup v m))

  abbrev pub act : ℕ → Text → List Text → Answer → Level R
  act k pid q (opens children) = enter k pid q children
  act k pid q (leaf e) = stop (executed e)
  act k pid q silent = next q

  -- A round depends on the node by its answer only.
  pub round-eq-act :
      (k : ℕ) (pid : Text) (q : List Text) → round r m param k pid q ≡ act k pid q (answer pid)
  unfolding round
  round-eq-act k pid q = go (kind r (Dict.lookup pid m))
    where
      go :
          (x : Kind P R)
          → (elim x [
            | is_decision rule children ↦ if rule param then enter k pid q children else next q
            | is_exec do_it ↦ stop (executed (do_it param))
            | is_other ↦ next q
          ])
            ≡ act k pid q (answer_of x)
      go (is_decision rule children) = elim (Bool-cases (rule param)) [
        | inl holds ↦ rw holds refl
        | inr fails ↦ rw fails refl
      ]
      go (is_exec do_it) = refl
      go is_other = refl

  -- The rest of the rounds after one of them.
  abbrev pub resume : ℕ → Level R → Level R
  resume k l = elim l [ next rest ↦ level_from r m param k rest | stop o ↦ stop o ]

  pub level_from-answer :
      (k : ℕ) (pid : Text) (q : List Text) {x : Answer}
      → answer pid ≡ x
      → level_from r m param (suc k) (pid ∷ q) ≡ resume k (act k pid q x)
  unfolding level_from
  level_from-answer k pid q h = ap (resume k) (round-eq-act k pid q ∙ ap (act k pid q) h)

  abbrev pub proceed : ℕ → Level R → Outcome R
  proceed fuel l = elim l [ next rest ↦ level_order r m param fuel rest | stop o ↦ o ]

  pub level_order_cons :
      (fuel : ℕ) (x : Text) (q : List Text) {l : Level R}
      → level_from r m param (length (x ∷ q)) (x ∷ q) ≡ l
      → level_order r m param (suc fuel) (x ∷ q) ≡ proceed fuel l
  unfolding level_order
  level_order_cons fuel x q h = ap (proceed fuel) h

  -- One node alone on its level opens its children.
  pub level_of_one :
      (v : Text) (children : List Text)
      → answer v ≡ opens children
      → level_from r m param 1 (v ∷ []) ≡ next children
  unfolding level_from enter
  level_of_one v children h = level_from-answer 0 v [] h

  -- Two siblings of which the first opens its children: the second is visited all the same.
  pub level_of_two :
      (a b : Text) (children : List Text) {x : Answer}
      → answer a ≡ opens children
      → answer b ≡ x
      → level_from r m param 2 (a ∷ b ∷ []) ≡ act 0 b children x
  unfolding level_from enter
  level_of_two a b children {x} h k =
      level_from-answer 1 a (b ∷ []) h
      ∙ level_from-answer 0 b children k
      ∙ resume_zero (act 0 b children x)
    where
      resume_zero : (l : Level R) → resume 0 l ≡ l
      resume_zero (next rest) = refl
      resume_zero (stop o) = refl

  module _ (t : DecisionTree P R) (hr : t.root ≡ some r) (hm : t.node_map ≡ some m)
      (registered : Dict.lookup root_id m ≡ some root_ref)
      (full : is_empty r.child_list ≡ false) where
    -- The first round: the root opens its children.
    pub decide_root :
        (fuel : ℕ) → decide (suc fuel) t param ≡ level_order r m param fuel (children_list r)
    unfolding decide
    decide_root fuel =
        rw (hr, hm, full)
          (level_order_cons fuel root_id []
            (level_of_one root_id (children_list r) (ap (λ e. answer_of (kind r e)) registered)))

    -- When the registered root has two children, the first a decision node whose rule holds and
    -- the second a leaf, Decision executes the leaf beside the node that it entered.
    pub decide_visits_last :
        (fuel : ℕ) (a b : Text) (children : List Text) (e : R)
        → children_list r ≡ a ∷ b ∷ []
        → answer a ≡ opens children
        → answer b ≡ leaf e
        → decide (suc (suc fuel)) t param ≡ executed e
    decide_visits_last fuel a b children e two h k =
        decide_root (suc fuel)
        ∙ ap (level_order r m param (suc fuel)) two
        ∙ level_order_cons fuel a (b ∷ []) (level_of_two a b children h k)

    -- When the registered root has five children, of which the first opens one child that opens
    -- in turn and the last is silent, Decision panics.
    pub decide_panics :
        (fuel : ℕ) (a b c d e x : Text) (children : List Text)
        → children_list r ≡ a ∷ b ∷ c ∷ d ∷ e ∷ []
        → answer a ≡ opens (x ∷ [])
        → answer e ≡ silent
        → answer x ≡ opens children
        → decide (suc (suc fuel)) t param ≡ panicked
    unfolding enter
    decide_panics fuel a b c d e x children five ha he hx =
        decide_root (suc fuel)
        ∙ ap (level_order r m param (suc fuel)) five
        ∙ level_order_cons fuel a (b ∷ c ∷ d ∷ e ∷ []) (
            level_from-answer 4 a (b ∷ c ∷ d ∷ e ∷ []) ha
            ∙ level_from-answer 3 e (x ∷ []) he
            ∙ level_from-answer 2 x [] hx)

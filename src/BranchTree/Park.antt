-- ===== src/BranchTree/Park.antt =====
-- pkg/branch_tree/example: the tree of a park's ticket office.
use seckill_pkg.Base.{
  ℕ, Bool, false, not, ◌&&◌, Option, some, List, [], ◌∷◌, ◌++◌, Text, codes, ◌>>=◌, ℤ, pos, lt_int,
  decimal_int,
}
use seckill_pkg.BranchTree.{Node, decision, exec, DecisionTree, empty_tree}
use seckill_pkg.BranchTree.Add.{add_node}

pub record People : Type 0 where
  pub age : ℤ
  pub height : ℤ

-- `param interface{}`: a *People, or some other type.
pub data Param : Type 0 where
  people : People → Param
  other_type : Param

-- What the three leaves do: each prints a line and returns nil.
pub data Visit : Type 0 where
  enter_park : Visit
  buy_ticket : Visit
  discount_ticket : Visit

pub record AgeDecisionNode : Type 0 where
  pub start : ℤ
  pub end : ℤ
  pub childs : List Text

abbrev pub new_age_decision_node : ℤ → ℤ → AgeDecisionNode
new_age_decision_node s e = record { start = s; end = e; childs = [] }

abbrev pub set_childs : AgeDecisionNode → List Text → AgeDecisionNode
set_childs a cl = record a { childs = cl }

-- `fmt.Sprintf("S%d-E%d", a.Start, a.End)`
unfoldable pub age_id : AgeDecisionNode → Text
unfolding decimal_int
age_id a = codes "S" ++ decimal_int a.start ++ codes "-E" ++ decimal_int a.end

-- DecisionRule of AgeDecisionNode: the age is in [start, end).
unfoldable pub age_rule : AgeDecisionNode → Param → Bool
age_rule a (people p) = not (lt_int p.age a.start) && lt_int p.age a.end
age_rule a other_type = false

abbrev pub age_node : AgeDecisionNode → Node Param Visit
age_node a = decision (age_id a) (age_rule a) a.childs

pub record HeightDecisionNode : Type 0 where
  pub id : Text
  pub decision_func : Param → Bool
  pub childs : List Text

abbrev pub height_node : HeightDecisionNode → Node Param Visit
height_node h = decision h.id h.decision_func h.childs

abbrev pub enter_node : Node Param Visit
enter_node = exec (codes "EnterPark") (λ _. enter_park)

abbrev pub buy_ticket_node : Node Param Visit
buy_ticket_node = exec (codes "BuyTicket") (λ _. buy_ticket)

abbrev pub discount_ticket_node : Node Param Visit
discount_ticket_node = exec (codes "DiscountTicket") (λ _. discount_ticket)

abbrev pub height_below_120 : Param → Bool
height_below_120 (people p) = lt_int p.height (pos 120)
height_below_120 other_type = false

abbrev pub height_from_120 : Param → Bool
height_from_120 (people p) = not (lt_int p.height (pos 120))
height_from_120 other_type = false

abbrev pub less_height : HeightDecisionNode
less_height = record {
  id = codes "H<120cm";
  decision_func = height_below_120;
  childs = codes "EnterPark" ∷ [];
}

abbrev pub ge_height : HeightDecisionNode
ge_height = record {
  id = codes "H>=120cm";
  decision_func = height_from_120;
  childs = codes "BuyTicket" ∷ [];
}

-- math.MaxInt
abbrev pub max_int : ℤ
max_int = pos 9223372036854775807

abbrev pub age_less_18 : AgeDecisionNode
age_less_18 =
    set_childs (new_age_decision_node (pos 0) (pos 18)) (less_height.id ∷ ge_height.id ∷ [])

abbrev pub age_in_18_and_60 : AgeDecisionNode
age_in_18_and_60 = set_childs (new_age_decision_node (pos 18) (pos 60)) (codes "BuyTicket" ∷ [])

abbrev pub age_from_60 : AgeDecisionNode
age_from_60 = set_childs (new_age_decision_node (pos 60) max_int) (codes "DiscountTicket" ∷ [])

-- The nodes in the order in which `main` adds them.
abbrev pub park_nodes : List (Node Param Visit)
park_nodes =
    enter_node
    ∷ buy_ticket_node
    ∷ discount_ticket_node
    ∷ height_node less_height
    ∷ height_node ge_height
    ∷ age_node age_less_18
    ∷ age_node age_in_18_and_60
    ∷ age_node age_from_60
    ∷ []

-- The calls of AddNode, their errors passed over as in `main`.
unfoldable pub add_all :
    ℕ → DecisionTree Param Visit → List (Node Param Visit) → Option (DecisionTree Param Visit)
unfolding add_node
add_all fuel t [] = some t
add_all fuel t (n ∷ ns) = add_node fuel t (some n) >>= λ added. add_all fuel added.0 ns

unfoldable pub park_tree : Option (DecisionTree Param Visit)
unfolding add_all
park_tree = add_all 10 empty_tree park_nodes

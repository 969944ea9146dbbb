-- ===== src/Qualification/Planner/Sort.antt =====
-- `stable_topological_sort` of qualification/planner.py. A set is a list without repeats, and a
-- dictionary a function from the nodes. The heap is a list, of which `heappop` takes the least.
use mercury_tools.Prelude.{
  ℕ, zero, suc, ◌+◌, ◌-◌, String, str_eq, str_lt, Bool, true, false, not, ◌&&◌, ◌||◌, Option, none,
  some, List, [], ◌∷◌, ◌++◌, length, ◌==◌, if◌then◌else◌, Result, ok, ◌>>=◌, ◌>>◌, raise_if,
}

-- `(action_id, version_id)`
pub record ActionIdentity : Type 0 where
  pub action_id : String
  pub version_id : String

pub record DependencyIdentity : Type 0 where
  pub prerequisite : ActionIdentity
  pub dependent : ActionIdentity

pub data PlanError : Type 0 where
  fixture_plan_node_duplicate fixture_plan_node_missing fixture_plan_cycle : PlanError

abbrev pub node_eq : ActionIdentity → ActionIdentity → Bool
node_eq a b = str_eq a.action_id b.action_id && str_eq a.version_id b.version_id

-- Python's order on pairs.
abbrev pub node_lt : ActionIdentity → ActionIdentity → Bool
node_lt a b =
    str_lt a.action_id b.action_id
    || str_eq a.action_id b.action_id && str_lt a.version_id b.version_id

-- `node in nodes`
unfoldable pub mem : ActionIdentity → List ActionIdentity → Bool
mem v [] = false
mem v (x ∷ xs) = node_eq v x || mem v xs

-- `len(nodes) == len(set(nodes))`
unfoldable pub all_different : List ActionIdentity → Bool
all_different [] = true
all_different (x ∷ xs) = not (mem x xs) && all_different xs

-- `_node_identity` of a pair of texts.
unfoldable pub node_identity : ActionIdentity → Result PlanError ActionIdentity
node_identity v =
    raise_if (str_eq v.action_id "" || str_eq v.version_id "") fixture_plan_node_missing >> ok v

unfoldable pub node_identities : List ActionIdentity → Result PlanError (List ActionIdentity)
node_identities [] = ok []
node_identities (v ∷ vs) = do w ← node_identity v; ws ← node_identities vs; ok (w ∷ ws)

-- `successors` and `indegree`.
pub record Graph : Type 0 where
  pub successors : ActionIdentity → List ActionIdentity
  pub indegree : ActionIdentity → ℕ

abbrev pub empty_graph : Graph
empty_graph = record {
  successors = λ (v : ActionIdentity). [];
  indegree = λ (v : ActionIdentity). 0;
}

unfoldable pub set_value :
    {A : Type 0} → ActionIdentity → A → (ActionIdentity → A) → ActionIdentity → A
set_value v a f w = if node_eq w v then a else f w

-- One more successor, which was none.
abbrev pub with_edge : Graph → ActionIdentity → ActionIdentity → Graph
with_edge g p d = record {
  successors = set_value p (d ∷ g.successors p) g.successors;
  indegree = set_value d (g.indegree d + 1) g.indegree;
}

-- The body of the loop over the edges.
unfoldable pub add_edge : List ActionIdentity → Graph → DependencyIdentity → Result PlanError Graph
add_edge nodes g e = do
  p ← node_identity e.prerequisite
  d ← node_identity e.dependent
  raise_if (not (mem p nodes) || not (mem d nodes)) fixture_plan_node_missing
  ok (if mem d (g.successors p) then g else with_edge g p d)

unfoldable pub add_edges :
    List ActionIdentity → Graph → List DependencyIdentity → Result PlanError Graph
add_edges nodes g [] = ok g
add_edges nodes g (e ∷ es) = do next ← add_edge nodes g e; add_edges nodes next es

-- `[node for node, count in indegree.items() if count == 0]`
unfoldable pub without_prerequisites :
    (ActionIdentity → ℕ) → List ActionIdentity → List ActionIdentity
without_prerequisites indegree [] = []
without_prerequisites indegree (v ∷ vs) =
    let rest = without_prerequisites indegree vs in if indegree v == 0 then v ∷ rest else rest

unfoldable pub insert_sorted : ActionIdentity → List ActionIdentity → List ActionIdentity
insert_sorted v [] = v ∷ []
insert_sorted v (x ∷ xs) =
    let rest = insert_sorted v xs in if node_lt v x then v ∷ x ∷ xs else x ∷ rest

-- `sorted`
unfoldable pub sorted : List ActionIdentity → List ActionIdentity
sorted [] = []
sorted (x ∷ xs) = insert_sorted x (sorted xs)

-- A list without the first occurrence of a node.
unfoldable pub without : ActionIdentity → List ActionIdentity → List ActionIdentity
without v [] = []
without v (x ∷ xs) = let rest = without v xs in if node_eq x v then xs else x ∷ rest

-- The least of a list that begins with a node.
unfoldable pub least_from : ActionIdentity → List ActionIdentity → ActionIdentity
least_from v [] = v
least_from v (x ∷ xs) = least_from (if node_lt x v then x else v) xs

-- `heappop`
unfoldable pub pop_least : List ActionIdentity → Option (ActionIdentity × List ActionIdentity)
pop_least [] = none
pop_least (x ∷ xs) = let v = least_from x xs in some (v, without v (x ∷ xs))

-- What the loop changes.
pub record Progress : Type 0 where
  pub indegree : ActionIdentity → ℕ
  pub ready : List ActionIdentity
  pub ordered : List ActionIdentity

-- The body of the loop over the dependents: one prerequisite less, and ready if it was the last. (No
-- count that is decreased is 0.)
unfoldable pub relax : ActionIdentity → Progress → Progress
relax d s = record s {
  indegree = set_value d (s.indegree d - 1) s.indegree;
  ready = if s.indegree d == 1 then d ∷ s.ready else s.ready;
}

unfoldable pub relax_all : List ActionIdentity → Progress → Progress
relax_all [] s = s
relax_all (d ∷ ds) s = relax_all ds (relax d s)

-- The body of the loop `while ready` for the node that was taken out.
unfoldable pub take_node :
    (ActionIdentity → List ActionIdentity)
    → ActionIdentity
    → List ActionIdentity
    → Progress
    → Progress
take_node successors v rest s =
    relax_all (sorted (successors v)) (record s { ready = rest; ordered = s.ordered ++ v ∷ [] })

-- `while ready`, on fuel: at most once for each node.
unfoldable pub take_all : ℕ → (ActionIdentity → List ActionIdentity) → Progress → Progress
take_all zero successors s = s
take_all (suc fuel) successors s = elim (pop_least s.ready) [
  | none ↦ s
  | some (v, rest) ↦ take_all fuel successors (take_node successors v rest s)
]

abbrev pub start : List ActionIdentity → Graph → Progress
start nodes g = record {
  indegree = g.indegree;
  ready = without_prerequisites g.indegree nodes;
  ordered = [];
}

-- `stable_topological_sort`
unfoldable pub stable_topological_sort :
    List ActionIdentity → List DependencyIdentity → Result PlanError (List ActionIdentity)
stable_topological_sort given edges = do
  nodes ← node_identities given
  raise_if (not (all_different nodes)) fixture_plan_node_duplicate
  g ← add_edges nodes empty_graph edges
  let s = take_all (length nodes) g.successors (start nodes g)
  raise_if (not (length s.ordered == length nodes)) fixture_plan_cycle
  ok s.ordered

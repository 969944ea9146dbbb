-- ===== src/Qualification/Planner/Order.antt =====
-- What `stable_topological_sort` of qualification/planner.py returns, and when it does.
use mercury_tools.Prelude.{
  ℕ, zero, suc, ◌<◌, Bool, true, false, not, List, [], ◌∷◌, length, ◌==◌, if◌then◌else◌, Bool-cases,
  inl, inr, ◌≡◌, refl, sym, ap, ◌∙◌, arith, subst, All, All-map, Result-cases, ok, ◌>>◌, raise_if,
  nat_refl,
}
use mercury_tools.Qualification.Planner.Sort.{
  ActionIdentity, DependencyIdentity, fixture_plan_cycle, Graph, Progress, empty_graph, node_eq,
  mem, all_different, node_identity, node_identities, add_edge, add_edges, with_edge, take_all,
  start, stable_topological_sort,
}
use mercury_tools.Qualification.Planner.Sets.{
  node_eq-eq, node_eq_refl, apart, no_members, length_zero, mem-nil,
}
use mercury_tools.Qualification.Planner.Graphs.{Successors, count}
use mercury_tools.Qualification.Planner.Edges.{
  HasEdge, node_identities-ok, add_edges-IsGraph, add_edges-HasEdge, add_edges-every,
  empty_graph-IsGraph,
}
use mercury_tools.Qualification.Planner.Loop.{IsForward, start-Inv}
use mercury_tools.Qualification.Planner.Turn.{Ended, take_all-Ended}

-- The index of a node in a list, or the length of the list.
abbrev pub position : ActionIdentity → List ActionIdentity → ℕ
position v [] = 0
position v (x ∷ xs) = if node_eq v x then 0 else suc (position v xs)

forward-position :
    (successors : Successors) (seen xs : List ActionIdentity) (p d : ActionIdentity)
    → IsForward successors seen xs
    → mem d (successors p) ≡ true
    → mem d xs ≡ true
    → mem p seen ≡ false
    → position p xs < position d xs
unfolding mem
forward-position successors seen [] p d f e m new = absurd (ground arith)
forward-position successors seen (x ∷ xs) p d f e m new = elim (Bool-cases (node_eq d x)) [
  | inl here ↦ absurd (
      apart
        (f.0 p
          (subst (λ (z : ActionIdentity). mem z (successors p) ≡ true) (node_eq-eq d x here) e))
        new)
  | inr other ↦ elim (Bool-cases (node_eq p x)) [
    | inl first ↦ rw (other, first) (omega arith)
    | inr later ↦
        let rest =
          forward-position successors (x ∷ seen) xs p d f.1 e (ground arith) (ground arith) in
        rw (other, later) (omega (arith, rest))
  ]
]

-- The nodes in an order in which every prerequisite comes first.
pub record IsOrder (nodes : List ActionIdentity) (edges : List DependencyIdentity)
    (order : List ActionIdentity) : Type 0 where
  pub same_nodes : (v : ActionIdentity) → mem v order ≡ mem v nodes
  pub different : all_different order ≡ true
  pub same_length : length order ≡ length nodes
  pub in_order :
      All
        (λ (e : DependencyIdentity). position e.prerequisite order < position e.dependent order)
        edges

-- What the sort has built before it compares the lengths.
record Built (nodes : List ActionIdentity) (edges : List DependencyIdentity) : Type 0 where
  graph : Graph
  nodes_different : all_different nodes ≡ true
  added : add_edges nodes empty_graph edges ≡ ok graph

abbrev last_state : List ActionIdentity → Graph → Progress
last_state nodes g = take_all (length nodes) g.successors (start nodes g)

last_state-Ended :
    (nodes : List ActionIdentity) (edges : List DependencyIdentity) (b : Built nodes edges)
    → Ended nodes b.graph (last_state nodes b.graph)
last_state-Ended nodes edges b =
    let i = add_edges-IsGraph nodes b.nodes_different edges (empty_graph-IsGraph nodes) b.added in
    take_all-Ended nodes b.graph (length nodes) (start nodes b.graph) i
      (start-Inv nodes b.graph b.nodes_different i) (omega arith)

-- With all nodes ordered, the order is one.
full-IsOrder :
    (nodes : List ActionIdentity) (edges : List DependencyIdentity) (b : Built nodes edges)
    → length (last_state nodes b.graph).ordered ≡ length nodes
    → IsOrder nodes edges (last_state nodes b.graph).ordered
unfolding mem
full-IsOrder nodes edges b full =
    let inv = (last_state-Ended nodes edges b).inv in
    let order = (last_state nodes b.graph).ordered in
    let done = length_zero inv.todo (omega (arith, inv.sizes, full)) in
    let same = λ (v : ActionIdentity).
      let known : mem v order ≡ mem v nodes =
        ground (arith, inv.parts v, mem-nil v inv.todo done) in
      known in
    let i = add_edges-IsGraph nodes b.nodes_different edges (empty_graph-IsGraph nodes) b.added in
    record {
      same_nodes = same;
      different = inv.ordered_different;
      same_length = full;
      in_order =
          All-map
            (λ (e : DependencyIdentity) (h : HasEdge b.graph e).
              forward-position b.graph.successors [] order e.prerequisite e.dependent inv.forward h
                (same e.dependent ∙ (i.inside e.prerequisite e.dependent h).1) refl)
            edges
            (add_edges-HasEdge nodes b.nodes_different edges (empty_graph-IsGraph nodes) b.added);
    }

count-positive :
    (f : ActionIdentity → Bool) (xs : List ActionIdentity)
    → ¬ (count f xs ≡ 0)
    → (p : ActionIdentity) × (mem p xs ≡ true) × (f p ≡ true)
unfolding mem
count-positive f [] h = absurd (h refl)
count-positive f (x ∷ xs) h = elim (Bool-cases (f x)) [
  | inl e ↦ (x, ground (arith, node_eq_refl x), e)
  | inr e ↦
      let (p, there, passes) = count-positive f xs (λ none_there. h (rw e none_there)) in
      (p, ground arith, passes)
]

-- When the loop has ended, a node that is not ordered has a prerequisite that is not ordered.
blocked :
    (nodes : List ActionIdentity) (g : Graph) (t : Progress) (ended : Ended nodes g t)
    (v : ActionIdentity)
    → mem v ended.inv.todo ≡ true
    → (p : ActionIdentity) × (mem p ended.inv.todo ≡ true) × (mem v (g.successors p) ≡ true)
blocked nodes g t ended v there =
    let inv = ended.inv in
    let waiting : ¬ (t.indegree v ≡ 0) = λ free. absurd (
      ground
        (arith, inv.ready_exact v, mem-nil v t.ready ended.empty_heap, nat_refl (t.indegree v))) in
    count-positive (λ p. mem v (g.successors p)) inv.todo (λ z. waiting (inv.counted v ∙ z))

-- With a rank that grows along the edges there is no such node.
none_blocked :
    (nodes : List ActionIdentity) (g : Graph) (t : Progress) (ended : Ended nodes g t)
    (rank : ActionIdentity → ℕ)
    → ((p d : ActionIdentity) → mem d (g.successors p) ≡ true → rank p < rank d)
    → (n : ℕ) (v : ActionIdentity) → rank v < n
    → mem v ended.inv.todo ≡ false
none_blocked nodes g t ended rank grows zero v h = absurd (omega (arith, h))
none_blocked nodes g t ended rank grows (suc n) v h = elim (Bool-cases (mem v ended.inv.todo)) [
  | inr free ↦ free
  | inl there ↦
      let (p, waits, edge) = blocked nodes g t ended v there in
      absurd (
        apart waits
          (none_blocked nodes g t ended rank grows n p (omega (arith, h, grows p v edge))))
]

ranked-full :
    (nodes : List ActionIdentity) (edges : List DependencyIdentity) (b : Built nodes edges)
    (rank : ActionIdentity → ℕ)
    → All (λ (e : DependencyIdentity). rank e.prerequisite < rank e.dependent) edges
    → length (last_state nodes b.graph).ordered ≡ length nodes
unfolding mem
ranked-full nodes edges b rank h =
    let ended = last_state-Ended nodes edges b in
    let grows =
      add_edges-every nodes b.nodes_different (λ p d. rank p < rank d) edges
        (empty_graph-IsGraph nodes) b.added h (λ p d none_there. absurd (ground arith)) in
    let done = no_members ended.inv.todo (λ v.
      none_blocked nodes b.graph (last_state nodes b.graph) ended rank grows (suc (rank v)) v
        (omega arith)) in
    omega (arith, ended.inv.sizes, ap length done)

-- The sort once the graph is built.
stable_topological_sort-raise_if :
    (nodes : List ActionIdentity) (edges : List DependencyIdentity) (b : Built nodes edges)
    → node_identities nodes ≡ ok nodes
    → stable_topological_sort nodes edges ≡ (
        raise_if
          (not (length (last_state nodes b.graph).ordered == length nodes))
          fixture_plan_cycle
        >> ok (last_state nodes b.graph).ordered)
unfolding stable_topological_sort
stable_topological_sort-raise_if nodes edges b named = ground (arith, b.nodes_different, b.added)

-- A sort that returned has built its graph.
sort-Built :
    (nodes : List ActionIdentity) (edges : List DependencyIdentity) {order : List ActionIdentity}
    → stable_topological_sort nodes edges ≡ ok order
    → (node_identities nodes ≡ ok nodes) × Built nodes edges
unfolding stable_topological_sort
sort-Built nodes edges {order} h = elim (Result-cases (node_identities nodes)) [
  | inr (e, bad) ↦ absurd (ground arith)
  | inl (ns, good) ↦
      let named : node_identities nodes ≡ ok nodes = good ∙ ap ok (node_identities-ok nodes good) in
      elim (Result-cases (add_edges nodes empty_graph edges)) [
        | inr (e, bad) ↦ absurd (ground arith)
        | inl (g, added) ↦
            (named, record { graph = g; nodes_different = ground arith; added = added })
      ]
]

returned :
    (nodes found : List ActionIdentity) {order : List ActionIdentity}
    → (raise_if (not (length found == length nodes)) fixture_plan_cycle >> ok found) ≡ ok order
    → (length found ≡ length nodes) × (found ≡ order)
returned nodes found h = ground arith

-- If the sort returns, it returns the nodes, each once, in an order in which the prerequisite of every
-- edge comes before the dependent.
pub stable_topological_sort-IsOrder :
    (nodes : List ActionIdentity) (edges : List DependencyIdentity) {order : List ActionIdentity}
    → stable_topological_sort nodes edges ≡ ok order
    → IsOrder nodes edges order
stable_topological_sort-IsOrder nodes edges h =
    let (named, b) = sort-Built nodes edges h in
    let (full, same) =
      returned nodes (last_state nodes b.graph).ordered
        (sym (stable_topological_sort-raise_if nodes edges b named) ∙ h) in
    subst (IsOrder nodes edges) same (full-IsOrder nodes edges b full)

-- An edge between nodes, with texts that are not empty.
pub record IsBetween (nodes : List ActionIdentity) (e : DependencyIdentity) : Type 0 where
  pub prerequisite_named : node_identity e.prerequisite ≡ ok e.prerequisite
  pub dependent_named : node_identity e.dependent ≡ ok e.dependent
  pub prerequisite_in : mem e.prerequisite nodes ≡ true
  pub dependent_in : mem e.dependent nodes ≡ true

add_edge-between :
    (nodes : List ActionIdentity) (g : Graph) (e : DependencyIdentity)
    → IsBetween nodes e
    → add_edge nodes g e
      ≡ ok (
          if mem e.dependent (g.successors e.prerequisite)
          then g
          else with_edge g e.prerequisite e.dependent)
unfolding add_edge
add_edge-between nodes g e b = ground (arith, b)

add_edges-next :
    (nodes : List ActionIdentity) (g g1 g' : Graph) (e : DependencyIdentity)
    (es : List DependencyIdentity)
    → add_edge nodes g e ≡ ok g1
    → add_edges nodes g1 es ≡ ok g'
    → add_edges nodes g (e ∷ es) ≡ ok g'
unfolding add_edges
add_edges-next nodes g g1 g' e es first rest = ground arith

add_edges-between :
    (nodes : List ActionIdentity) (g : Graph) (es : List DependencyIdentity)
    → All (IsBetween nodes) es
    → (g' : Graph) × (add_edges nodes g es ≡ ok g')
unfolding add_edges
add_edges-between nodes g [] h = (g, refl)
add_edges-between nodes g (e ∷ es) h =
    let g1 : Graph =
      if mem e.dependent (g.successors e.prerequisite)
      then g
      else with_edge g e.prerequisite e.dependent in
    let (g', rest) = add_edges-between nodes g1 es h.1 in
    (g', add_edges-next nodes g g1 g' e es (add_edge-between nodes g e h.0) rest)

node_identities-named :
    (vs : List ActionIdentity)
    → All (λ (v : ActionIdentity). node_identity v ≡ ok v) vs
    → node_identities vs ≡ ok vs
unfolding node_identities
node_identities-named [] h = refl
node_identities-named (v ∷ vs) h = ground (arith, h.0, node_identities-named vs h.1)

-- The sort returns for nodes without repeats and edges between them if some rank of the nodes grows
-- along every edge, that is, if the edges have no cycle.
pub stable_topological_sort-returns :
    (nodes : List ActionIdentity) (edges : List DependencyIdentity) (rank : ActionIdentity → ℕ)
    → all_different nodes ≡ true
    → All (λ (v : ActionIdentity). node_identity v ≡ ok v) nodes
    → All (IsBetween nodes) edges
    → All (λ (e : DependencyIdentity). rank e.prerequisite < rank e.dependent) edges
    → (order : List ActionIdentity) × (stable_topological_sort nodes edges ≡ ok order)
stable_topological_sort-returns nodes edges rank different named between ranked =
    let (g, added) = add_edges-between nodes empty_graph edges between in
    let b : Built nodes edges = record { graph = g; nodes_different = different; added = added } in
    let full = ranked-full nodes edges b rank ranked in
    (
      (last_state nodes g).ordered,
      stable_topological_sort-raise_if nodes edges b (node_identities-named nodes named)
          ∙ rw full (ground (arith, nat_refl (length nodes))),
    )

-- ===== src/Qualification/Planner/Edges.antt =====
-- What the loop over the edges of qualification/planner.py has built when it does not raise.
use mercury_tools.Prelude.{
  true, false, not, ◌&&◌, ◌||◌, List, [], ◌∷◌, if◌then◌else◌, All, Result, Result-cases, ok, ◌>>◌,
  raise_if, Bool-cases, inl, inr, ◌≡◌, refl, sym, ap, ◌∙◌, arith, subst,
}
use mercury_tools.Qualification.Planner.Sort.{
  ActionIdentity, DependencyIdentity, PlanError, fixture_plan_node_missing, Graph, empty_graph,
  node_eq, mem, all_different, node_identity, node_identities, with_edge, add_edge, add_edges,
}
use mercury_tools.Qualification.Planner.Sets.{node_eq-eq, node_eq_refl}
use mercury_tools.Qualification.Planner.Graphs.{IsGraph, with_edge-IsGraph, mem-with_edge, pending}

-- An edge is in the graph.
abbrev pub HasEdge : Graph → DependencyIdentity → Type 0
HasEdge g e = mem e.dependent (g.successors e.prerequisite) ≡ true

node_identity-ok : (v : ActionIdentity) {w : ActionIdentity} → node_identity v ≡ ok w → w ≡ v
unfolding node_identity
node_identity-ok v h = ground arith

pub node_identities-ok :
    (vs : List ActionIdentity) {ws : List ActionIdentity} → node_identities vs ≡ ok ws → ws ≡ vs
unfolding node_identities
node_identities-ok [] h = ground arith
node_identities-ok (v ∷ vs) {ws} h = elim (Result-cases (node_identity v)) [
  | inr (e, bad) ↦ absurd (ground arith)
  | inl (w, good) ↦ elim (Result-cases (node_identities vs)) [
    | inr (e, bad) ↦ absurd (ground arith)
    | inl (us, fine) ↦
        let whole : w ∷ us ≡ ws = ground arith in
        sym whole
        ∙ ap (λ (x : ActionIdentity). x ∷ us) (node_identity-ok v good)
        ∙ ap (λ (xs : List ActionIdentity). v ∷ xs) (node_identities-ok vs fine)
  ]
]

-- What `add_edge` has done: the edge was there, or it is new and between nodes.
data Added (nodes : List ActionIdentity) (g : Graph) (e : DependencyIdentity) (g' : Graph)
    : Type 0 where
  there : HasEdge g e → g' ≡ g → Added nodes g e g'
  new :
      mem e.prerequisite nodes ≡ true
      → mem e.dependent nodes ≡ true
      → mem e.dependent (g.successors e.prerequisite) ≡ false
      → g' ≡ with_edge g e.prerequisite e.dependent
      → Added nodes g e g'

-- The part of `add_edge` after its two nodes are read.
abbrev place :
    List ActionIdentity → Graph → ActionIdentity → ActionIdentity → Result PlanError Graph
place nodes g p d =
    raise_if (not (mem p nodes) || not (mem d nodes)) fixture_plan_node_missing
    >> ok (if mem d (g.successors p) then g else with_edge g p d)

known_edge :
    (g : Graph) (e : DependencyIdentity) (p d : ActionIdentity)
    → HasEdge g e
    → mem d (g.successors p)
      ≡ (node_eq p e.prerequisite && node_eq d e.dependent || mem d (g.successors p))
known_edge g e p d h = elim (Bool-cases (node_eq p e.prerequisite && node_eq d e.dependent)) [
  | inl same ↦
      let p_is = node_eq-eq p e.prerequisite (ground arith) in
      let d_is = node_eq-eq d e.dependent (ground arith) in rw same (rw (p_is, d_is) h)
  | inr other ↦ rw other refl
]

place-Added :
    (nodes : List ActionIdentity) (g : Graph) (e : DependencyIdentity) {g' : Graph}
    → place nodes g e.prerequisite e.dependent ≡ ok g'
    → Added nodes g e g'
place-Added nodes g e {g'} h = elim (Bool-cases (mem e.dependent (g.successors e.prerequisite))) [
  | inl known ↦ there known (ground arith)
  | inr free ↦ new (ground arith) (ground arith) free (ground arith)
]

add_edge-Added :
    (nodes : List ActionIdentity) (g : Graph) (e : DependencyIdentity) {g' : Graph}
    → add_edge nodes g e ≡ ok g'
    → Added nodes g e g'
unfolding add_edge
add_edge-Added nodes g e {g'} h = elim (Result-cases (node_identity e.prerequisite)) [
  | inr (x, bad) ↦ absurd (ground arith)
  | inl (p, good) ↦ elim (Result-cases (node_identity e.dependent)) [
    | inr (x, bad) ↦ absurd (ground arith)
    | inl (d, fine) ↦
        let placed : place nodes g p d ≡ ok g' = simp (good, fine) at h in
        let from_p : place nodes g e.prerequisite d ≡ ok g' =
          subst (λ (v : ActionIdentity). place nodes g v d ≡ ok g')
            (node_identity-ok e.prerequisite good) placed in
        place-Added nodes g e (
          subst (λ (v : ActionIdentity). place nodes g e.prerequisite v ≡ ok g')
            (node_identity-ok e.dependent fine) from_p)
  ]
]

module _ (nodes : List ActionIdentity) (different : all_different nodes ≡ true) where
  Added-IsGraph :
      {g g' : Graph} (e : DependencyIdentity)
      → Added nodes g e g'
      → IsGraph nodes g
      → IsGraph nodes g'
  Added-IsGraph e (there h is) i = subst (IsGraph nodes) (sym is) i
  Added-IsGraph {g} e (new p d free is) i =
      subst (IsGraph nodes) (sym is)
        (with_edge-IsGraph nodes g e.prerequisite e.dependent i different p d free)

  -- Every edge that was there is there, and every edge that is there was, or is the new one.
  Added-edge :
      {g g' : Graph} (e : DependencyIdentity)
      → IsGraph nodes g
      → Added nodes g e g'
      → (p d : ActionIdentity)
      → mem d (g'.successors p)
        ≡ (node_eq p e.prerequisite && node_eq d e.dependent || mem d (g.successors p))
  Added-edge {g} {g'} e i (there h is) p d =
      ap (λ (x : Graph). mem d (x.successors p)) is ∙ known_edge g e p d h
  Added-edge {g} {g'} e i (new p_in d_in free is) p d =
      ap (λ (x : Graph). mem d (x.successors p)) is
      ∙ mem-with_edge nodes g e.prerequisite e.dependent i different p_in d_in free p d

  pub add_edges-IsGraph :
      (es : List DependencyIdentity) {g g' : Graph}
      → IsGraph nodes g
      → add_edges nodes g es ≡ ok g'
      → IsGraph nodes g'
  unfolding add_edges
  add_edges-IsGraph [] i h = subst (IsGraph nodes) (cc h) i
  add_edges-IsGraph (e ∷ es) {g} i h = elim (Result-cases (add_edge nodes g e)) [
    | inr (x, bad) ↦ absurd (ground arith)
    | inl (g1, good) ↦
        add_edges-IsGraph es (Added-IsGraph e (add_edge-Added nodes g e good) i) (simp good at h)
  ]

  kept_edges :
      (es : List DependencyIdentity) {g g' : Graph} (p d : ActionIdentity)
      → IsGraph nodes g
      → add_edges nodes g es ≡ ok g'
      → mem d (g.successors p) ≡ true
      → mem d (g'.successors p) ≡ true
  unfolding add_edges
  kept_edges [] {g} {g'} p d i h m =
      let same : g ≡ g' = cc h in subst (λ (x : Graph). mem d (x.successors p) ≡ true) same m
  kept_edges (e ∷ es) {g} p d i h m = elim (Result-cases (add_edge nodes g e)) [
    | inr (x, bad) ↦ absurd (ground arith)
    | inl (g1, good) ↦
        let a = add_edge-Added nodes g e good in
        kept_edges es p d (Added-IsGraph e a i) (simp good at h)
          (Added-edge e i a p d ∙ ground arith)
  ]

  -- Every edge of the list is in the graph.
  pub add_edges-HasEdge :
      (es : List DependencyIdentity) {g g' : Graph}
      → IsGraph nodes g
      → add_edges nodes g es ≡ ok g'
      → All (HasEdge g') es
  unfolding add_edges
  add_edges-HasEdge [] i h = tt
  add_edges-HasEdge (e ∷ es) {g} i h = elim (Result-cases (add_edge nodes g e)) [
    | inr (x, bad) ↦ absurd (ground arith)
    | inl (g1, good) ↦
        let a = add_edge-Added nodes g e good in
        let i1 = Added-IsGraph e a i in
        (
          kept_edges es e.prerequisite e.dependent i1 (simp good at h) (
              Added-edge e i a e.prerequisite e.dependent
              ∙ ground (arith, node_eq_refl e.prerequisite, node_eq_refl e.dependent)),
          add_edges-HasEdge es i1 (simp good at h),
        )
  ]

  -- What holds of every edge of the list holds of every edge of the graph.
  pub add_edges-every :
      (P : ActionIdentity → ActionIdentity → Type 0) (es : List DependencyIdentity) {g g' : Graph}
      → IsGraph nodes g
      → add_edges nodes g es ≡ ok g'
      → All (λ (e : DependencyIdentity). P e.prerequisite e.dependent) es
      → ((p d : ActionIdentity) → mem d (g.successors p) ≡ true → P p d)
      → (p d : ActionIdentity) → mem d (g'.successors p) ≡ true
      → P p d
  unfolding add_edges
  add_edges-every P [] {g} {g'} i h all old = λ p d m.
      let same : g' ≡ g = cc (sym h) in
      old p d (subst (λ (x : Graph). mem d (x.successors p) ≡ true) same m)
  add_edges-every P (e ∷ es) {g} i h all old = elim (Result-cases (add_edge nodes g e)) [
    | inr (x, bad) ↦ absurd (ground arith)
    | inl (g1, good) ↦
        let a = add_edge-Added nodes g e good in
        add_edges-every P es (Added-IsGraph e a i) (simp good at h) all.1 (λ p d m.
          elim (Bool-cases (node_eq p e.prerequisite && node_eq d e.dependent)) [
            | inl same ↦
                subst (λ (x : ActionIdentity). P x d)
                  (sym (node_eq-eq p e.prerequisite (ground arith)))
                  (subst (P e.prerequisite) (sym (node_eq-eq d e.dependent (ground arith))) all.0)
            | inr other ↦ old p d (ground (arith, Added-edge e i a p d))
          ])
  ]

pending-empty :
    (nodes : List ActionIdentity) (d : ActionIdentity)
    → 0 ≡ pending (λ (v : ActionIdentity). []) nodes d
unfolding mem
pending-empty [] d = refl
pending-empty (x ∷ xs) d = pending-empty xs d

pub empty_graph-IsGraph : (nodes : List ActionIdentity) → IsGraph nodes empty_graph
unfolding mem all_different
empty_graph-IsGraph nodes = record {
  different = λ v. refl;
  inside = λ p d h. absurd (cc h);
  counted = λ d. pending-empty nodes d;
}

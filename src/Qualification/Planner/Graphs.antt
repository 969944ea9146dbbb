-- ===== src/Qualification/Planner/Graphs.antt =====
-- The graph that qualification/planner.py builds of the edges, and its counts of prerequisites.
use mercury_tools.Prelude.{
  ℕ, suc, Bool, true, false, ◌&&◌, ◌||◌, List, [], ◌∷◌, if◌then◌else◌, Bool-cases, inl, inr, ◌≡◌,
  refl, sym, ap, ◌∙◌, arith,
}
use mercury_tools.Qualification.Planner.Sort.{
  ActionIdentity, Graph, node_eq, mem, all_different, set_value, with_edge,
}
use mercury_tools.Qualification.Planner.Sets.{node_eq-eq, node_eq_refl, node_eq-false, apart}

abbrev pub count : (ActionIdentity → Bool) → List ActionIdentity → ℕ
count f [] = 0
count f (x ∷ xs) = if f x then suc (count f xs) else count f xs

abbrev pub Successors : Type 0
Successors = ActionIdentity → List ActionIdentity

-- How many of the nodes of a list a node depends on.
abbrev pub pending : Successors → List ActionIdentity → ActionIdentity → ℕ
pending successors xs d = count (λ p. mem d (successors p)) xs

pub record IsGraph (nodes : List ActionIdentity) (g : Graph) : Type 0 where
  pub different : (v : ActionIdentity) → all_different (g.successors v) ≡ true
  pub inside :
      (p d : ActionIdentity)
      → mem d (g.successors p) ≡ true
      → (mem p nodes ≡ true) × (mem d nodes ≡ true)
  pub counted : (d : ActionIdentity) → g.indegree d ≡ pending g.successors nodes d

pub count-same :
    (f h : ActionIdentity → Bool) (xs : List ActionIdentity)
    → ((q : ActionIdentity) → mem q xs ≡ true → h q ≡ f q)
    → count h xs ≡ count f xs
unfolding mem
count-same f h [] e = refl
count-same f h (x ∷ xs) e =
    let here : h x ≡ f x = e x (ground (arith, node_eq_refl x)) in
    rw (here, count-same f h xs (λ q m. e q (ground arith))) refl

-- One more node of a list without repeats passes the test.
pub count-one :
    (f h : ActionIdentity → Bool) (p : ActionIdentity) (xs : List ActionIdentity)
    → all_different xs ≡ true
    → mem p xs ≡ true
    → f p ≡ false
    → h p ≡ true
    → ((q : ActionIdentity) → node_eq q p ≡ false → h q ≡ f q)
    → count h xs ≡ suc (count f xs)
unfolding mem all_different
count-one f h p [] d m lacks has e = absurd (ground arith)
count-one f h p (x ∷ xs) d m lacks has e = elim (Bool-cases (node_eq p x)) [
  | inl here ↦
      let is = node_eq-eq p x here in
      let no_here : f x ≡ false = ap f (sym is) ∙ lacks in
      let yes_here : h x ≡ true = ap h (sym is) ∙ has in
      let rest : count h xs ≡ count f xs = count-same f h xs (λ q there. e q (
        node_eq-false q p (λ same.
          apart there (ap (λ (z : ActionIdentity). mem z xs) (same ∙ is) ∙ ground arith)))) in
      rw (no_here, yes_here, rest) refl
  | inr other ↦
      let rest = count-one f h p xs (ground arith) (ground arith) lacks has e in
      let here : h x ≡ f x = e x (
        node_eq-false x p
          (λ same. absurd (apart (node_eq_refl p) (ap (node_eq p) (sym same) ∙ other)))) in
      ground (arith, rest, here)
]

module _ (nodes : List ActionIdentity) (g : Graph) (p d : ActionIdentity) (i : IsGraph nodes g)
    (nodes_different : all_different nodes ≡ true) (p_in : mem p nodes ≡ true)
    (d_in : mem d nodes ≡ true) (new : mem d (g.successors p) ≡ false) where
  -- What the successors of a node are after the edge is added.
  pub mem-with_edge :
      (q w : ActionIdentity)
      → mem w ((with_edge g p d).successors q)
        ≡ (node_eq q p && node_eq w d || mem w (g.successors q))
  unfolding mem set_value
  mem-with_edge q w = elim (Bool-cases (node_eq q p)) [
    | inl e ↦ rw e (
        ap (λ (z : ActionIdentity). node_eq w d || mem w (g.successors z)) (sym (node_eq-eq q p e)))
    | inr e ↦ rw e refl
  ]

  different_after : (v : ActionIdentity) → all_different ((with_edge g p d).successors v) ≡ true
  unfolding set_value all_different
  different_after v = elim (Bool-cases (node_eq v p)) [
    | inl e ↦ ground (arith, i.different p)
    | inr e ↦ ground (arith, i.different v)
  ]

  inside_after :
      (q w : ActionIdentity)
      → mem w ((with_edge g p d).successors q) ≡ true
      → (mem q nodes ≡ true) × (mem w nodes ≡ true)
  inside_after q w h = elim (Bool-cases (node_eq q p && node_eq w d)) [
    | inl e ↦ (
      ap (λ (z : ActionIdentity). mem z nodes) (node_eq-eq q p (ground arith)) ∙ p_in,
      ap (λ (z : ActionIdentity). mem z nodes) (node_eq-eq w d (ground arith)) ∙ d_in,
    )
    | inr e ↦ i.inside q w (ground (arith, mem-with_edge q w))
  ]

  indegree_after :
      (w : ActionIdentity)
      → (with_edge g p d).indegree w ≡ (if node_eq w d then suc (g.indegree d) else g.indegree w)
  unfolding set_value
  indegree_after w = ground arith

  counted_after :
      (w : ActionIdentity)
      → (with_edge g p d).indegree w ≡ pending (with_edge g p d).successors nodes w
  counted_after w = elim (Bool-cases (node_eq w d)) [
    | inl e ↦
        let is = node_eq-eq w d e in
        indegree_after w
        ∙ rw e (ap suc (i.counted d))
        ∙ sym (
            count-one (λ q. mem d (g.successors q)) (λ q. mem d ((with_edge g p d).successors q)) p
              nodes nodes_different p_in new
              (ground (arith, mem-with_edge p d, node_eq_refl p, node_eq_refl d))
              (λ q other. ground (arith, mem-with_edge q d)))
        ∙ ap (pending (with_edge g p d).successors nodes) (sym is)
    | inr e ↦
        indegree_after w
        ∙ rw e (i.counted w)
        ∙ sym (
            count-same (λ q. mem w (g.successors q)) (λ q. mem w ((with_edge g p d).successors q))
              nodes (λ q there. ground (arith, mem-with_edge q w)))
  ]

  pub with_edge-IsGraph : IsGraph nodes (with_edge g p d)
  with_edge-IsGraph = record {
    different = different_after;
    inside = inside_after;
    counted = counted_after;
  }

-- ===== src/Qualification/Planner/Turn.antt =====
-- One turn of the loop `while ready` of qualification/planner.py, and the loop to its end.
use mercury_tools.Prelude.{
  ℕ, zero, suc, ◌+◌, ◌-◌, ◌≤◌, true, false, ◌&&◌, ◌||◌, Option-cases, none, some, List, [], ◌∷◌,
  ◌++◌, length, length-append, ◌==◌, if◌then◌else◌, Bool-cases, inl, inr, ◌≡◌, refl, sym, ap, ◌∙◌,
  arith, subst,
}
use mercury_tools.Qualification.Planner.Sort.{
  ActionIdentity, Graph, Progress, node_eq, mem, all_different, without, sorted, pop_least,
  take_node, take_all,
}
use mercury_tools.Qualification.Planner.Sets.{
  node_eq-eq, apart, mem-append, mem-without_other, mem-without, mem-without_self,
  different-without, length-without, mem-sorted, different-sorted, different-snoc, pop_least-some,
  pop_least-none, no_members, length_zero, mem-nil,
}
use mercury_tools.Qualification.Planner.Graphs.{Successors, pending, IsGraph}
use mercury_tools.Qualification.Planner.Relax.{Relaxed, relax_all-Relaxed}
use mercury_tools.Qualification.Planner.Loop.{
  Inv, IsForward, IsForward-snoc, forward-ordered, count-without, count-zero,
}

module _ (nodes : List ActionIdentity) (g : Graph) (ig : IsGraph nodes g) (s : Progress)
    (i : Inv nodes g.successors s) (v : ActionIdentity) (v_ready : mem v s.ready ≡ true) where
  v_todo : mem v i.todo ≡ true
  v_todo = ground (arith, i.ready_exact v)

  v_free : s.indegree v ≡ 0
  v_free = ground (arith, i.ready_exact v)

  v_new : mem v s.ordered ≡ false
  v_new = i.disjoint v v_todo

  -- The prerequisites of the node are ordered.
  v_prerequisites : (p : ActionIdentity) → mem v (g.successors p) ≡ true → mem p s.ordered ≡ true
  v_prerequisites p e = elim (Bool-cases (mem p i.todo)) [
    | inl there ↦ absurd (
        apart e
          (count-zero (λ q. mem v (g.successors q)) i.todo p (sym (i.counted v) ∙ v_free) there))
    | inr done ↦ ground (arith, (ig.inside p v e).0, i.parts p)
  ]

  -- A dependent of the node waits for it.
  waits :
      (d : ActionIdentity)
      → mem d (g.successors v) ≡ true
      → (1 ≤ s.indegree d) × (mem d i.todo ≡ true)
  waits d e =
      let c = count-without (λ q. mem d (g.successors q)) v i.todo v_todo in
      let known : mem d nodes ≡ true = (ig.inside v d e).1 in
      (
        ground (arith, i.counted d, c),
        elim (Bool-cases (mem d s.ordered)) [
          | inl done ↦
              absurd (apart (forward-ordered g.successors s.ordered v d i.forward done e) v_new)
          | inr open_node ↦ ground (arith, i.parts d)
        ],
      )

  relaxed :
      Relaxed
        (sorted (g.successors v))
        (record s { ready = without v s.ready; ordered = s.ordered ++ v ∷ [] })
        (take_node g.successors v (without v s.ready) s)
  unfolding take_node
  relaxed =
      relax_all-Relaxed (sorted (g.successors v))
        (record s { ready = without v s.ready; ordered = s.ordered ++ v ∷ [] })
        (different-sorted (g.successors v) (ig.different v))
        (different-without v s.ready i.ready_different)
        (λ d m.
          let (pos, waiting) = waits d (sym (mem-sorted d (g.successors v)) ∙ m) in
          (
            pos,
            elim (Bool-cases (mem d (without v s.ready))) [
              | inl there ↦
                  let was : mem d s.ready ≡ true = mem-without d v s.ready there in
                  absurd (ground (arith, i.ready_exact d, was))
              | inr away ↦ away
            ],
          ))

  -- What the counts and the heap are after the turn.
  counts_after :
      (w : ActionIdentity)
      → (take_node g.successors v (without v s.ready) s).indegree w
        ≡ (if mem w (g.successors v) then s.indegree w - 1 else s.indegree w)
  counts_after w =
      relaxed.counts w
      ∙ ap (λ b. if b then s.indegree w - 1 else s.indegree w) (mem-sorted w (g.successors v))

  heap_after :
      (w : ActionIdentity)
      → mem w (take_node g.successors v (without v s.ready) s).ready
        ≡ (mem w (g.successors v) && s.indegree w == 1 || mem w (without v s.ready))
  heap_after w =
      relaxed.heap w
      ∙ ap (λ b. b && s.indegree w == 1 || mem w (without v s.ready))
          (mem-sorted w (g.successors v))

  counted_after :
      (d : ActionIdentity)
      → (take_node g.successors v (without v s.ready) s).indegree d
        ≡ pending g.successors (without v i.todo) d
  counted_after d =
      let c = count-without (λ q. mem d (g.successors q)) v i.todo v_todo in
      ground (arith, counts_after d, i.counted d, c)

  no_loop : mem v (g.successors v) ≡ false
  no_loop = elim (Bool-cases (mem v (g.successors v))) [
    | inl e ↦ absurd (ground (arith, waits v e, v_free))
    | inr e ↦ e
  ]

  exact_here : mem v (take_node g.successors v (without v s.ready) s).ready ≡ (
      mem v (without v i.todo) && (take_node g.successors v (without v s.ready) s).indegree v == 0)
  exact_here = ground (
    arith,
    heap_after v,
    no_loop,
    mem-without_self v s.ready i.ready_different,
    mem-without_self v i.todo i.todo_different,
  )

  exact_after :
      (w : ActionIdentity)
      → mem w (take_node g.successors v (without v s.ready) s).ready ≡ (
          mem w (without v i.todo)
          && (take_node g.successors v (without v s.ready) s).indegree w == 0)
  exact_after w = elim (Bool-cases (node_eq w v)) [
    | inl here ↦
        subst
          (λ (z : ActionIdentity). mem z (take_node g.successors v (without v s.ready) s).ready ≡ (
            mem z (without v i.todo)
            && (take_node g.successors v (without v s.ready) s).indegree z == 0))
          (sym (node_eq-eq w v here)) exact_here
    | inr other ↦ elim (Bool-cases (mem w (g.successors v))) [
      | inl e ↦ ground (
        arith,
        heap_after w,
        counts_after w,
        waits w e,
        i.ready_exact w,
        mem-without_other w v s.ready other,
        mem-without_other w v i.todo other,
      )
      | inr e ↦ ground (
        arith,
        heap_after w,
        counts_after w,
        i.ready_exact w,
        mem-without_other w v s.ready other,
        mem-without_other w v i.todo other,
      )
    ]
  ]

  parts_after :
      (w : ActionIdentity) → mem w nodes ≡ (mem w (s.ordered ++ v ∷ []) || mem w (without v i.todo))
  unfolding mem
  parts_after w = elim (Bool-cases (node_eq w v)) [
    | inl here ↦
        let known : mem w nodes ≡ true =
          subst (λ (z : ActionIdentity). mem z nodes ≡ true) (sym (node_eq-eq w v here))
            (ground (arith, i.parts v, v_todo)) in
        ground (arith, known, mem-append w s.ordered (v ∷ []))
    | inr other ↦
        ground
          (arith, i.parts w, mem-append w s.ordered (v ∷ []), mem-without_other w v i.todo other)
  ]

  disjoint_after :
      (w : ActionIdentity) → mem w (without v i.todo) ≡ true → mem w (s.ordered ++ v ∷ []) ≡ false
  unfolding mem
  disjoint_after w m = elim (Bool-cases (node_eq w v)) [
    | inl here ↦ absurd (
        apart
          (subst (λ (z : ActionIdentity). mem z (without v i.todo) ≡ true) (node_eq-eq w v here) m)
          (mem-without_self v i.todo i.todo_different))
    | inr other ↦
        ground (arith, i.disjoint w (mem-without w v i.todo m), mem-append w s.ordered (v ∷ []))
  ]

  take_node-IsForward : IsForward g.successors [] (s.ordered ++ v ∷ [])
  take_node-IsForward =
      IsForward-snoc g.successors [] s.ordered v i.forward
        (λ p e. ground (arith, v_prerequisites p e))

  pub take_node-ordered :
      (take_node g.successors v (without v s.ready) s).ordered ≡ s.ordered ++ v ∷ []
  take_node-ordered = relaxed.same_order

  pub take_node-Inv : Inv nodes g.successors (take_node g.successors v (without v s.ready) s)
  take_node-Inv = record {
    todo = without v i.todo;
    todo_different = different-without v i.todo i.todo_different;
    ordered_different =
        ap all_different relaxed.same_order ∙ different-snoc s.ordered v i.ordered_different v_new;
    parts = λ w.
        parts_after w
        ∙ ap (λ (xs : List ActionIdentity). mem w xs || mem w (without v i.todo))
            (sym relaxed.same_order);
    disjoint = λ w m. ap (mem w) relaxed.same_order ∙ disjoint_after w m;
    sizes =
        ap (λ (xs : List ActionIdentity). length xs + length (without v i.todo)) relaxed.same_order
        ∙ omega (arith, length-append s.ordered (v ∷ []), length-without v i.todo v_todo, i.sizes);
    counted = counted_after;
    ready_different = relaxed.heap_different;
    ready_exact = exact_after;
    forward = subst (IsForward g.successors []) (sym relaxed.same_order) take_node-IsForward;
  }

-- The loop has ended: the heap is empty.
pub record Ended (nodes : List ActionIdentity) (g : Graph) (t : Progress) : Type 0 where
  pub inv : Inv nodes g.successors t
  pub empty_heap : t.ready ≡ []

take_all-none :
    (fuel : ℕ) (successors : Successors) (s : Progress)
    → pop_least s.ready ≡ none
    → take_all (suc fuel) successors s ≡ s
unfolding take_all
take_all-none fuel successors s e = rw (e, take_all) refl

take_all-some :
    (fuel : ℕ) (successors : Successors) (s : Progress) (v : ActionIdentity)
    (rest : List ActionIdentity)
    → pop_least s.ready ≡ some (v, rest)
    → take_all (suc fuel) successors s ≡ take_all fuel successors (take_node successors v rest s)
unfolding take_all
take_all-some fuel successors s v rest e = rw (e, take_all) refl

-- Fuel for every node that is not ordered is enough for the loop to end.
pub take_all-Ended :
    (nodes : List ActionIdentity) (g : Graph) (fuel : ℕ) (s : Progress)
    → IsGraph nodes g
    → Inv nodes g.successors s
    → length nodes ≤ fuel + length s.ordered
    → Ended nodes g (take_all fuel g.successors s)
unfolding take_all
take_all-Ended nodes g zero s ig i enough =
    let none_left = length_zero i.todo (omega (arith, enough, i.sizes)) in
    record {
      inv = i;
      empty_heap =
          no_members s.ready (λ v. ground (arith, i.ready_exact v, mem-nil v i.todo none_left));
    }
take_all-Ended nodes g (suc fuel) s ig i enough = elim (Option-cases (pop_least s.ready)) [
  | inl e ↦
      subst (Ended nodes g) (sym (take_all-none fuel g.successors s e))
        (record { inv = i; empty_heap = pop_least-none s.ready e })
  | inr ((v, rest), e) ↦
      let (there, kept) = pop_least-some s.ready e in
      let next = take_node g.successors v (without v s.ready) s in
      let turned =
        take_all-some fuel g.successors s v rest e
        ∙ ap
            (λ (xs : List ActionIdentity).
              take_all fuel g.successors (take_node g.successors v xs s))
            kept in
      subst (Ended nodes g) (sym turned) (
        take_all-Ended nodes g fuel next ig (take_node-Inv nodes g ig s i v there) (
          omega (
            arith,
            enough,
            ap length (take_node-ordered nodes g ig s i v there),
            length-append s.ordered (v ∷ []),
          )))
]

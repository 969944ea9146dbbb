-- ===== src/Qualification/Planner/Relax.antt =====
-- The loop over the dependents of a node in qualification/planner.py.
use mercury_tools.Prelude.{
  ◌-◌, ◌≤◌, true, false, ◌&&◌, ◌||◌, List, [], ◌∷◌, ◌==◌, if◌then◌else◌, Bool-cases, inl, inr, ◌≡◌,
  refl, sym, ap, ◌∙◌, arith,
}
use mercury_tools.Qualification.Planner.Sort.{
  ActionIdentity, Progress, node_eq, mem, all_different, set_value, relax, relax_all,
}
use mercury_tools.Qualification.Planner.Sets.{node_eq-eq, node_eq_refl, node_eq-false, apart}

-- What the loop has done to the counts and to the heap.
pub record Relaxed (ds : List ActionIdentity) (s t : Progress) : Type 0 where
  pub counts :
      (w : ActionIdentity) → t.indegree w ≡ (if mem w ds then s.indegree w - 1 else s.indegree w)
  pub heap : (w : ActionIdentity) → mem w t.ready ≡ (mem w ds && s.indegree w == 1 || mem w s.ready)
  pub heap_different : all_different t.ready ≡ true
  pub same_order : t.ordered ≡ s.ordered

relax-indegree :
    (d w : ActionIdentity) (s : Progress)
    → (relax d s).indegree w ≡ (if node_eq w d then s.indegree w - 1 else s.indegree w)
unfolding relax set_value
relax-indegree d w s = elim (Bool-cases (node_eq w d)) [
  | inl e ↦ rw e (ap (λ (v : ActionIdentity). s.indegree v - 1) (sym (node_eq-eq w d e)))
  | inr e ↦ rw e refl
]

relax-ready :
    (d w : ActionIdentity) (s : Progress)
    → mem w (relax d s).ready ≡ (node_eq w d && s.indegree w == 1 || mem w s.ready)
unfolding relax mem
relax-ready d w s = elim (Bool-cases (node_eq w d)) [
  | inl e ↦ ground (arith, ap s.indegree (node_eq-eq w d e))
  | inr e ↦ ground arith
]

relax-different :
    (d : ActionIdentity) (s : Progress)
    → all_different s.ready ≡ true
    → mem d s.ready ≡ false
    → all_different (relax d s).ready ≡ true
unfolding relax all_different
relax-different d s h m = ground arith

relax-ordered : (d : ActionIdentity) (s : Progress) → (relax d s).ordered ≡ s.ordered
unfolding relax
relax-ordered d s = refl

pub relax_all-Relaxed :
    (ds : List ActionIdentity) (s : Progress)
    → all_different ds ≡ true
    → all_different s.ready ≡ true
    → ((d : ActionIdentity) → mem d ds ≡ true → (1 ≤ s.indegree d) × (mem d s.ready ≡ false))
    → Relaxed ds s (relax_all ds s)
unfolding relax_all mem all_different
relax_all-Relaxed [] s different ready h = record {
  counts = λ w. refl;
  heap = λ w. refl;
  heap_different = ready;
  same_order = refl;
}
relax_all-Relaxed (d ∷ ds) s different ready h =
    let first = h d (ground (arith, node_eq_refl d)) in
    let next = relax d s in
    let away = λ (w : ActionIdentity) (m : mem w ds ≡ true).
      node_eq-false w d
        (λ same. apart m (ap (λ (v : ActionIdentity). mem v ds) same ∙ ground arith)) in
    let r = relax_all-Relaxed ds next (ground arith) (relax-different d s ready first.1) (λ w m.
      let rest = h w (ground arith) in
      (
        ground (arith, relax-indegree d w s, away w m, rest),
        relax-ready d w s ∙ ground (arith, away w m, rest),
      )) in
    record {
      counts = λ w. elim (Bool-cases (mem w ds)) [
        | inl m ↦ r.counts w ∙ ground (arith, relax-indegree d w s, away w m)
        | inr m ↦ r.counts w ∙ ground (arith, relax-indegree d w s)
      ];
      heap = λ w. elim (Bool-cases (mem w ds)) [
        | inl m ↦ r.heap w ∙ ground (arith, relax-indegree d w s, relax-ready d w s, away w m)
        | inr m ↦ r.heap w ∙ ground (arith, relax-ready d w s)
      ];
      heap_different = r.heap_different;
      same_order = r.same_order ∙ relax-ordered d s;
    }

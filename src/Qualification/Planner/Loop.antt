-- ===== src/Qualification/Planner/Loop.antt =====
-- The loop `while ready` of qualification/planner.py: its invariant, kept by every turn.
use mercury_tools.Prelude.{
  ℕ, suc, ◌+◌, Bool, true, false, ◌&&◌, ◌||◌, List, [], ◌∷◌, ◌++◌, length, ◌==◌, if◌then◌else◌,
  Bool-cases, inl, inr, ◌≡◌, refl, ap, ◌∙◌, arith, subst,
}
use mercury_tools.Qualification.Planner.Sort.{
  ActionIdentity, Graph, Progress, node_eq, mem, all_different, without, without_prerequisites,
  start,
}
use mercury_tools.Qualification.Planner.Sets.{node_eq-eq, node_eq_sym}
use mercury_tools.Qualification.Planner.Graphs.{Successors, count, pending, IsGraph}

-- Every prerequisite of a node of the list comes before it, or was seen.
abbrev pub IsForward : Successors → List ActionIdentity → List ActionIdentity → Type 0
IsForward successors seen [] = Unit
IsForward successors seen (v ∷ vs) =
    ((p : ActionIdentity) → mem v (successors p) ≡ true → mem p seen ≡ true)
    × IsForward successors (v ∷ seen) vs

pub IsForward-snoc :
    (successors : Successors) (seen xs : List ActionIdentity) (v : ActionIdentity)
    → IsForward successors seen xs
    → ((p : ActionIdentity) → mem v (successors p) ≡ true → mem p xs || mem p seen ≡ true)
    → IsForward successors seen (xs ++ v ∷ [])
unfolding mem
IsForward-snoc successors seen [] v f h = (h, tt)
IsForward-snoc successors seen (x ∷ xs) v f h =
    (f.0, IsForward-snoc successors (x ∷ seen) xs v f.1 (λ p m. ground (arith, h p m)))

-- A node of the list has its prerequisites in it, or seen.
forward-mem :
    (successors : Successors) (seen xs : List ActionIdentity) (p v : ActionIdentity)
    → IsForward successors seen xs
    → mem v xs ≡ true
    → mem v (successors p) ≡ true
    → mem p xs || mem p seen ≡ true
unfolding mem
forward-mem successors seen [] p v f m e = absurd (ground arith)
forward-mem successors seen (x ∷ xs) p v f m e = elim (Bool-cases (node_eq v x)) [
  | inl here ↦
      let edge : mem x (successors p) ≡ true =
        subst (λ (z : ActionIdentity). mem z (successors p) ≡ true) (node_eq-eq v x here) e in
      ground (arith, f.0 p edge)
  | inr other ↦ ground (arith, forward-mem successors (x ∷ seen) xs p v f.1 (ground arith) e)
]

not_first :
    (v x : ActionIdentity) (xs : List ActionIdentity)
    → mem v (x ∷ xs) ≡ true
    → node_eq x v ≡ false
    → mem v xs ≡ true
unfolding mem
not_first v x xs m other = ground (arith, node_eq_sym v x)

pub forward-ordered :
    (successors : Successors) (xs : List ActionIdentity) (p v : ActionIdentity)
    → IsForward successors [] xs
    → mem v xs ≡ true
    → mem v (successors p) ≡ true
    → mem p xs ≡ true
unfolding mem
forward-ordered successors xs p v f m e = ground (arith, forward-mem successors [] xs p v f m e)

pub count-without :
    (f : ActionIdentity → Bool) (v : ActionIdentity) (xs : List ActionIdentity)
    → mem v xs ≡ true
    → count f xs ≡ (if f v then suc (count f (without v xs)) else count f (without v xs))
unfolding mem without
count-without f v [] m = absurd (ground arith)
count-without f v (x ∷ xs) m = elim (Bool-cases (node_eq x v)) [
  | inl here ↦ rw here (
      ap (λ (z : ActionIdentity). if f z then suc (count f xs) else count f xs)
        (node_eq-eq x v here))
  | inr other ↦
      let there : mem v xs ≡ true = not_first v x xs m other in
      ground (arith, count-without f v xs there)
]

pub count-zero :
    (f : ActionIdentity → Bool) (xs : List ActionIdentity) (v : ActionIdentity)
    → count f xs ≡ 0
    → mem v xs ≡ true
    → f v ≡ false
unfolding mem
count-zero f [] v h m = absurd (ground arith)
count-zero f (x ∷ xs) v h m = elim (Bool-cases (node_eq v x)) [
  | inl here ↦ ap f (node_eq-eq v x here) ∙ ground arith
  | inr other ↦ count-zero f xs v (ground arith) (ground arith)
]

-- What holds of the loop's state between two turns; `todo` are the nodes that are not ordered.
pub record Inv (nodes : List ActionIdentity) (successors : Successors) (s : Progress) : Type 0 where
  pub todo : List ActionIdentity
  pub todo_different : all_different todo ≡ true
  pub ordered_different : all_different s.ordered ≡ true
  pub parts : (v : ActionIdentity) → mem v nodes ≡ (mem v s.ordered || mem v todo)
  pub disjoint : (v : ActionIdentity) → mem v todo ≡ true → mem v s.ordered ≡ false
  pub sizes : length s.ordered + length todo ≡ length nodes
  pub counted : (d : ActionIdentity) → s.indegree d ≡ pending successors todo d
  pub ready_different : all_different s.ready ≡ true
  pub ready_exact : (v : ActionIdentity) → mem v s.ready ≡ (mem v todo && s.indegree v == 0)
  pub forward : IsForward successors [] s.ordered

without_prerequisites-mem :
    (f : ActionIdentity → ℕ) (xs : List ActionIdentity) (v : ActionIdentity)
    → mem v (without_prerequisites f xs) ≡ (mem v xs && f v == 0)
unfolding without_prerequisites mem
without_prerequisites-mem f [] v = refl
without_prerequisites-mem f (x ∷ xs) v = elim (Bool-cases (node_eq v x)) [
  | inl here ↦ ground (arith, ap f (node_eq-eq v x here), without_prerequisites-mem f xs v)
  | inr other ↦ ground (arith, without_prerequisites-mem f xs v)
]

without_prerequisites-different :
    (f : ActionIdentity → ℕ) (xs : List ActionIdentity)
    → all_different xs ≡ true
    → all_different (without_prerequisites f xs) ≡ true
unfolding without_prerequisites all_different
without_prerequisites-different f [] h = refl
without_prerequisites-different f (x ∷ xs) h =
    ground (arith, without_prerequisites-different f xs, without_prerequisites-mem f xs x)

pub start-Inv :
    (nodes : List ActionIdentity) (g : Graph)
    → all_different nodes ≡ true
    → IsGraph nodes g
    → Inv nodes g.successors (start nodes g)
unfolding mem all_different
start-Inv nodes g different i = record {
  todo = nodes;
  todo_different = different;
  ordered_different = refl;
  parts = λ v. refl;
  disjoint = λ v h. refl;
  sizes = omega arith;
  counted = i.counted;
  ready_different = without_prerequisites-different g.indegree nodes different;
  ready_exact = without_prerequisites-mem g.indegree nodes;
  forward = tt;
}

-- ===== src/Qualification/Planner/Sets.antt =====
-- The lists that stand for the sets, the sorted lists and the heap of qualification/planner.py.
use mercury_tools.Prelude.{
  suc, ◌≤◌, str_eq_iff, str_eq_refl, Bool, true, false, ◌||◌, none, some, List, [], ◌∷◌, ◌++◌,
  length, Bool-cases, inl, inr, ◌≡◌, refl, sym, ap, ◌∙◌, arith, subst,
}
use mercury_tools.Qualification.Planner.Sort.{
  ActionIdentity, node_eq, node_lt, mem, all_different, insert_sorted, sorted, without, least_from,
  pop_least,
}

pub node_eq-eq : (a b : ActionIdentity) → node_eq a b ≡ true → a ≡ b
node_eq-eq a b h =
    ground (arith, (str_eq_iff a.action_id b.action_id).0, (str_eq_iff a.version_id b.version_id).0)

pub apart : {b : Bool} → b ≡ true → ¬ (b ≡ false)
apart h k = cc (sym h ∙ k)

pub node_eq_refl : (a : ActionIdentity) → node_eq a a ≡ true
node_eq_refl a = ground (arith, str_eq_refl a.action_id, str_eq_refl a.version_id)

pub node_eq-false : (a b : ActionIdentity) → ¬ (a ≡ b) → node_eq a b ≡ false
node_eq-false a b h = elim (Bool-cases (node_eq a b)) [
  | inl e ↦ absurd (h (node_eq-eq a b e))
  | inr e ↦ e
]

pub node_eq_sym : (a b : ActionIdentity) → node_eq a b ≡ node_eq b a
node_eq_sym a b = elim (Bool-cases (node_eq a b)) [
  | inl e ↦ rw (node_eq-eq a b e) refl
  | inr e ↦ elim (Bool-cases (node_eq b a)) [
    | inl f ↦ rw (node_eq-eq b a f) refl
    | inr f ↦ e ∙ sym f
  ]
]

pub no_members : (xs : List ActionIdentity) → ((v : ActionIdentity) → mem v xs ≡ false) → xs ≡ []
unfolding mem
no_members [] h = refl
no_members (x ∷ xs) h = absurd (ground (arith, h x, node_eq_refl x))

pub length_zero : (xs : List ActionIdentity) → length xs ≤ 0 → xs ≡ []
length_zero [] h = refl
length_zero (x ∷ xs) h = absurd (omega (arith, h))

pub mem-nil : (v : ActionIdentity) (xs : List ActionIdentity) → xs ≡ [] → mem v xs ≡ false
unfolding mem
mem-nil v xs e = rw e refl

pub mem-append :
    (v : ActionIdentity) (xs ys : List ActionIdentity) → mem v (xs ++ ys) ≡ (mem v xs || mem v ys)
unfolding mem
mem-append v [] ys = refl
mem-append v (x ∷ xs) ys = ground (arith, mem-append v xs ys)

pub mem-without_other :
    (w v : ActionIdentity) (xs : List ActionIdentity)
    → node_eq w v ≡ false
    → mem w (without v xs) ≡ mem w xs
unfolding mem without
mem-without_other w v [] h = refl
mem-without_other w v (x ∷ xs) h = elim (Bool-cases (node_eq x v)) [
  | inl e ↦ ground (arith, ap (node_eq w) (node_eq-eq x v e))
  | inr e ↦ ground (arith, mem-without_other w v xs h)
]

pub mem-without :
    (w v : ActionIdentity) (xs : List ActionIdentity)
    → mem w (without v xs) ≡ true
    → mem w xs ≡ true
unfolding mem without
mem-without w v [] h = h
mem-without w v (x ∷ xs) h = ground (arith, mem-without w v xs)

pub mem-without_self :
    (v : ActionIdentity) (xs : List ActionIdentity)
    → all_different xs ≡ true
    → mem v (without v xs) ≡ false
unfolding mem without all_different
mem-without_self v [] h = refl
mem-without_self v (x ∷ xs) h = elim (Bool-cases (node_eq x v)) [
  | inl e ↦
      let free : mem x xs ≡ false = ground arith in
      rw e (subst (λ (w : ActionIdentity). mem w xs ≡ false) (node_eq-eq x v e) free)
  | inr e ↦ ground (arith, mem-without_self v xs, node_eq_sym v x)
]

pub different-without :
    (v : ActionIdentity) (xs : List ActionIdentity)
    → all_different xs ≡ true
    → all_different (without v xs) ≡ true
unfolding without all_different
different-without v [] h = refl
different-without v (x ∷ xs) h = elim (Bool-cases (node_eq x v)) [
  | inl e ↦ ground arith
  | inr e ↦ ground (arith, different-without v xs, mem-without_other x v xs e)
]

pub length-without :
    (v : ActionIdentity) (xs : List ActionIdentity)
    → mem v xs ≡ true
    → suc (length (without v xs)) ≡ length xs
unfolding mem without
length-without v [] h = absurd (ground arith)
length-without v (x ∷ xs) h = elim (Bool-cases (node_eq x v)) [
  | inl e ↦ rw e refl
  | inr e ↦ ground (arith, length-without v xs, node_eq_sym v x)
]

-- A list without repeats is no longer than a list that has all its nodes.
pub pigeonhole :
    (xs ys : List ActionIdentity)
    → all_different xs ≡ true
    → ((w : ActionIdentity) → mem w xs ≡ true → mem w ys ≡ true)
    → length xs ≤ length ys
unfolding mem all_different
pigeonhole [] ys d h = omega arith
pigeonhole (x ∷ xs) ys d h =
    let there : mem x ys ≡ true = h x (ground (arith, node_eq_refl x)) in
    let rest = pigeonhole xs (without x ys) (ground arith) (λ w m.
      let other : node_eq w x ≡ false = node_eq-false w x (λ e.
        absurd (apart (subst (λ (z : ActionIdentity). mem z xs ≡ true) e m) (ground arith))) in
      mem-without_other w x ys other ∙ h w (ground arith)) in
    omega (arith, rest, length-without x ys there)

pub mem-insert_sorted :
    (w v : ActionIdentity) (xs : List ActionIdentity)
    → mem w (insert_sorted v xs) ≡ (node_eq w v || mem w xs)
unfolding mem insert_sorted
mem-insert_sorted w v [] = refl
mem-insert_sorted w v (x ∷ xs) = ground (arith, mem-insert_sorted w v xs)

pub mem-sorted : (w : ActionIdentity) (xs : List ActionIdentity) → mem w (sorted xs) ≡ mem w xs
unfolding mem sorted
mem-sorted w [] = refl
mem-sorted w (x ∷ xs) =
    mem-insert_sorted w x (sorted xs) ∙ ap (λ b. node_eq w x || b) (mem-sorted w xs)

different-insert_sorted :
    (v : ActionIdentity) (xs : List ActionIdentity)
    → mem v xs ≡ false
    → all_different xs ≡ true
    → all_different (insert_sorted v xs) ≡ true
unfolding mem insert_sorted all_different
different-insert_sorted v [] m d = refl
different-insert_sorted v (x ∷ xs) m d =
    ground (arith, different-insert_sorted v xs, mem-insert_sorted x v xs, node_eq_sym v x)

pub different-sorted :
    (xs : List ActionIdentity) → all_different xs ≡ true → all_different (sorted xs) ≡ true
unfolding sorted all_different
different-sorted [] d = refl
different-sorted (x ∷ xs) d =
    different-insert_sorted x (sorted xs) (mem-sorted x xs ∙ ground arith)
      (different-sorted xs (ground arith))

pub different-snoc :
    (xs : List ActionIdentity) (v : ActionIdentity)
    → all_different xs ≡ true
    → mem v xs ≡ false
    → all_different (xs ++ v ∷ []) ≡ true
unfolding mem all_different
different-snoc [] v d m = refl
different-snoc (x ∷ xs) v d m =
    ground (arith, different-snoc xs v, mem-append x xs (v ∷ []), node_eq_sym v x)

mem-least_from :
    (v : ActionIdentity) (xs : List ActionIdentity) → mem (least_from v xs) (v ∷ xs) ≡ true
unfolding mem least_from
mem-least_from v [] = ground (arith, node_eq_refl v)
mem-least_from v (x ∷ xs) = elim (Bool-cases (node_lt x v)) [
  | inl e ↦ ground (arith, mem-least_from x xs)
  | inr e ↦ ground (arith, mem-least_from v xs)
]

-- What `heappop` takes is in the heap, and the rest stays.
pub pop_least-some :
    (xs : List ActionIdentity) {v : ActionIdentity} {rest : List ActionIdentity}
    → pop_least xs ≡ some (v, rest)
    → (mem v xs ≡ true) × (rest ≡ without v xs)
unfolding pop_least
pop_least-some [] h = absurd (ground arith)
pop_least-some (x ∷ xs) {v} {rest} h =
    let same : least_from x xs ≡ v = ground arith in
    let kept : without (least_from x xs) (x ∷ xs) ≡ rest = ground arith in
    (
      ap (λ (w : ActionIdentity). mem w (x ∷ xs)) (sym same) ∙ mem-least_from x xs,
      sym kept ∙ ap (λ (w : ActionIdentity). without w (x ∷ xs)) same,
    )

pub pop_least-none : (xs : List ActionIdentity) → pop_least xs ≡ none → xs ≡ []
unfolding pop_least
pop_least-none [] h = refl
pop_least-none (x ∷ xs) h = absurd (ground arith)

-- ===== src/Reconciliation/Identifiers.antt =====
-- The identifiers of the transactions in reconciliation/matcher.py.
use mercury_tools.Prelude.{
  suc, ◌≤◌, String, str_eq, str_eq_iff, str_eq_refl, Bool, true, false, not, ◌&&◌, ◌||◌, List, [],
  ◌∷◌, map, length, if◌then◌else◌, Bool-cases, inl, inr, All, All-map, ◌≡◌, refl, ap, arith, subst,
}
use mercury_tools.Reconciliation.Candidates.{Candidate}
use mercury_tools.Reconciliation.Costs.{insert_id, sorted_ids}

abbrev pub has : String → List String → Bool
has v [] = false
has v (x ∷ xs) = str_eq v x || has v xs

abbrev pub are_different : List String → Bool
are_different [] = true
are_different (x ∷ xs) = not (has x xs) && are_different xs

abbrev remove_first : String → List String → List String
remove_first v [] = []
remove_first v (x ∷ xs) = if str_eq v x then xs else x ∷ remove_first v xs

length-remove_first :
    (v : String) (xs : List String) → has v xs ≡ true → suc (length (remove_first v xs)) ≡ length xs
length-remove_first v [] h = absurd (ground arith)
length-remove_first v (x ∷ xs) h = elim (Bool-cases (str_eq v x)) [
  | inl e ↦ rw e refl
  | inr e ↦ rw e (ap suc (length-remove_first v xs (ground arith)))
]

has-remove_first :
    (v w : String) (xs : List String)
    → str_eq v w ≡ false
    → has w xs ≡ true
    → has w (remove_first v xs) ≡ true
has-remove_first v w [] d h = h
has-remove_first v w (x ∷ xs) d h = elim (Bool-cases (str_eq v x)) [
  | inl e ↦ rw e (
      ground (
        arith,
        subst (λ (z : String). str_eq z w ≡ false) ((str_eq_iff v x).0 e) d,
        str_eq_iff w x,
        str_eq_iff x w,
      ))
  | inr e ↦ ground (arith, has-remove_first v w xs d)
]

others_differ :
    (id : Candidate → String) (v : String) (cs : List Candidate)
    → has v (map id cs) ≡ false
    → All (λ (c : Candidate). str_eq v (id c) ≡ false) cs
others_differ id v [] h = tt
others_differ id v (c ∷ cs) h = (ground arith, others_differ id v cs (ground arith))

kept_in :
    (id : Candidate → String) (v : String) (ys : List String) (cs : List Candidate)
    → All (λ (c : Candidate). str_eq v (id c) ≡ false) cs
    → All (λ (c : Candidate). has (id c) ys ≡ true) cs
    → All (λ (c : Candidate). has (id c) (remove_first v ys) ≡ true) cs
kept_in id v ys [] d h = tt
kept_in id v ys (c ∷ cs) d h = (has-remove_first v (id c) ys d.0 h.0, kept_in id v ys cs d.1 h.1)

-- Candidates with different identifiers are no more than a list that has their identifiers is long.
pub length-different :
    (id : Candidate → String) (cs : List Candidate) (ys : List String)
    → are_different (map id cs) ≡ true
    → All (λ (c : Candidate). has (id c) ys ≡ true) cs
    → length cs ≤ length ys
length-different id [] ys d h = omega arith
length-different id (c ∷ cs) ys d h =
    let apart = others_differ id (id c) cs (ground arith) in
    let rest =
      length-different id cs (remove_first (id c) ys) (ground arith)
        (kept_in id (id c) ys cs apart h.1) in
    omega (arith, rest, length-remove_first (id c) ys h.0)

has-insert_id :
    (w v : String) (xs : List String) → has w (insert_id v xs) ≡ (str_eq w v || has w xs)
unfolding insert_id
has-insert_id w v [] = refl
has-insert_id w v (x ∷ xs) = elim (Bool-cases (str_eq v x)) [
  | inl e ↦ ground (arith, ap (str_eq w) ((str_eq_iff v x).0 e))
  | inr e ↦ ground (arith, has-insert_id w v xs)
]

pub sorted_ids-has :
    (id : Candidate → String) (xs : List Candidate)
    → All (λ (c : Candidate). has (id c) (sorted_ids id xs) ≡ true) xs
unfolding sorted_ids
sorted_ids-has id [] = tt
sorted_ids-has id (x ∷ xs) = (
  ground (arith, has-insert_id (id x) (id x) (sorted_ids id xs), str_eq_refl (id x)),
  All-map
      (λ (c : Candidate) (h : has (id c) (sorted_ids id xs) ≡ true).
        ground (arith, has-insert_id (id c) (id x) (sorted_ids id xs)))
      xs (sorted_ids-has id xs),
)

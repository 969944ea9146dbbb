-- ===== src/Reconciliation/Partition.antt =====
-- What the partition of duplicates of reconciliation/matcher.py keeps of its rows.
use mercury_tools.Prelude.{
  ℕ, ◌+◌, ◌≤◌, String, Bool, List, [], ◌∷◌, ◌++◌, map, length, Bool-cases, inl, inr, ◌⊎◌, ◌≡◌, refl,
  sym, ap, ◌∙◌, arith,
}
use mercury_tools.Reconciliation.Candidates.{CanonicalTransaction}
use mercury_tools.Reconciliation.Duplicates.{
  Side, DuplicateEvidence, Group, same_duplicate_key, transaction_lt, insert_row, sort_rows,
  place_row, group_rows, ordered_group, head_of, canonical_row, evidence_of, if_several,
  group_evidence, evidence_lt, partition_duplicates,
}

module _ {A : Type 0} (h : A → ℕ) where
  abbrev pub sum_of : List A → ℕ
  sum_of [] = 0
  sum_of (x ∷ xs) = h x + sum_of xs

  sum_of-append : (xs ys : List A) → sum_of (xs ++ ys) ≡ sum_of xs + sum_of ys
  sum_of-append [] ys = omega arith
  sum_of-append (x ∷ xs) ys = omega (arith, sum_of-append xs ys)

  sum_of-insert_row :
      (lt : A → A → Bool) (x : A) (ys : List A) → sum_of (insert_row lt x ys) ≡ h x + sum_of ys
  unfolding insert_row
  sum_of-insert_row lt x [] = refl
  sum_of-insert_row lt x (y ∷ ys) = elim (Bool-cases (lt y x)) [
    | inl e ↦ rw e (omega (arith, sum_of-insert_row lt x ys))
    | inr e ↦ rw e refl
  ]

  sum_of-sort_rows : (lt : A → A → Bool) (xs : List A) → sum_of (sort_rows lt xs) ≡ sum_of xs
  unfolding sort_rows
  sum_of-sort_rows lt [] = refl
  sum_of-sort_rows lt (x ∷ xs) =
      sum_of-insert_row lt x (sort_rows lt xs) ∙ ap (λ n. h x + n) (sum_of-sort_rows lt xs)

abbrev pub rest_of : List String → List String
rest_of [] = []
rest_of (x ∷ xs) = xs

-- The identifiers of an evidence without the canonical one, which is the first.
abbrev pub duplicate_ids : DuplicateEvidence → List String
duplicate_ids e = rest_of e.transaction_ids

abbrev pub weight : (String → ℕ) → CanonicalTransaction → ℕ
weight h row = h row.transaction_id

insert_row-some :
    (x : CanonicalTransaction) (ys : List CanonicalTransaction)
    → 1 ≤ length (insert_row transaction_lt x ys)
unfolding insert_row
insert_row-some x [] = omega arith
insert_row-some x (y ∷ ys) = elim (Bool-cases (transaction_lt y x)) [
  | inl e ↦ rw e (omega arith)
  | inr e ↦ rw e (omega arith)
]

ordered_group-some : (g : Group) → 1 ≤ length (ordered_group g)
unfolding ordered_group sort_rows
ordered_group-some g = insert_row-some g.first (sort_rows transaction_lt g.others)

list_cases :
    (xs : List CanonicalTransaction)
    → (xs ≡ [])
      ⊎ ((x : CanonicalTransaction) × (rest : List CanonicalTransaction) × (xs ≡ x ∷ rest))
list_cases [] = inl refl
list_cases (x ∷ xs) = inr (x, xs, refl)

group_evidence-single :
    (side : Side) (g : Group) (gs : List Group)
    → g.others ≡ []
    → group_evidence side (g ∷ gs) ≡ group_evidence side gs
unfolding group_evidence
group_evidence-single side g gs e =
    ap (λ others. if_several others (evidence_of side g) (group_evidence side gs)) e

group_evidence-several :
    (side : Side) (g : Group) (gs : List Group) (x : CanonicalTransaction)
    (xs : List CanonicalTransaction)
    → g.others ≡ x ∷ xs
    → group_evidence side (g ∷ gs) ≡ evidence_of side g ∷ group_evidence side gs
unfolding group_evidence
group_evidence-several side g gs x xs e =
    ap (λ others. if_several others (evidence_of side g) (group_evidence side gs)) e

canonical_row-single : (g : Group) → g.others ≡ [] → canonical_row g ≡ g.first
unfolding ordered_group sort_rows insert_row
canonical_row-single g e = rw (e, sort_rows, insert_row) refl

module _ (h : String → ℕ) where
  abbrev members : Group → ℕ
  members g = weight h g.first + sum_of (weight h) g.others

  place_row-members :
      (row : CanonicalTransaction) (gs : List Group)
      → sum_of members (place_row row gs) ≡ weight h row + sum_of members gs
  unfolding place_row
  place_row-members row [] = omega arith
  place_row-members row (g ∷ gs) = elim (Bool-cases (same_duplicate_key g.first row)) [
    | inl e ↦ rw e (omega (arith, sum_of-append (weight h) g.others (row ∷ [])))
    | inr e ↦ rw e (omega (arith, place_row-members row gs))
  ]

  group_rows-members :
      (gs : List Group) (rows : List CanonicalTransaction)
      → sum_of members (group_rows gs rows) ≡ sum_of members gs + sum_of (weight h) rows
  unfolding group_rows
  group_rows-members gs [] = omega arith
  group_rows-members gs (row ∷ rows) =
      omega (arith, group_rows-members (place_row row gs) rows, place_row-members row gs)

  ids_weight :
      (xs : List CanonicalTransaction)
      → sum_of h (map (λ (row : CanonicalTransaction). row.transaction_id) xs)
        ≡ sum_of (weight h) xs
  ids_weight [] = refl
  ids_weight (x ∷ xs) = ap (λ n. weight h x + n) (ids_weight xs)

  -- A list of rows is its head and the others.
  head_and_rest :
      (first : CanonicalTransaction) (xs : List CanonicalTransaction)
      → 1 ≤ length xs
      → sum_of (weight h) xs
        ≡ weight h (head_of first xs)
          + sum_of h (rest_of (map (λ (row : CanonicalTransaction). row.transaction_id) xs))
  head_and_rest first [] few = absurd (omega (arith, few))
  head_and_rest first (x ∷ xs) few = ap (λ n. weight h x + n) (sym (ids_weight xs))

  ordered_group-members : (g : Group) → sum_of (weight h) (ordered_group g) ≡ members g
  unfolding ordered_group
  ordered_group-members g = sum_of-sort_rows (weight h) transaction_lt (g.first ∷ g.others)

  group_parts :
      (side : Side) (g : Group)
      → members g ≡ weight h (canonical_row g) + sum_of h (duplicate_ids (evidence_of side g))
  group_parts side g =
      sym (ordered_group-members g) ∙ head_and_rest g.first (ordered_group g) (ordered_group-some g)

  abbrev duplicates : DuplicateEvidence → ℕ
  duplicates e = sum_of h (duplicate_ids e)

  groups_parts :
      (side : Side) (gs : List Group)
      → sum_of members gs
        ≡ sum_of (weight h) (map canonical_row gs) + sum_of duplicates (group_evidence side gs)
  unfolding group_evidence
  groups_parts side [] = refl
  groups_parts side (g ∷ gs) = elim (list_cases g.others) [
    | inl e ↦ omega (
      arith,
      groups_parts side gs,
      ap (sum_of duplicates) (group_evidence-single side g gs e),
      ap (weight h) (canonical_row-single g e),
      ap (sum_of (weight h)) e,
    )
    | inr (x, xs, e) ↦ omega (
      arith,
      groups_parts side gs,
      group_parts side g,
      ap (sum_of duplicates) (group_evidence-several side g gs x xs e),
    )
  ]

  -- The partition loses no row and adds none: whatever is counted of identifiers, the rows have what the
  -- canonical rows and the duplicates of the evidence have together.
  pub partition_duplicates-weight :
      (side : Side) (rows : List CanonicalTransaction)
      → sum_of (weight h) (partition_duplicates side rows).0
          + sum_of
              (λ (e : DuplicateEvidence). sum_of h (duplicate_ids e))
              (partition_duplicates side rows).1
        ≡ sum_of (weight h) rows
  unfolding partition_duplicates
  partition_duplicates-weight side rows =
      let groups = group_rows [] rows in
      omega (
        arith,
        sum_of-sort_rows (weight h) transaction_lt (map canonical_row groups),
        sum_of-sort_rows duplicates evidence_lt (group_evidence side groups),
        groups_parts side groups,
        group_rows-members [] rows,
      )

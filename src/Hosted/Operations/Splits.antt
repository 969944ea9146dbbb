-- ===== src/Hosted/Operations/Splits.antt =====
-- The item that `HostedOperation.transition_item` finds, and the items after it is replaced.
use mercury_tools.Prelude.{
  ℕ, suc, ◌+◌, true, false, some, List, [], ◌∷◌, ◌++◌, ◌==◌, ◌≡◌, refl, ap, inl, inr, arith,
  Bool-cases, All, subst,
}
use mercury_tools.Hosted.Transitions.{OperationItemState as Item}
use mercury_tools.Hosted.Operations.Models.{OperationItem, item_states, item_ids}
use mercury_tools.Hosted.Operations.Moves.{matches_from, only_match, set_at}

abbrev pub IsOther : ℕ → OperationItem → Type 0
IsOther id i = (i.operation_item_id == id) ≡ false

-- The items around the one at an index, none of which has its identifier.
pub record Split (id : ℕ) (items : List OperationItem) (k : ℕ) (current : OperationItem)
    : Type 0 where
  pub before : List OperationItem
  pub after : List OperationItem
  pub whole : items ≡ before ++ current ∷ after
  pub found : (current.operation_item_id == id) ≡ true
  pub others_before : All (IsOther id) before
  pub others_after : All (IsOther id) after
  pub replaced : (new : OperationItem) → set_at k new items ≡ before ++ new ∷ after

matches_from-others :
    (n id : ℕ) (items : List OperationItem) → matches_from n id items ≡ [] → All (IsOther id) items
unfolding matches_from
matches_from-others n id [] h = tt
matches_from-others n id (i ∷ is) h = elim (Bool-cases (i.operation_item_id == id)) [
  | inl e ↦ absurd (ground arith)
  | inr e ↦ (e, matches_from-others (suc n) id is (ground arith))
]

Split-here :
    (n id : ℕ) (i : OperationItem) (is : List OperationItem) (rest : List (ℕ × OperationItem))
    {m : ℕ} {current : OperationItem}
    → matches_from (suc n) id is ≡ rest
    → (i.operation_item_id == id) ≡ true
    → only_match ((n, i) ∷ rest) ≡ some (m, current)
    → (m ≡ n) × Split id (i ∷ is) 0 current
unfolding set_at
Split-here n id i is [] {m} {current} r e h =
    let same : i ≡ current = cc h in
    (
      cc h,
      subst (λ (x : OperationItem). Split id (i ∷ is) 0 x) same
          (record {
            before = [];
            after = is;
            whole = refl;
            found = e;
            others_before = tt;
            others_after = matches_from-others (suc n) id is r;
            replaced = λ new. refl;
          }),
    )
Split-here n id i is (x ∷ rest) r e h = absurd (ground arith)

Split-next :
    {id : ℕ} {i : OperationItem} {is : List OperationItem} {k : ℕ} {current : OperationItem}
    → IsOther id i
    → Split id is k current
    → Split id (i ∷ is) (suc k) current
unfolding set_at
Split-next {id} {i} {is} {k} {current} o s = record {
  before = i ∷ s.before;
  after = s.after;
  whole = ap (λ (xs : List OperationItem). i ∷ xs) s.whole;
  found = s.found;
  others_before = (o, s.others_before);
  others_after = s.others_after;
  replaced = λ new. ap (λ (xs : List OperationItem). i ∷ xs) (s.replaced new);
}

matches_from-index :
    (n id : ℕ) (items : List OperationItem) {m : ℕ} {current : OperationItem}
    → only_match (matches_from n id items) ≡ some (m, current)
    → (k : ℕ) × (m ≡ n + k) × Split id items k current
unfolding matches_from
matches_from-index n id [] h = absurd (ground arith)
matches_from-index n id (i ∷ is) {m} {current} h = elim (Bool-cases (i.operation_item_id == id)) [
  | inl e ↦
      let front : only_match ((n, i) ∷ matches_from (suc n) id is) ≡ some (m, current) =
        simp e at h in
      let (place, s) = Split-here n id i is (matches_from (suc n) id is) refl e front in
      (0, omega (arith, place), s)
  | inr e ↦
      let tail : only_match (matches_from (suc n) id is) ≡ some (m, current) = simp e at h in
      let (k, place, s) = matches_from-index (suc n) id is tail in
      (suc k, omega (arith, place), Split-next e s)
]

-- The only match is at its index, and every other item has another identifier.
pub match-Split :
    (id : ℕ) (items : List OperationItem) {k : ℕ} {current : OperationItem}
    → only_match (matches_from 0 id items) ≡ some (k, current)
    → Split id items k current
match-Split id items {k} {current} h =
    let (j, place, s) = matches_from-index 0 id items h in
    let same : j ≡ k = omega (arith, place) in subst (λ (x : ℕ). Split id items x current) same s

pub item_states-append :
    (before : List OperationItem) (i : OperationItem) (after : List OperationItem)
    → item_states (before ++ i ∷ after) ≡ item_states before ++ i.state ∷ item_states after
item_states-append [] i after = refl
item_states-append (x ∷ before) i after =
    ap (λ (xs : List Item). x.state ∷ xs) (item_states-append before i after)

pub item_ids-append :
    (before : List OperationItem) (i j : OperationItem) (after : List OperationItem)
    → i.operation_item_id ≡ j.operation_item_id
    → item_ids (before ++ i ∷ after) ≡ item_ids (before ++ j ∷ after)
item_ids-append [] i j after e = rw e refl
item_ids-append (x ∷ before) i j after e =
    ap (λ (xs : List ℕ). x.operation_item_id ∷ xs) (item_ids-append before i j after e)

-- ===== src/Reconciliation/Costs.antt =====
-- `_candidate_costs` of reconciliation/matcher.py: one integer for the quality of a candidate.
use mercury_tools.Prelude.{
  ℕ, suc, ◌+◌, ◌-◌, ◌*◌, ◌^◌, String, str_eq, str_lt, List, [], ◌∷◌, map, length, ltb, leb,
  if◌then◌else◌,
}
use mercury_tools.Reconciliation.Candidates.{Candidate, sort_by, pair_lt}

unfoldable pub insert_id : String → List String → List String
insert_id v [] = v ∷ []
insert_id v (x ∷ xs) =
    let rest = insert_id v xs in
    if str_eq v x then x ∷ xs else if str_lt v x then v ∷ x ∷ xs else x ∷ rest

-- `sorted({… for item in pair_order})`
unfoldable pub sorted_ids : (Candidate → String) → List Candidate → List String
sorted_ids id [] = []
sorted_ids id (c ∷ cs) = insert_id (id c) (sorted_ids id cs)

abbrev pub left_id : Candidate → String
left_id c = c.left.transaction_id

abbrev pub right_id : Candidate → String
right_id c = c.right.transaction_id

-- The index of an identifier in a sorted list of them.
unfoldable pub index_of : String → List String → ℕ
index_of v [] = 0
index_of v (x ∷ xs) = let rest = index_of v xs in if str_eq v x then 0 else suc rest

unfoldable pub maximum : (Candidate → ℕ) → List Candidate → ℕ
maximum f [] = 0
maximum f (c ∷ cs) = let rest = maximum f cs in if ltb (f c) rest then rest else f c

abbrev pub amount_cost : Candidate → ℕ
amount_cost c = c.quality.amount_difference

abbrev pub date_cost : Candidate → ℕ
date_cost c = c.quality.date_difference_days

abbrev pub max_flow : List Candidate → ℕ
max_flow pair_order =
    let lefts = length (sorted_ids left_id pair_order) in
    let rights = length (sorted_ids right_id pair_order) in
    if leb lefts rights then lefts else rights

-- `left_stable_weights` at an index.
abbrev pub left_stable_weight : List Candidate → ℕ → ℕ
left_stable_weight pair_order index =
    (length (sorted_ids right_id pair_order) + 1)
    ^ (length (sorted_ids left_id pair_order) - index - 1)

abbrev pub stable_shift : List Candidate → ℕ
stable_shift pair_order = length (sorted_ids right_id pair_order) * left_stable_weight pair_order 0

abbrev pub date_weight : List Candidate → ℕ
date_weight pair_order = max_flow pair_order * stable_shift pair_order + 1

abbrev pub amount_weight : List Candidate → ℕ
amount_weight pair_order =
    (max_flow pair_order * maximum date_cost pair_order + 1) * date_weight pair_order

abbrev pub counterparty_weight : List Candidate → ℕ
counterparty_weight pair_order =
    (max_flow pair_order * maximum amount_cost pair_order + 1) * amount_weight pair_order

abbrev pub reference_weight : List Candidate → ℕ
reference_weight pair_order = (max_flow pair_order + 1) * counterparty_weight pair_order

abbrev pub classification_weight : List Candidate → ℕ
classification_weight pair_order = (max_flow pair_order + 1) * reference_weight pair_order

-- A rank is below the number of identifiers and no weight above the first, so that what is taken from
-- the shift is at most the shift.
unfoldable pub stable_cost : List Candidate → Candidate → ℕ
stable_cost pair_order c =
    let right_ids = sorted_ids right_id pair_order in
    let left_weight =
      left_stable_weight pair_order (index_of (left_id c) (sorted_ids left_id pair_order)) in
    stable_shift pair_order - (length right_ids - index_of (right_id c) right_ids) * left_weight

unfoldable pub candidate_cost : List Candidate → Candidate → ℕ
candidate_cost pair_order c =
    c.quality.classification_rank * classification_weight pair_order
    + c.quality.reference_rank * reference_weight pair_order
    + c.quality.counterparty_rank * counterparty_weight pair_order
    + amount_cost c * amount_weight pair_order
    + date_cost c * date_weight pair_order
    + stable_cost pair_order c

-- `_candidate_costs`: the pairs of identifiers with their costs, for candidates that are not empty.
unfoldable pub candidate_costs : List Candidate → List ((String × String) × ℕ)
candidate_costs candidates =
    let pair_order = sort_by pair_lt candidates in
    map (λ c. ((left_id c, right_id c), candidate_cost pair_order c)) pair_order

-- ===== src/Reconciliation/Bounds.antt =====
-- The part of a cost for the place in reconciliation/matcher.py is never negative.
use mercury_tools.Prelude.{ℕ, ◌+◌, ◌-◌, ◌*◌, ◌≤◌, List, length, ◌≡◌, arith}
use native.Mathlib.Nat.{pow-le-pow_right}
use mercury_tools.Reconciliation.Radix.{mult_mono}
use mercury_tools.Reconciliation.Candidates.{Candidate}
use mercury_tools.Reconciliation.Costs.{
  sorted_ids, left_id, right_id, index_of, left_stable_weight, stable_shift, stable_cost,
}

product_mono : (a b w v : ℕ) → a ≤ b → w ≤ v → a * w ≤ b * v
product_mono a b w v h k = omega (arith, mult_mono a b w h, mult_mono w v b k)

restored : (s t : ℕ) → t ≤ s → s - t + t ≡ s
restored s t h = omega (arith, h)

-- The cost of a place and what the code takes from the shift for it add up to the shift, so that the
-- integer of the code is not negative.
pub stable_cost-stable_shift :
    (pair_order : List Candidate) (c : Candidate)
    → stable_cost pair_order c
        + (length (sorted_ids right_id pair_order)
            - index_of (right_id c) (sorted_ids right_id pair_order))
          * left_stable_weight pair_order (index_of (left_id c) (sorted_ids left_id pair_order))
      ≡ stable_shift pair_order
unfolding stable_cost
stable_cost-stable_shift pair_order c =
    let rights = length (sorted_ids right_id pair_order) in
    let lefts = length (sorted_ids left_id pair_order) in
    let l = index_of (left_id c) (sorted_ids left_id pair_order) in
    let r = index_of (right_id c) (sorted_ids right_id pair_order) in
    restored (stable_shift pair_order) ((rights - r) * left_stable_weight pair_order l) (
      product_mono (rights - r) rights (left_stable_weight pair_order l)
        (left_stable_weight pair_order 0) (omega arith)
        (pow-le-pow_right {n = rights + 1} (omega arith) (omega arith)))

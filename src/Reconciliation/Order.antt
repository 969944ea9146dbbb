-- ===== src/Reconciliation/Order.antt =====
-- What the costs of reconciliation/matcher.py compare: two assignments by their total qualities.
use mercury_tools.Prelude.{
  ℕ, ◌≤◌, String, Bool, true, List, map, length, leb, if◌then◌else◌, ◌≡◌, arith,
}
use mercury_tools.Reconciliation.Radix.{IsAtMost}
use mercury_tools.Reconciliation.Candidates.{CanonicalTransaction, ReconciliationPolicy, Candidate}
use mercury_tools.Reconciliation.Costs.{sorted_ids, left_id, right_id, max_flow, candidate_cost}
use mercury_tools.Reconciliation.Flags.{pair_order_of, pair_order_of-HasFlags}
use mercury_tools.Reconciliation.Weights.{chosen, sum, totals, All-chosen, costs_compare}
use mercury_tools.Reconciliation.Identifiers.{has, are_different, length-different, sorted_ids-has}

-- No two candidates share a transaction of a side.
pub record IsOneToOne (cs : List Candidate) : Type 0 where
  pub lefts : are_different (map left_id cs) ≡ true
  pub rights : are_different (map right_id cs) ≡ true

ids_few :
    (id : Candidate → String) (f : Candidate → Bool) (xs : List Candidate)
    → are_different (map id (chosen f xs)) ≡ true
    → length (chosen f xs) ≤ length (sorted_ids id xs)
ids_few id f xs different =
    length-different id (chosen f xs) (sorted_ids id xs) different
      (All-chosen (λ c. has (id c) (sorted_ids id xs) ≡ true) f xs (sorted_ids-has id xs))

least_of : (n a b : ℕ) → n ≤ a → n ≤ b → n ≤ (if leb a b then a else b)
least_of n a b h k = ground arith

few :
    (f : Candidate → Bool) (xs : List Candidate)
    → IsOneToOne (chosen f xs)
    → length (chosen f xs) ≤ max_flow xs
few f xs one =
    least_of (length (chosen f xs)) (length (sorted_ids left_id xs))
      (length (sorted_ids right_id xs)) (ids_few left_id f xs one.lefts)
      (ids_few right_id f xs one.rights)

-- For two one-to-one assignments of the candidates, the one that costs no more has totals that come no
-- later: first the number of differences, then of references and of counterparties that do not match,
-- then cents, then days, and last the costs of the places.
pub candidate_cost-IsAtMost :
    (lefts rights : List CanonicalTransaction) (policy : ReconciliationPolicy)
    (f g : Candidate → Bool)
    → IsOneToOne (chosen f (pair_order_of lefts rights policy))
    → IsOneToOne (chosen g (pair_order_of lefts rights policy))
    → sum
        (candidate_cost (pair_order_of lefts rights policy))
        (chosen f (pair_order_of lefts rights policy))
      ≤ sum
          (candidate_cost (pair_order_of lefts rights policy))
          (chosen g (pair_order_of lefts rights policy))
    → IsAtMost
        (totals (pair_order_of lefts rights policy) (chosen f (pair_order_of lefts rights policy)))
        (totals (pair_order_of lefts rights policy) (chosen g (pair_order_of lefts rights policy)))
candidate_cost-IsAtMost lefts rights policy f g one_f one_g =
    let pair_order = pair_order_of lefts rights policy in
    costs_compare pair_order (pair_order_of-HasFlags lefts rights policy) f g
      (few f pair_order one_f) (few g pair_order one_g)

-- ===== src/Reconciliation/Tests.antt =====
-- Runs of reconciliation/matcher.py on two rows of each side, and the theorem about the costs there.
use mercury_tools.Prelude.{
  ℕ, ◌+◌, ◌≤◌, String, Bool, true, not, ◌==◌, none, some, List, [], ◌∷◌, length, ◌≡◌, refl, arith,
  same_text,
}
use mercury_tools.Execution.Policy.Effects.{casefold, is_upper, is_space, lstrip, rstrip}
use mercury_tools.Reconciliation.Radix.{IsAtMost}
use mercury_tools.Reconciliation.Candidates.{
  pos, CanonicalTransaction, ReconciliationPolicy, Candidate, collapse_spaces, text_key, keys_match,
  candidate_of, candidate_for, row_candidates, pair_candidates, insert_by, sort_by, pair_lt,
  rank_lt, score_candidates,
}
use mercury_tools.Reconciliation.Costs.{
  insert_id, sorted_ids, index_of, maximum, stable_cost, candidate_cost,
}
use mercury_tools.Reconciliation.Flags.{pair_order_of}
use mercury_tools.Reconciliation.Weights.{chosen, sum, totals}
use mercury_tools.Reconciliation.Duplicates.{
  Side, DuplicateEvidence, same_duplicate_key, transaction_lt, insert_row, sort_rows, place_row,
  group_rows, ordered_group, unique_after, all_refs, group_evidence, partition_duplicates,
}
use mercury_tools.Reconciliation.Partition.{
  sum_of, weight, duplicate_ids, partition_duplicates-weight,
}
use mercury_tools.Reconciliation.Order.{IsOneToOne, candidate_cost-IsAtMost}

abbrev row : String → ℕ → ℕ → CanonicalTransaction
row transaction_id cents day = record {
  transaction_id = transaction_id;
  source = "bank";
  amount = pos cents;
  currency = "THB";
  transaction_date = day;
  reference = some " Inv  7";
  counterparty_key = none;
  document_state = "posted";
  evidence_refs = transaction_id ∷ [];
}

abbrev policy : ReconciliationPolicy
policy = record {
  amount_tolerance = 0;
  difference_tolerance = 500;
  date_tolerance_days = 3;
  require_document_state_match = true;
  require_identity_match = true;
}

abbrev lefts : List CanonicalTransaction
lefts = row "l1" 1000 10 ∷ row "l2" 1200 11 ∷ []

abbrev rights : List CanonicalTransaction
rights = row "r1" 1200 11 ∷ row "r2" 1000 12 ∷ []

-- The pairs of equal amounts, and the others.
abbrev equal_amounts : Candidate → Bool
equal_amounts c = c.quality.classification_rank == 0

abbrev other_amounts : Candidate → Bool
other_amounts c = not (c.quality.classification_rank == 0)

equal-IsOneToOne : IsOneToOne (chosen equal_amounts (pair_order_of lefts rights policy))
unfolding score_candidates pair_candidates row_candidates candidate_for candidate_of keys_match
    text_key collapse_spaces casefold is_upper is_space lstrip rstrip same_text sort_by insert_by
    rank_lt pair_lt
equal-IsOneToOne = record { lefts = refl; rights = refl }

other-IsOneToOne : IsOneToOne (chosen other_amounts (pair_order_of lefts rights policy))
unfolding score_candidates pair_candidates row_candidates candidate_for candidate_of keys_match
    text_key collapse_spaces casefold is_upper is_space lstrip rstrip same_text sort_by insert_by
    rank_lt pair_lt
other-IsOneToOne = record { lefts = refl; rights = refl }

abbrev two : ℕ
two = 2

two_of_four :
    (length (pair_order_of lefts rights policy) ≡ 4)
    × (length (chosen equal_amounts (pair_order_of lefts rights policy)) ≡ two)
unfolding score_candidates pair_candidates row_candidates candidate_for candidate_of keys_match
    text_key collapse_spaces casefold is_upper is_space lstrip rstrip same_text sort_by insert_by
    rank_lt pair_lt
two_of_four = (refl, refl)

equal_cheaper :
    sum
      (candidate_cost (pair_order_of lefts rights policy))
      (chosen equal_amounts (pair_order_of lefts rights policy))
    ≤ sum
        (candidate_cost (pair_order_of lefts rights policy))
        (chosen other_amounts (pair_order_of lefts rights policy))
unfolding score_candidates pair_candidates row_candidates candidate_for candidate_of keys_match
    text_key collapse_spaces casefold is_upper is_space lstrip rstrip same_text sort_by insert_by
    rank_lt pair_lt candidate_cost stable_cost sorted_ids insert_id index_of maximum
equal_cheaper = omega arith

candidate_cost-IsAtMost_example :
    IsAtMost
      (totals
        (pair_order_of lefts rights policy)
        (chosen equal_amounts (pair_order_of lefts rights policy)))
      (totals
        (pair_order_of lefts rights policy)
        (chosen other_amounts (pair_order_of lefts rights policy)))
candidate_cost-IsAtMost_example =
    candidate_cost-IsAtMost lefts rights policy equal_amounts other_amounts equal-IsOneToOne
      other-IsOneToOne equal_cheaper

abbrev repeated : List CanonicalTransaction
repeated = row "b" 1000 10 ∷ row "c" 1200 11 ∷ row "a" 1000 10 ∷ []

repeated_parts : partition_duplicates Side.left repeated ≡ (
  row "a" 1000 10 ∷ row "c" 1200 11 ∷ [],
  record {
    side = Side.left;
    canonical_transaction_id = "a";
    transaction_ids = "a" ∷ "b" ∷ [];
    evidence_refs = "a" ∷ "b" ∷ [];
  }
      ∷ [],
)
unfolding partition_duplicates group_rows place_row same_duplicate_key text_key collapse_spaces
    casefold is_upper is_space lstrip rstrip same_text ordered_group sort_rows insert_row
    transaction_lt group_evidence unique_after all_refs
repeated_parts = refl

partition_duplicates-weight_example :
    sum_of (weight (λ (id : String). 1)) (partition_duplicates Side.left repeated).0
      + sum_of
          (λ (e : DuplicateEvidence). sum_of (λ (id : String). 1) (duplicate_ids e))
          (partition_duplicates Side.left repeated).1
    ≡ sum_of (weight (λ (id : String). 1)) repeated
partition_duplicates-weight_example =
    partition_duplicates-weight (λ (id : String). 1) Side.left repeated

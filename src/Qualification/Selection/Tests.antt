-- ===== src/Qualification/Selection/Tests.antt =====
-- Evidence of qualification/selection.py at concrete inputs, and the theorems at it.
use mercury_tools.Prelude.{
  ℕ, String, true, false, not, ◌||◌, none, some, List, [], ◌∷◌, all, any, ok, leb, ◌≡◌, ◌⊎◌, refl,
}
use mercury_tools.Qualification.RunStore.Models.{QualificationRunState}
use mercury_tools.Qualification.Selection.{
  ValidationStatus, contract_validated, ValidationKnowledge, EvidenceOutcome, contract_only,
  EvidenceRequest, EvidenceSelection, matches, valid_record, is_current, is_later, is_live,
  is_contract, select, insert, sort, find_first, collect_conditions, blocking_conditions,
  of_contract, of_live, select_ordered, select_evidence,
}
use mercury_tools.Qualification.Selection.Laws.{outcome_of, select_evidence-outcome}
use mercury_tools.Qualification.Selection.Latest.{Among, select_evidence-latest}

abbrev request : EvidenceRequest
request = record {
  connector_id = "erp";
  action_id = "a";
  version_id = "v";
  environment = "sandbox";
}

abbrev evidence : String → ValidationStatus → ℕ → ValidationKnowledge
evidence run_id status evaluated_at = record {
  connector_id = "erp";
  action_id = "a";
  version_id = "v";
  environment = "sandbox";
  run_id = run_id;
  validation_status = status;
  run_state = QualificationRunState.completed;
  approved_public = true;
  evaluated_at = evaluated_at;
  expires_at = none;
}

abbrev earlier : ValidationKnowledge
earlier = evidence "r1" ValidationStatus.live_success 5

abbrev later : ValidationKnowledge
later = evidence "r2" ValidationStatus.live_success 6

abbrev contract : ValidationKnowledge
contract = evidence "r3" contract_validated 7

abbrev records : List ValidationKnowledge
records = earlier ∷ later ∷ contract ∷ []

abbrev selection : EvidenceSelection
selection = record {
  outcome = EvidenceOutcome.live_success;
  selected = some later;
  blocking_conditions = [];
  records = contract ∷ later ∷ earlier ∷ [];
}

selects : select_evidence records request 9 ≡ ok selection
unfolding select_evidence valid_record matches is_current is_later select insert sort find_first
    collect_conditions blocking_conditions of_contract of_live select_ordered
selects = refl

select_evidence-outcome_example :
    (EvidenceOutcome.live_success ≡ outcome_of 9 records)
    × (any (λ r. not (matches request r)) records ≡ false)
select_evidence-outcome_example = select_evidence-outcome records request 9 selection selects

select_evidence-latest_example :
    Among later records
    × (is_current 9 later ≡ true)
    × (((EvidenceOutcome.live_success ≡ EvidenceOutcome.live_success)
          × (is_live later ≡ true)
          × (all (λ x. not (is_current 9 x) || (not (is_live x) || leb x.evaluated_at 6)) records
              ≡ true))
        ⊎ ((EvidenceOutcome.live_success ≡ contract_only)
            × (is_contract later ≡ true)
            × (all
                  (λ x. not (is_current 9 x) || (not (is_contract x) || leb x.evaluated_at 6))
                  records
                ≡ true)))
select_evidence-latest_example =
    select_evidence-latest records request 9 selection later selects refl

-- ===== src/Qualification/Selection.antt =====
-- src/mercury_tools/qualification/selection.py: the choice of the evidence that is shown for an action.
pub mod Laws
pub mod Latest
mod Tests
use mercury_tools.Prelude.{
  ℕ, String, str_eq, str_lt, Bool, true, false, not, ◌&&◌, ◌||◌, Option, none, some, List, [], ◌∷◌,
  ◌++◌, all, any, is_empty, Result, ok, err, ltb, leb, ◌==◌, if◌then◌else◌,
}
use mercury_tools.Qualification.RunStore.Models.{QualificationRunState, is_quarantined}

-- `ValidationStatus` of qualification/models.py
pub data ValidationStatus : Type 0 where
  live_success live_failed contract_validated : ValidationStatus
  blocked_missing_credentials blocked_missing_prerequisite : ValidationStatus
  blocked_external_effect unsupported_by_sandbox outcome_unknown : ValidationStatus

-- The value of the `StrEnum`.
abbrev pub status_value : ValidationStatus → String
status_value live_success = "live_success"
status_value live_failed = "live_failed"
status_value contract_validated = "contract_validated"
status_value blocked_missing_credentials = "blocked_missing_credentials"
status_value blocked_missing_prerequisite = "blocked_missing_prerequisite"
status_value blocked_external_effect = "blocked_external_effect"
status_value unsupported_by_sandbox = "unsupported_by_sandbox"
status_value outcome_unknown = "outcome_unknown"

-- The fields of `ValidationKnowledge` that the selection reads. Times are microseconds in UTC.
pub record ValidationKnowledge : Type 0 where
  pub connector_id : String
  pub action_id : String
  pub version_id : String
  pub environment : String
  pub run_id : String
  pub validation_status : ValidationStatus
  pub run_state : QualificationRunState
  pub approved_public : Bool
  pub evaluated_at : ℕ
  pub expires_at : Option ℕ

pub data EvidenceOutcome : Type 0 where
  no_evidence quarantine blocker contract_only live_success : EvidenceOutcome

pub record EvidenceRequest : Type 0 where
  pub connector_id : String
  pub action_id : String
  pub version_id : String
  pub environment : String

pub record EvidenceSelection : Type 0 where
  pub outcome : EvidenceOutcome
  pub selected : Option ValidationKnowledge
  pub blocking_conditions : List String
  pub records : List ValidationKnowledge

pub data EvidenceError : Type 0 where
  validation_evidence_invalid evidence_scope_mismatch : EvidenceError

-- `EvidenceRequest.matches`
unfoldable pub matches : EvidenceRequest → ValidationKnowledge → Bool
matches request r =
    str_eq request.connector_id r.connector_id
    && str_eq request.action_id r.action_id
    && str_eq request.version_id r.version_id
    && str_eq request.environment r.environment

-- `_BLOCKING_STATUSES`
abbrev pub is_blocking : ValidationStatus → Bool
is_blocking ValidationStatus.live_success = false
is_blocking contract_validated = false
is_blocking _ = true

abbrev pub is_live : ValidationKnowledge → Bool
is_live r = elim r.validation_status [ ValidationStatus.live_success ↦ true | _ ↦ false ]

abbrev pub is_contract : ValidationKnowledge → Bool
is_contract r = elim r.validation_status [ contract_validated ↦ true | _ ↦ false ]

abbrev pub has_failed : QualificationRunState → Bool
has_failed QualificationRunState.failed = true
has_failed _ = false

abbrev pub expires_after : Option ℕ → ℕ → Bool
expires_after none time = true
expires_after (some at) time = ltb time at

-- `_validated_record`: evidence does not expire before it is evaluated.
unfoldable pub valid_record : ValidationKnowledge → Bool
valid_record r = expires_after r.expires_at r.evaluated_at

unfoldable pub is_current : ℕ → ValidationKnowledge → Bool
is_current now r = r.approved_public && expires_after r.expires_at now

-- The key `(evaluated_at, run_id)` of the first record is the larger one.
unfoldable pub is_later : ValidationKnowledge → ValidationKnowledge → Bool
is_later a b =
    ltb b.evaluated_at a.evaluated_at
    || b.evaluated_at == a.evaluated_at && str_lt b.run_id a.run_id

unfoldable pub select :
    (ValidationKnowledge → Bool) → List ValidationKnowledge → List ValidationKnowledge
select p [] = []
select p (r ∷ records) = let rest = select p records in if p r then r ∷ rest else rest

unfoldable pub insert : ValidationKnowledge → List ValidationKnowledge → List ValidationKnowledge
insert r [] = r ∷ []
insert r (s ∷ records) =
    let rest = insert r records in if is_later s r then s ∷ rest else r ∷ s ∷ records

-- `sort(key=…, reverse=True)`, which keeps the order of equal keys.
unfoldable pub sort : List ValidationKnowledge → List ValidationKnowledge
sort [] = []
sort (r ∷ records) = insert r (sort records)

-- `next(record for record in ordered if …)`
unfoldable pub find_first :
    (ValidationKnowledge → Bool) → List ValidationKnowledge → Option ValidationKnowledge
find_first p [] = none
find_first p (r ∷ records) = if p r then some r else find_first p records

-- `conditions.setdefault`
unfoldable pub add_condition : String → List String → List String
add_condition name conditions =
    if any (λ other. str_eq other name) conditions then conditions else conditions ++ name ∷ []

-- The loop of `_blocking_conditions`.
unfoldable pub collect_conditions : List ValidationKnowledge → List String → List String
collect_conditions [] conditions = conditions
collect_conditions (r ∷ records) conditions = collect_conditions records (
    if is_blocking r.validation_status
    then add_condition (status_value r.validation_status) conditions
    else if has_failed r.run_state
    then add_condition "run_state_failed" conditions
    else conditions)

-- `_blocking_conditions`
unfoldable pub blocking_conditions : List ValidationKnowledge → List String
blocking_conditions records = collect_conditions records []

unfoldable pub of_contract :
    Option ValidationKnowledge → List ValidationKnowledge → EvidenceSelection
of_contract (some r) ordered = record {
  outcome = contract_only;
  selected = some r;
  blocking_conditions = [];
  records = ordered;
}
of_contract none ordered = record {
  outcome = no_evidence;
  selected = none;
  blocking_conditions = [];
  records = ordered;
}

unfoldable pub of_live : Option ValidationKnowledge → List ValidationKnowledge → EvidenceSelection
of_live (some r) ordered = record {
  outcome = EvidenceOutcome.live_success;
  selected = some r;
  blocking_conditions = [];
  records = ordered;
}
of_live none ordered = of_contract (find_first is_contract ordered) ordered

-- `select_evidence` once the current records are in order.
unfoldable pub select_ordered : List ValidationKnowledge → EvidenceSelection
select_ordered ordered =
    if any (λ r. is_quarantined r.run_state) ordered
    then record {
      outcome = quarantine;
      selected = none;
      blocking_conditions = "quarantine" ∷ [];
      records = ordered;
    }
    else if not (is_empty (blocking_conditions ordered))
    then record {
      outcome = blocker;
      selected = none;
      blocking_conditions = blocking_conditions ordered;
      records = ordered;
    }
    else of_live (find_first is_live ordered) ordered

-- `select_evidence`
unfoldable pub select_evidence :
    List ValidationKnowledge → EvidenceRequest → ℕ → Result EvidenceError EvidenceSelection
select_evidence records request now =
    if not (all valid_record records)
    then err validation_evidence_invalid
    else if any (λ r. not (matches request r)) records
    then err evidence_scope_mismatch
    else ok (select_ordered (sort (select (is_current now) records)))

-- ===== src/Qualification/Selection/Laws.antt =====
-- What `select_evidence` of qualification/selection.py chooses, whatever the order of the records.
use mercury_tools.Prelude.{
  ℕ, String, Bool, true, false, not, ◌&&◌, ◌||◌, none, some, List, [], ◌∷◌, ◌++◌, all, any,
  is_empty, ok, if◌then◌else◌, ◌≡◌, refl, inl, inr, arith, Bool-cases, Option-cases, ap, sym, ◌∙◌,
}
use mercury_tools.Qualification.RunStore.Models.{is_quarantined}
use mercury_tools.Qualification.Selection.{
  ValidationKnowledge, EvidenceOutcome, no_evidence, quarantine, blocker, contract_only,
  EvidenceRequest, EvidenceSelection, matches, is_blocking, is_live, is_contract, has_failed,
  valid_record, is_current, select, insert, sort, find_first, add_condition, collect_conditions,
  blocking_conditions, of_contract, of_live, select_ordered, select_evidence, status_value,
}

any-select :
    (p q : ValidationKnowledge → Bool) (records : List ValidationKnowledge)
    → any q (select p records) ≡ any (λ r. p r && q r) records
unfolding select
any-select p q [] = refl
any-select p q (r ∷ records) = ground (arith, any-select p q records)

any-insert :
    (q : ValidationKnowledge → Bool) (r : ValidationKnowledge) (records : List ValidationKnowledge)
    → any q (insert r records) ≡ q r || any q records
unfolding insert
any-insert q r [] = refl
any-insert q r (s ∷ records) = ground (arith, any-insert q r records)

any-sort :
    (q : ValidationKnowledge → Bool) (records : List ValidationKnowledge)
    → any q (sort records) ≡ any q records
unfolding sort
any-sort q [] = refl
any-sort q (r ∷ records) = ground (arith, any-insert q r (sort records), any-sort q records)

-- Over the current records in order, what holds of any holds of any of the records.
any-ordered :
    (now : ℕ) (q : ValidationKnowledge → Bool) (records : List ValidationKnowledge)
    → any q (sort (select (is_current now) records)) ≡ any (λ r. is_current now r && q r) records
any-ordered now q records =
    any-sort q (select (is_current now) records) ∙ any-select (is_current now) q records

-- The record blocks: by its status, or since its run failed.
abbrev pub blocks : ValidationKnowledge → Bool
blocks r = is_blocking r.validation_status || has_failed r.run_state

append-full : (xs : List String) (x : String) → is_empty (xs ++ x ∷ []) ≡ false
append-full [] x = refl
append-full (y ∷ xs) x = refl

add_condition-full :
    (name : String) (conditions : List String) → is_empty (add_condition name conditions) ≡ false
unfolding add_condition
add_condition-full name [] = refl
add_condition-full name (c ∷ conditions) = ground (arith, append-full (c ∷ conditions) name)

collect_conditions-empty :
    (records : List ValidationKnowledge) (conditions : List String)
    → is_empty (collect_conditions records conditions)
      ≡ is_empty conditions && not (any blocks records)
unfolding collect_conditions
collect_conditions-empty [] conditions = ground arith
collect_conditions-empty (r ∷ records) conditions = ground (
  arith,
  collect_conditions-empty records (add_condition (status_value r.validation_status) conditions),
  collect_conditions-empty records (add_condition "run_state_failed" conditions),
  collect_conditions-empty records conditions,
  add_condition-full (status_value r.validation_status) conditions,
  add_condition-full "run_state_failed" conditions,
)

find_first-any :
    (p : ValidationKnowledge → Bool) (records : List ValidationKnowledge)
    → find_first p records ≡ none
    → any p records ≡ false
unfolding find_first
find_first-any p [] h = refl
find_first-any p (r ∷ records) h = ground (arith, find_first-any p records)

find_first-some :
    (p : ValidationKnowledge → Bool) (records : List ValidationKnowledge) (r : ValidationKnowledge)
    → find_first p records ≡ some r
    → (any p records ≡ true) × (p r ≡ true)
unfolding find_first
find_first-some p [] r h = absurd (ground arith)
find_first-some p (x ∷ records) r h = ground (arith, find_first-some p records r)

-- The outcome that the records give, in no order.
abbrev pub outcome_of : ℕ → List ValidationKnowledge → EvidenceOutcome
outcome_of now records =
    if any (λ r. is_current now r && is_quarantined r.run_state) records
    then quarantine
    else if any (λ r. is_current now r && blocks r) records
    then blocker
    else if any (λ r. is_current now r && is_live r) records
    then EvidenceOutcome.live_success
    else if any (λ r. is_current now r && is_contract r) records
    then contract_only
    else no_evidence

blocking_conditions-any :
    (records : List ValidationKnowledge)
    → not (is_empty (blocking_conditions records)) ≡ any blocks records
unfolding blocking_conditions
blocking_conditions-any records = ground (arith, collect_conditions-empty records [])

of_contract-outcome :
    (ordered : List ValidationKnowledge)
    → (of_contract (find_first is_contract ordered) ordered).outcome
      ≡ (if any is_contract ordered then contract_only else no_evidence)
unfolding of_contract
of_contract-outcome ordered = elim (Option-cases (find_first is_contract ordered)) [
  | inl e ↦ rw (e, find_first-any is_contract ordered e) refl
  | inr (r, e) ↦ rw (e, (find_first-some is_contract ordered r e).0) refl
]

of_live-outcome :
    (ordered : List ValidationKnowledge)
    → (of_live (find_first is_live ordered) ordered).outcome ≡ (
        if any is_live ordered
        then EvidenceOutcome.live_success
        else if any is_contract ordered
        then contract_only
        else no_evidence)
unfolding of_live
of_live-outcome ordered = elim (Option-cases (find_first is_live ordered)) [
  | inl e ↦ rw (e, find_first-any is_live ordered e) (of_contract-outcome ordered)
  | inr (r, e) ↦ rw (e, (find_first-some is_live ordered r e).0) refl
]

select_ordered-outcome :
    (ordered : List ValidationKnowledge)
    → (select_ordered ordered).outcome ≡ (
        if any (λ r. is_quarantined r.run_state) ordered
        then quarantine
        else if any blocks ordered
        then blocker
        else if any is_live ordered
        then EvidenceOutcome.live_success
        else if any is_contract ordered
        then contract_only
        else no_evidence)
unfolding select_ordered
select_ordered-outcome ordered = elim (Bool-cases (any (λ r. is_quarantined r.run_state) ordered)) [
  | inl q ↦ rw q refl
  | inr q ↦ elim (Bool-cases (any blocks ordered)) [
    | inl b ↦ rw (q, blocking_conditions-any ordered, b) refl
    | inr b ↦ rw (q, blocking_conditions-any ordered, b) (of_live-outcome ordered)
  ]
]

pub select_evidence-ok :
    (records : List ValidationKnowledge) (request : EvidenceRequest) (now : ℕ)
    (selection : EvidenceSelection)
    → select_evidence records request now ≡ ok selection
    → (select_ordered (sort (select (is_current now) records)) ≡ selection)
      × (any (λ r. not (matches request r)) records ≡ false)
unfolding select_evidence
select_evidence-ok records request now selection h = elim (Bool-cases (all valid_record records)) [
  | inr v ↦ absurd (ground arith)
  | inl v ↦ elim (Bool-cases (any (λ r. not (matches request r)) records)) [
    | inl m ↦ absurd (ground arith)
    | inr m ↦ (ground arith, m)
  ]
]

-- If evidence is selected, every record is for the request, and the outcome depends on the current
-- records and not on their order: a quarantined run gives quarantine; without one, a blocking status
-- or a failed run gives blocker; without these, a live success, and without it a validated contract,
-- gives its outcome; and else there is no evidence.
pub select_evidence-outcome :
    (records : List ValidationKnowledge) (request : EvidenceRequest) (now : ℕ)
    (selection : EvidenceSelection)
    → select_evidence records request now ≡ ok selection
    → (selection.outcome ≡ outcome_of now records)
      × (any (λ r. not (matches request r)) records ≡ false)
select_evidence-outcome records request now selection h =
    let (same, matching) = select_evidence-ok records request now selection h in
    let ordered = sort (select (is_current now) records) in
    let quarantined = any-ordered now (λ r. is_quarantined r.run_state) records in
    let blocked = any-ordered now blocks records in
    let live = any-ordered now is_live records in
    let contract = any-ordered now is_contract records in
    (
      ap (λ (x : EvidenceSelection). x.outcome) (sym same)
          ∙ select_ordered-outcome ordered
          ∙ rw (quarantined, blocked, live, contract) refl,
      matching,
    )

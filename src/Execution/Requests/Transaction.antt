-- ===== src/Execution/Requests/Transaction.antt =====
-- `LocalRequestStore._immediate_transaction` of execution/store.py: a block that reads and writes the
-- table. What it wrote is kept if it returns, and rolled back if it raises.
use mercury_tools.Prelude.{String, Bool, true, false, Result, ok, err}
use mercury_tools.Execution.Requests.Table.{Rows, IntegrityError, integrity_error}

-- The code of a `RequestStateError`; `failed_with` carries a request's failure reason.
pub data RequestError : Type 0 where
  invalid_prepared_request invalid_catalog_action catalog_binding_mismatch : RequestError
  catalog_risk_mismatch repository_mismatch invalid_initial_request_state : RequestError
  request_already_exists request_not_found payload_hash_mismatch : RequestError
  mutation_class_mismatch invalid_invalidation_reason invalid_failure_reason : RequestError
  invalid_completion_outcome invalid_resolution_outcome invalid_invalidation_scope : RequestError
  invalid_payload_hash invalid_stored_request request_store_unavailable : RequestError
  replay_blocked_outcome_unknown replay_blocked_active_request : RequestError
  invalid_request_state read_action : RequestError
  failed_with : String → RequestError

abbrev pub Tx : Type 0 → Type 0
Tx A = Rows → Result RequestError (A × Rows)

abbrev pub pure : {A : Type 0} → A → Tx A
pure a rows = ok (a, rows)

abbrev pub raise : {A : Type 0} → RequestError → Tx A
raise e rows = err e

abbrev pub lift : {A : Type 0} → Result RequestError A → Tx A
lift (ok a) rows = ok (a, rows)
lift (err e) rows = err e

abbrev pub gets : {A : Type 0} → (Rows → A) → Tx A
gets f rows = ok (f rows, rows)

infixl 5 ◌>>=◌ ◌>>◌
abbrev pub ◌>>=◌ : {A B : Type 0} → Tx A → (A → Tx B) → Tx B
◌>>=◌ m f rows = elim (m rows) [ ok (a, rows') ↦ f a rows' | err e ↦ err e ]

abbrev pub ◌>>◌ : {B : Type 0} → Tx (Unit {0}) → Tx B → Tx B
m >> k = m >>= λ _. k

-- `if test: raise e`
abbrev pub raise_if : Bool → RequestError → Tx (Unit {0})
raise_if true e rows = err e
raise_if false e rows = ok (tt, rows)

-- The rows after a write; a constraint that fails raises the given error.
abbrev pub written :
    Result IntegrityError Rows → RequestError → Result RequestError (Unit {0} × Rows)
written (ok rows) e = ok (tt, rows)
written (err integrity_error) e = err e

-- A whole transaction: the result, and the table after it.
abbrev pub commit :
    {A : Type 0} → Rows → Result RequestError (A × Rows) → Result RequestError A × Rows
commit before (ok (a, rows)) = (ok a, rows)
commit before (err e) = (err e, before)

abbrev pub transaction : {A : Type 0} → Tx A → Rows → Result RequestError A × Rows
transaction m rows = commit rows (m rows)

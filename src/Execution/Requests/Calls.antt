-- ===== src/Execution/Requests/Calls.antt =====
-- Calls of the request store, one transaction after another (execution/store.py). The calls of several
-- processes are serialised by `repository_locked` and `BEGIN IMMEDIATE`, so they are one list.
pub mod Steps
pub mod Safety
pub mod Confirmation
pub mod Replay
pub mod Creation
pub mod Progress
use mercury_tools.Prelude.{ℕ, String, Option, List, [], ◌∷◌, Result, ok, err}
use mercury_tools.Execution.Policy.{MutationClass}
use mercury_tools.Execution.Requests.Models.{PreparedRequest}
use mercury_tools.Execution.Requests.Table.{Rows}
use mercury_tools.Execution.Requests.Transaction.{RequestError, Tx, transaction}
use mercury_tools.Execution.Requests.Store
use mercury_tools.Execution.Requests.Store.{Runtime}
use mercury_tools.Execution.Requests.Preview
use mercury_tools.Execution.Requests.Preview.{CatalogAction, Binding}
use mercury_tools.Execution.Requests.Pending

-- Each call has the clock that it reads.
pub data Call : Type 0 where
  create_preview : Runtime → PreparedRequest → CatalogAction → Call
  get require_ready start_execution : Runtime → String → Call
  approve precheck_approval : Runtime → String → String → MutationClass → Call
  confirm : Runtime → Runtime → String → String → Call
  invalidate : Runtime → String → String → Call
  fail_before_dispatch complete resolve_outcome_unknown :
      Runtime → String → String → Option String → Call
  invalidate_pending : Runtime → Option String → Option String → String → Call

-- The second transaction of `confirm`, if the first returned.
abbrev pub confirm_read :
    Runtime
    → String
    → Result RequestError PreparedRequest
    → Rows
    → Result RequestError PreparedRequest × Rows
confirm_read env hash (ok request) rows =
    transaction (Store.approve env request.request_id hash request.mutation_class) rows
confirm_read env hash (err e) rows = (err e, rows)

-- `confirm`: `get`, then `approve` with the class that was read.
unfoldable pub confirm_request :
    Runtime → Runtime → String → String → Rows → Result RequestError PreparedRequest × Rows
confirm_request env env' id hash rows =
    let (read, rows1) = transaction (Store.get env id) rows in confirm_read env' hash read rows1

-- The table after a call.
unfoldable pub apply_call : Binding → Call → Rows → Rows
unfolding confirm_request
apply_call binding (Call.create_preview env prepared catalog) rows =
    (transaction (Preview.create_preview env binding prepared catalog) rows).1
apply_call binding (Call.get env id) rows = (transaction (Store.get env id) rows).1
apply_call binding (Call.require_ready env id) rows =
    (transaction (Store.require_ready env id) rows).1
apply_call binding (Call.start_execution env id) rows =
    (transaction (Store.start_execution env id) rows).1
apply_call binding (Call.approve env id hash class) rows =
    (transaction (Store.approve env id hash class) rows).1
apply_call binding (Call.precheck_approval env id hash class) rows =
    (transaction (Store.precheck_approval env id hash class) rows).1
apply_call binding (Call.confirm env env' id hash) rows = (confirm_request env env' id hash rows).1
apply_call binding (Call.invalidate env id reason) rows =
    (transaction (Store.invalidate env id reason) rows).1
apply_call binding (Call.fail_before_dispatch env id reason summary) rows =
    (transaction (Store.fail_before_dispatch env id reason summary) rows).1
apply_call binding (Call.complete env id outcome summary) rows =
    (transaction (Store.complete env id outcome summary) rows).1
apply_call binding (Call.resolve_outcome_unknown env id outcome summary) rows =
    (transaction (Store.resolve_outcome_unknown env id outcome summary) rows).1
apply_call binding (Call.invalidate_pending env connector_id environment reason) rows =
    (transaction (Pending.invalidate_pending env connector_id environment reason) rows).1

-- The table after a list of calls.
unfoldable pub serve : Binding → List Call → Rows → Rows
serve binding [] rows = rows
serve binding (call ∷ calls) rows = serve binding calls (apply_call binding call rows)

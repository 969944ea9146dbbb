-- ===== src/Execution/Requests/Calls/Steps.antt =====
-- Every call is a sequence of changes, and only a confirmation approves.
use mercury_tools.Prelude.{
  String, Result, ok, err, ◌≡◌, refl, inl, inr, arith, Result-cases, Option-cases, Bool-cases, ◌∙◌,
  ap,
}
use mercury_tools.Execution.Requests.Models.{PreparedRequest}
use mercury_tools.Execution.Requests.Table.{Rows, find_row}
use mercury_tools.Execution.Requests.Table.Laws.{Distinct}
use mercury_tools.Execution.Requests.Transaction.{RequestError, Tx, transaction}
use mercury_tools.Execution.Requests.Store
use mercury_tools.Execution.Requests.Store.{Runtime, is_expired, expired_request}
use mercury_tools.Execution.Requests.Preview
use mercury_tools.Execution.Requests.Preview.{Binding}
use mercury_tools.Execution.Requests.Pending
use mercury_tools.Execution.Requests.Changes.{
  Moves, inserted, moved, Changes, here, next, Changes-trans, find_row-id, finish-ok,
}
use mercury_tools.Execution.Requests.Methods.{
  get-Changes, invalidate-Changes, require_ready-Changes, fail_before_dispatch-Changes,
}
use mercury_tools.Execution.Requests.Methods.Approve.{approve-Changes, precheck_approval-Changes}
use mercury_tools.Execution.Requests.Methods.Start.{start_execution-Changes}
use mercury_tools.Execution.Requests.Methods.Complete.{
  complete-Changes, resolve_outcome_unknown-Changes,
}
use mercury_tools.Execution.Requests.Methods.Create.{create_preview-Changes}
use mercury_tools.Execution.Requests.Methods.InvalidatePending.{invalidate_pending-Changes}
use mercury_tools.Execution.Requests.Calls.{Call, confirm_request, confirm_read, apply_call}

-- The call confirms this request: it names its id and its payload, and `approve` its class too.
abbrev pub Approves : Call → PreparedRequest → Type 0
Approves (Call.approve env id hash class) r =
    (r.request_id ≡ id) × (r.payload_hash ≡ hash) × (r.mutation_class ≡ class)
Approves (Call.confirm env env' id hash) r = (r.request_id ≡ id) × (r.payload_hash ≡ hash)
Approves _ r = ⊥

Moves-weaken :
    {P Q : PreparedRequest → Type 0} (old new : PreparedRequest)
    → ((r : PreparedRequest) → P r → Q r)
    → Moves P old new
    → Moves Q old new
Moves-weaken {P} {Q} old new f m = record {
  binding = m.binding;
  edge = m.edge;
  valid = m.valid;
  approval = elim m.approval [ inl e ↦ inl e | inr (p, a, b) ↦ inr (f old p, a, b) ];
}

Changes-weaken :
    {P Q : PreparedRequest → Type 0} {rows rows' : Rows}
    → ((r : PreparedRequest) → P r → Q r)
    → Changes P rows rows'
    → Changes Q rows rows'
Changes-weaken f here = here
Changes-weaken f (next p (inserted new a b c w)) = next (Changes-weaken f p) (inserted new a b c w)
Changes-weaken f (next p (moved old new g m w)) =
    next (Changes-weaken f p) (moved old new g (Moves-weaken old new f m) w)

-- A call that raises changes nothing.
transaction-Changes :
    {P : PreparedRequest → Type 0} {A : Type 0} (m : Tx A) (rows : Rows)
    → ((a : A) (rows' : Rows) → m rows ≡ ok (a, rows') → Changes P rows rows')
    → Changes P rows (transaction m rows).1
transaction-Changes m rows f = elim (Result-cases (m rows)) [
  | inl ((a, rows'), e) ↦ rw e (f a rows' e)
  | inr (x, e) ↦ rw e here
]

get-id :
    (env : Runtime) (id : String) (r : PreparedRequest) (rows rows' : Rows)
    → Store.get env id rows ≡ ok (r, rows')
    → r.request_id ≡ id
unfolding Store.get Store.fetch Store.expire_if_needed
get-id env id r rows rows' h = elim (Option-cases (find_row id rows)) [
  | inl missing ↦ absurd (ground arith)
  | inr (old, f) ↦ elim (Bool-cases (is_expired env old)) [
    | inl e ↦
        let (v, is_new, w) = finish-ok env (expired_request old) rows rows' r (ground arith) in
        ap (λ (x : PreparedRequest). x.request_id) is_new ∙ find_row-id id rows old f
    | inr e ↦ ground (arith, find_row-id id rows old f)
  ]
]

confirm_read-Changes :
    (env : Runtime) (id hash : String) (rows : Rows) (read : Result RequestError PreparedRequest)
    → ((r : PreparedRequest) → read ≡ ok r → r.request_id ≡ id)
    → Changes
        (λ r. (r.request_id ≡ id) × (r.payload_hash ≡ hash))
        rows
        (confirm_read env hash read rows).1
confirm_read-Changes env id hash rows (err e) same = here
confirm_read-Changes env id hash rows (ok q) same =
    transaction-Changes (Store.approve env q.request_id hash q.mutation_class) rows (λ a rows' h.
      Changes-weaken (λ r (p, a, b). (p ∙ same q refl, a))
        (approve-Changes env q.request_id hash q.mutation_class a rows rows' h))

confirm_request-Changes :
    (env env' : Runtime) (id hash : String) (rows : Rows)
    → Changes
        (λ r. (r.request_id ≡ id) × (r.payload_hash ≡ hash))
        rows
        (confirm_request env env' id hash rows).1
unfolding confirm_request
confirm_request-Changes env env' id hash rows = elim (Result-cases (Store.get env id rows)) [
  | inl ((a, rows1), e) ↦ rw e (
      Changes-trans (Changes-weaken (λ r p. absurd p) (get-Changes env id a rows rows1 e)) (
        confirm_read-Changes env' id hash rows1 (ok a)
          (λ r p. ground (arith, get-id env id a rows rows1 e))))
  | inr (x, e) ↦ rw e here
]

pub call-Changes :
    (binding : Binding) (call : Call) (rows : Rows)
    → Distinct rows
    → Changes (Approves call) rows (apply_call binding call rows)
unfolding apply_call
call-Changes binding (Call.create_preview env prepared catalog) rows d =
    transaction-Changes (Preview.create_preview env binding prepared catalog) rows
      (λ a rows'. create_preview-Changes env binding prepared catalog a rows rows')
call-Changes binding (Call.get env id) rows d =
    transaction-Changes (Store.get env id) rows (λ a rows'. get-Changes env id a rows rows')
call-Changes binding (Call.require_ready env id) rows d =
    transaction-Changes (Store.require_ready env id) rows
      (λ a rows'. require_ready-Changes env id a rows rows')
call-Changes binding (Call.start_execution env id) rows d =
    transaction-Changes (Store.start_execution env id) rows
      (λ a rows'. start_execution-Changes env id a rows rows')
call-Changes binding (Call.approve env id hash class) rows d =
    transaction-Changes (Store.approve env id hash class) rows
      (λ a rows'. approve-Changes env id hash class a rows rows')
call-Changes binding (Call.precheck_approval env id hash class) rows d =
    transaction-Changes (Store.precheck_approval env id hash class) rows
      (λ a rows'. precheck_approval-Changes env id hash class a rows rows')
call-Changes binding (Call.confirm env env' id hash) rows d =
    confirm_request-Changes env env' id hash rows
call-Changes binding (Call.invalidate env id reason) rows d =
    transaction-Changes (Store.invalidate env id reason) rows
      (λ a rows'. invalidate-Changes env id reason a rows rows')
call-Changes binding (Call.fail_before_dispatch env id reason summary) rows d =
    transaction-Changes (Store.fail_before_dispatch env id reason summary) rows
      (λ a rows'. fail_before_dispatch-Changes env id reason summary a rows rows')
call-Changes binding (Call.complete env id outcome summary) rows d =
    transaction-Changes (Store.complete env id outcome summary) rows
      (λ a rows'. complete-Changes env id outcome summary a rows rows')
call-Changes binding (Call.resolve_outcome_unknown env id outcome summary) rows d =
    transaction-Changes (Store.resolve_outcome_unknown env id outcome summary) rows
      (λ a rows'. resolve_outcome_unknown-Changes env id outcome summary a rows rows')
call-Changes binding (Call.invalidate_pending env connector_id environment reason) rows d =
    transaction-Changes (Pending.invalidate_pending env connector_id environment reason) rows
      (λ a rows'. invalidate_pending-Changes env connector_id environment reason a rows rows' d)

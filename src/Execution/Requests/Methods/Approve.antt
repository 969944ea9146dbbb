-- ===== src/Execution/Requests/Methods/Approve.antt =====
-- `approve` and `precheck_approval` of execution/store.py.
use mercury_tools.Prelude.{
  String, str_eq_iff, true, false, some, ok, ◌≡◌, refl, inl, inr, arith, Option-cases, Result-cases,
}
use mercury_tools.Execution.Requests.Models.{
  RequestState, awaiting_confirmation, ready_to_execute, PreparedRequest,
}
use mercury_tools.Execution.Requests.Table.{Rows, find_row}
use mercury_tools.Execution.Requests.Store.{
  Runtime, expire_if_needed, is_expired, approval_candidate, approve, precheck_approval,
}
use mercury_tools.Execution.Requests.Changes.{
  may_move, Nobody, Confirmed, Changes, here, find_row-id, find_row_self, finish, finish-Changes,
}
use mercury_tools.Execution.Policy.{MutationClass, same_class}
use mercury_tools.Execution.Requests.Methods.{expire_if_needed-live}

same_class-eq : (a b : MutationClass) → same_class a b ≡ true → a ≡ b
same_class-eq a b h = ground arith

-- A candidate is there as it was stored: awaiting confirmation, not due, with the payload and the
-- class that the caller names.
pub approval_candidate-ok :
    (env : Runtime) (id hash : String) (class : MutationClass) (r : PreparedRequest)
    (rows rows' : Rows)
    → approval_candidate env id hash class rows ≡ ok (r, rows')
    → (find_row id rows ≡ some r)
      × (r.payload_hash ≡ hash)
      × (r.mutation_class ≡ class)
      × (r.state ≡ awaiting_confirmation)
      × (is_expired env r ≡ false)
      × (rows' ≡ rows)
unfolding approval_candidate
approval_candidate-ok env id hash class r rows rows' h = elim (Option-cases (find_row id rows)) [
  | inl missing ↦ absurd (ground arith)
  | inr (old, f) ↦ elim (Result-cases (expire_if_needed env old rows)) [
    | inr (e, p) ↦ absurd (ground arith)
    | inl ((req, rows1), p) ↦
        let (same, unchanged, alive) =
          expire_if_needed-live env old req rows rows1 p (ground arith) in
        ground (arith, str_eq_iff hash old.payload_hash, same_class-eq old.mutation_class class)
  ]
]

pub approve-ok :
    (env : Runtime) (id hash : String) (class : MutationClass) (r : PreparedRequest)
    (rows rows' : Rows)
    → approve env id hash class rows ≡ ok (r, rows')
    → (old : PreparedRequest) × (approval_candidate env id hash class rows ≡ ok (old, rows))
      × (finish env (record old { state = ready_to_execute; approval_count = 1 }) rows
          ≡ ok (r, rows'))
unfolding approve
approve-ok env id hash class r rows rows' h =
    elim (Result-cases (approval_candidate env id hash class rows)) [
      | inr (e, p) ↦ absurd (ground arith)
      | inl ((old, rows1), p) ↦
          let (f, a, b, c, d, unchanged) =
            approval_candidate-ok env id hash class old rows rows1 p in
          (old, ground arith, ground arith)
    ]

awaiting_may_be_ready :
    (s : RequestState) → s ≡ awaiting_confirmation → may_move s ready_to_execute ≡ true
awaiting_may_be_ready s h = rw h

pub approve-Changes :
    (env : Runtime) (id hash : String) (class : MutationClass) (r : PreparedRequest)
    (rows rows' : Rows)
    → approve env id hash class rows ≡ ok (r, rows')
    → Changes (Confirmed id hash class) rows rows'
approve-Changes env id hash class r rows rows' h =
    let (old, p, k) = approve-ok env id hash class r rows rows' h in
    let (f, same_hash, class_eq, waiting, alive, _) =
      approval_candidate-ok env id hash class old rows rows p in
    finish-Changes (Confirmed id hash class) env old
      (record old { state = ready_to_execute; approval_count = 1 }) rows rows' r
      (find_row_self id rows old f) refl (awaiting_may_be_ready old.state waiting)
      (inr ((find_row-id id rows old f, same_hash, class_eq), waiting, refl)) k

pub precheck_approval-Changes :
    (env : Runtime) (id hash : String) (class : MutationClass) (r : PreparedRequest)
    (rows rows' : Rows)
    → precheck_approval env id hash class rows ≡ ok (r, rows')
    → Changes Nobody rows rows'
unfolding precheck_approval
precheck_approval-Changes env id hash class r rows rows' h =
    let (_, _, _, _, _, unchanged) = approval_candidate-ok env id hash class r rows rows' h in
    rw unchanged here

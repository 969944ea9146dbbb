-- ===== src/Execution/Requests/Methods/Complete.antt =====
-- `complete` and `resolve_outcome_unknown` of execution/store.py.
use mercury_tools.Prelude.{
  String, Bool, true, Option, some, ok, ◌≡◌, refl, inl, inr, arith, Option-cases,
}
use mercury_tools.Execution.Requests.Models.{RequestState, PreparedRequest}
use mercury_tools.Execution.Requests.Table.{Rows, find_row}
use mercury_tools.Execution.Requests.Transaction.{Tx, ◌>>=◌, ◌>>◌}
use mercury_tools.Execution.Requests.Store.{
  Runtime, fetch, require_state, is_executing, is_unknown, complete, completion_state,
  completion_reason, resolve_outcome_unknown, resolution_state,
}
use mercury_tools.Execution.Requests.Changes.{
  may_move, Nobody, Changes, find_row_self, finish, finish-Changes,
}

-- A method that writes an outcome reads the request without a test of its expiry.
abbrev conclude :
    Runtime
    → String
    → (RequestState → Bool)
    → (PreparedRequest → PreparedRequest)
    → Tx PreparedRequest
conclude env id allowed change = do
  request ← fetch id
  require_state (allowed request.state) request
  finish env (change request)

-- The outcome written in a request.
abbrev outcome_of : RequestState → Option String → PreparedRequest → PreparedRequest
outcome_of state summary request = record request {
  state = state;
  failure_reason = completion_reason state;
  response_summary = summary;
}

conclude-Changes :
    (env : Runtime) (id : String) (allowed : RequestState → Bool) (state : RequestState)
    (summary : Option String) (r : PreparedRequest) (rows rows' : Rows)
    → ((s : RequestState) → allowed s ≡ true → may_move s state ≡ true)
    → conclude env id allowed (outcome_of state summary) rows ≡ ok (r, rows')
    → Changes Nobody rows rows'
unfolding fetch
conclude-Changes env id allowed state summary r rows rows' e h =
    elim (Option-cases (find_row id rows)) [
      | inl missing ↦ absurd (ground arith)
      | inr (old, f) ↦
          finish-Changes Nobody env old (outcome_of state summary old) rows rows' r
            (find_row_self id rows old f) refl (e old.state (ground arith)) (inl refl)
            (ground arith)
    ]

completion_state-edge :
    (outcome : String) (state s : RequestState)
    → completion_state outcome ≡ some state
    → is_executing s ≡ true
    → may_move s state ≡ true
unfolding completion_state
completion_state-edge outcome state s h p = ground arith

resolution_state-edge :
    (outcome : String) (state s : RequestState)
    → resolution_state outcome ≡ some state
    → is_unknown s ≡ true
    → may_move s state ≡ true
unfolding resolution_state
resolution_state-edge outcome state s h p = ground arith

pub complete-Changes :
    (env : Runtime) (id outcome : String) (summary : Option String) (r : PreparedRequest)
    (rows rows' : Rows)
    → complete env id outcome summary rows ≡ ok (r, rows')
    → Changes Nobody rows rows'
unfolding complete
complete-Changes env id outcome summary r rows rows' h =
    elim (Option-cases (completion_state outcome)) [
      | inl bad ↦ absurd (ground arith)
      | inr (state, p) ↦
          conclude-Changes env id is_executing state summary r rows rows'
            (λ s. completion_state-edge outcome state s p) (rw p at h)
    ]

pub resolve_outcome_unknown-Changes :
    (env : Runtime) (id outcome : String) (summary : Option String) (r : PreparedRequest)
    (rows rows' : Rows)
    → resolve_outcome_unknown env id outcome summary rows ≡ ok (r, rows')
    → Changes Nobody rows rows'
unfolding resolve_outcome_unknown
resolve_outcome_unknown-Changes env id outcome summary r rows rows' h =
    elim (Option-cases (resolution_state outcome)) [
      | inl bad ↦ absurd (ground arith)
      | inr (state, p) ↦
          conclude-Changes env id is_unknown state summary r rows rows'
            (λ s. resolution_state-edge outcome state s p) (rw p at h)
    ]

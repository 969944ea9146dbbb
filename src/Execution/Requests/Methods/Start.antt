-- ===== src/Execution/Requests/Methods/Start.antt =====
-- `start_execution` of execution/store.py.
use mercury_tools.Prelude.{
  String, true, false, Option, none, some, ok, ◌≡◌, refl, inl, inr, arith, Result-cases,
}
use mercury_tools.Execution.Requests.Models.{
  RequestState, ready_to_execute, executing, PreparedRequest, fields_valid, is_payload_hash,
}
use mercury_tools.Execution.Requests.Table.{Rows, find_row, update_row}
use mercury_tools.Execution.Requests.Transaction.{Tx, pure, lift, ◌>>=◌, ◌>>◌}
use mercury_tools.Execution.Requests.Store.{
  Runtime, updated, is_expired, is_ready, replay_error, blocking_state, assert_replay_allowed,
  store_or_replay, start_execution,
}
use mercury_tools.Execution.Requests.Changes.{
  may_move, moved, Nobody, Changes, here, next, find_row_self, written-ok, sanitized-Moves,
}
use mercury_tools.Execution.Requests.Methods.{live-ok}

pub store_or_replay-ok :
    (new : PreparedRequest) (hash : String) (rows rows' : Rows)
    → store_or_replay new hash rows ≡ ok (tt, rows')
    → update_row new rows ≡ ok rows'
unfolding store_or_replay
store_or_replay-ok new hash rows rows' h =
    written-ok (update_row new rows) (replay_error (blocking_state hash none rows)) rows' h

pub assert_replay_allowed-ok :
    (hash : String) (excluding : Option String) (rows rows' : Rows)
    → assert_replay_allowed hash excluding rows ≡ ok (tt, rows')
    → (is_payload_hash hash ≡ true) × (blocking_state hash excluding rows ≡ none) × (rows' ≡ rows)
unfolding assert_replay_allowed
assert_replay_allowed-ok hash excluding rows rows' h = ground arith

-- What `start_execution` does once the request is ready.
abbrev launch : Runtime → PreparedRequest → Tx PreparedRequest
launch env request = do
  assert_replay_allowed request.payload_hash (some request.request_id)
  started ← lift (updated env (record request { state = executing }))
  store_or_replay started request.payload_hash
  pure started

launch-ok :
    (env : Runtime) (old r : PreparedRequest) (rows rows' : Rows)
    → launch env old rows ≡ ok (r, rows')
    → (blocking_state old.payload_hash (some old.request_id) rows ≡ none)
      × (fields_valid (record old { state = executing }) ≡ true)
      × (r ≡ record old { state = executing; response_summary = env.sanitize old.response_summary })
      × (update_row r rows ≡ ok rows')
unfolding updated
launch-ok env old r rows rows' h =
    elim (Result-cases (assert_replay_allowed old.payload_hash (some old.request_id) rows)) [
      | inr (e, p) ↦ absurd (ground arith)
      | inl ((u, rows1), p) ↦
          let started = record old {
            state = executing;
            response_summary = env.sanitize old.response_summary;
          } in
          ground (
            arith,
            assert_replay_allowed-ok old.payload_hash (some old.request_id) rows rows1 p,
            store_or_replay-ok started old.payload_hash rows rows',
          )
    ]

-- A successful start: the request was ready and not due, nothing else blocks its payload, and it is
-- now executing.
pub start_execution-ok :
    (env : Runtime) (id : String) (r : PreparedRequest) (rows rows' : Rows)
    → start_execution env id rows ≡ ok (r, rows')
    → (old : PreparedRequest) × (find_row id rows ≡ some old)
      × (old.state ≡ ready_to_execute)
      × (is_expired env old ≡ false)
      × (blocking_state old.payload_hash (some old.request_id) rows ≡ none)
      × (fields_valid (record old { state = executing }) ≡ true)
      × (r ≡ record old { state = executing; response_summary = env.sanitize old.response_summary })
      × (update_row r rows ≡ ok rows')
unfolding start_execution
start_execution-ok env id r rows rows' h =
    let (old, f, s, alive, k) = live-ok env id is_ready (launch env) (r, rows') rows refl h in
    let (free, valid, is_new, w) = launch-ok env old r rows rows' k in
    (old, f, ground arith, alive, free, valid, is_new, w)

ready_may_execute : (s : RequestState) → s ≡ ready_to_execute → may_move s executing ≡ true
ready_may_execute s h = rw h

pub start_execution-Changes :
    (env : Runtime) (id : String) (r : PreparedRequest) (rows rows' : Rows)
    → start_execution env id rows ≡ ok (r, rows')
    → Changes Nobody rows rows'
start_execution-Changes env id r rows rows' h =
    let (old, f, s, alive, free, valid, is_new, w) = start_execution-ok env id r rows rows' h in
    next here (
      moved old r (find_row_self id rows old f)
        (sanitized-Moves Nobody env old (record old { state = executing }) r refl
          (ready_may_execute old.state s) valid (inl refl) is_new)
        w)

-- ===== src/Execution/Requests/Store.antt =====
-- The methods of `LocalRequestStore` in execution/store.py, as blocks of a transaction.
use mercury_tools.Prelude.{
  ℕ, String, str_eq, Bool, true, false, not, ◌&&◌, Option, none, some, [], ◌∷◌, if◌then◌else◌,
  Result, ok, err, leb,
}
use mercury_tools.Execution.Policy.{MutationClass, same_class}
use mercury_tools.Execution.Requests.Models.{
  RequestState, awaiting_confirmation, ready_to_execute, executing, succeeded, failed,
  outcome_unknown, PreparedRequest, is_reason, is_payload_hash, fields_valid,
}
use mercury_tools.Execution.Requests.Table.{Rows, is_pending, is_blocking, find_row, update_row}
use mercury_tools.Execution.Requests.Transaction.{
  RequestError, request_not_found, payload_hash_mismatch, mutation_class_mismatch,
  invalid_invalidation_reason, invalid_failure_reason, invalid_completion_outcome,
  invalid_resolution_outcome, invalid_payload_hash, invalid_stored_request,
  request_store_unavailable, replay_blocked_outcome_unknown, replay_blocked_active_request,
  invalid_request_state, failed_with, Tx, pure, lift, gets, ◌>>=◌, ◌>>◌, raise_if, written,
}

-- What a call reads outside the table: the clock, and the sanitising of a response summary by
-- `_sanitize_public_data`.
pub record Runtime : Type 0 where
  pub now : ℕ
  pub sanitize : Option String → Option String

-- `_updated`: validate the request with its new fields.
unfoldable pub updated : Runtime → PreparedRequest → Result RequestError PreparedRequest
updated env request =
    if fields_valid request
    then ok (record request { response_summary = env.sanitize request.response_summary })
    else err invalid_stored_request

-- `_store`; a constraint that fails is a `sqlite3.Error`, which the transaction turns into this code.
unfoldable pub store : PreparedRequest → Tx (Unit {0})
store request rows = written (update_row request rows) request_store_unavailable

abbrev or_raise : Option PreparedRequest → RequestError → Result RequestError PreparedRequest
or_raise (some r) e = ok r
or_raise none e = err e

unfoldable pub fetch : String → Tx PreparedRequest
fetch id rows = lift (or_raise (find_row id rows) request_not_found) rows

-- `request.failure_reason or "invalid_request_state"`
abbrev pub state_error : Option String → RequestError
state_error none = invalid_request_state
state_error (some reason) = failed_with reason

-- `_require_state` and `_require_state_values`.
abbrev pub require_state : Bool → PreparedRequest → Tx (Unit {0})
require_state allowed request = raise_if (not allowed) (state_error request.failure_reason)

abbrev pub is_awaiting : RequestState → Bool
is_awaiting awaiting_confirmation = true
is_awaiting _ = false

abbrev pub is_ready : RequestState → Bool
is_ready ready_to_execute = true
is_ready _ = false

abbrev pub is_executing : RequestState → Bool
is_executing executing = true
is_executing _ = false

abbrev pub is_unknown : RequestState → Bool
is_unknown outcome_unknown = true
is_unknown _ = false

abbrev pub is_expired : Runtime → PreparedRequest → Bool
is_expired env request = is_pending request.state && leb request.expires_at env.now

abbrev pub expired_request : PreparedRequest → PreparedRequest
expired_request request = record request { state = failed; failure_reason = some "preview_expired" }

unfoldable pub expire_if_needed : Runtime → PreparedRequest → Tx PreparedRequest
expire_if_needed env request =
    if is_expired env request
    then (do expired ← lift (updated env (expired_request request)); store expired; pure expired)
    else pure request

-- `get`
unfoldable pub get : Runtime → String → Tx PreparedRequest
unfolding fetch
get env id = do request ← fetch id; expire_if_needed env request

unfoldable pub approval_candidate : Runtime → String → String → MutationClass → Tx PreparedRequest
unfolding fetch
approval_candidate env id payload_hash expected_class = do
  stored ← fetch id
  raise_if (not (str_eq payload_hash stored.payload_hash)) payload_hash_mismatch
  request ← expire_if_needed env stored
  require_state (is_awaiting request.state) request
  raise_if (not (same_class request.mutation_class expected_class)) mutation_class_mismatch
  pure request

unfoldable pub approve : Runtime → String → String → MutationClass → Tx PreparedRequest
approve env id payload_hash expected_class = do
  request ← approval_candidate env id payload_hash expected_class
  approved ← lift (updated env (record request { state = ready_to_execute; approval_count = 1 }))
  store approved
  pure approved

-- `precheck_approval`
unfoldable pub precheck_approval : Runtime → String → String → MutationClass → Tx PreparedRequest
precheck_approval env id payload_hash expected_class =
    approval_candidate env id payload_hash expected_class

unfoldable pub invalidate : Runtime → String → String → Tx PreparedRequest
unfolding fetch
invalidate env id reason = do
  raise_if (not (is_reason reason)) invalid_invalidation_reason
  stored ← fetch id
  request ← expire_if_needed env stored
  require_state (is_pending request.state) request
  dropped ← lift (updated env (record request { state = failed; failure_reason = some reason }))
  store dropped
  pure dropped

unfoldable pub require_ready : Runtime → String → Tx PreparedRequest
unfolding fetch
require_ready env id = do
  stored ← fetch id
  request ← expire_if_needed env stored
  require_state (is_ready request.state) request
  pure request

unfoldable pub fail_before_dispatch : Runtime → String → String → Option String → Tx PreparedRequest
unfolding fetch
fail_before_dispatch env id reason response_summary = do
  raise_if (not (is_reason reason)) invalid_failure_reason
  stored ← fetch id
  request ← expire_if_needed env stored
  require_state (is_ready request.state) request
  dropped ← lift (
      updated env (record request {
        state = failed;
        failure_reason = some reason;
        response_summary = response_summary;
      }))
  store dropped
  pure dropped

abbrev excluded : Option String → PreparedRequest → Bool
excluded none r = false
excluded (some id) r = str_eq r.request_id id

-- `SELECT state … WHERE payload_hash = ? AND state IN (?, ?, ?) [AND request_id != ?]`, one row.
unfoldable pub blocking_state : String → Option String → Rows → Option RequestState
blocking_state hash excluding [] = none
blocking_state hash excluding (r ∷ rows) =
    if str_eq r.payload_hash hash && is_blocking r.state && not (excluded excluding r)
    then some r.state
    else blocking_state hash excluding rows

-- `_replay_error`
abbrev pub replay_error : Option RequestState → RequestError
replay_error (some outcome_unknown) = replay_blocked_outcome_unknown
replay_error _ = replay_blocked_active_request

abbrev no_replay : Option RequestState → Tx (Unit {0})
no_replay none rows = ok (tt, rows)
no_replay (some state) rows = err (replay_error (some state))

-- `_assert_replay_allowed`
unfoldable pub assert_replay_allowed : String → Option String → Tx (Unit {0})
assert_replay_allowed hash excluding = do
  raise_if (not (is_payload_hash hash)) invalid_payload_hash
  found ← gets (blocking_state hash excluding)
  no_replay found

-- The `UPDATE` of `start_execution`, whose constraint error is a replay error.
unfoldable pub store_or_replay : PreparedRequest → String → Tx (Unit {0})
store_or_replay request hash rows =
    written (update_row request rows) (replay_error (blocking_state hash none rows))

unfoldable pub start_execution : Runtime → String → Tx PreparedRequest
unfolding fetch
start_execution env id = do
  stored ← fetch id
  request ← expire_if_needed env stored
  require_state (is_ready request.state) request
  assert_replay_allowed request.payload_hash (some request.request_id)
  started ← lift (updated env (record request { state = executing }))
  store_or_replay started request.payload_hash
  pure started

-- The table `states` of `complete`.
unfoldable pub completion_state : String → Option RequestState
completion_state outcome =
    if str_eq outcome "succeeded"
    then some succeeded
    else if str_eq outcome "failed"
    then some failed
    else if str_eq outcome "outcome_unknown"
    then some outcome_unknown
    else none

-- The table `states` of `resolve_outcome_unknown`.
unfoldable pub resolution_state : String → Option RequestState
resolution_state outcome =
    if str_eq outcome "succeeded"
    then some succeeded
    else if str_eq outcome "failed"
    then some failed
    else none

abbrev pub completion_reason : RequestState → Option String
completion_reason failed = some "execution_failed"
completion_reason outcome_unknown = some "outcome_unknown"
completion_reason _ = none

abbrev pub state_or_raise : Option RequestState → RequestError → Result RequestError RequestState
state_or_raise (some state) e = ok state
state_or_raise none e = err e

unfoldable pub complete : Runtime → String → String → Option String → Tx PreparedRequest
unfolding fetch
complete env id outcome response_summary = do
  state ← lift (state_or_raise (completion_state outcome) invalid_completion_outcome)
  request ← fetch id
  require_state (is_executing request.state) request
  completed ← lift (
      updated env (record request {
        state = state;
        failure_reason = completion_reason state;
        response_summary = response_summary;
      }))
  store completed
  pure completed

unfoldable pub resolve_outcome_unknown :
    Runtime → String → String → Option String → Tx PreparedRequest
unfolding fetch
resolve_outcome_unknown env id outcome response_summary = do
  state ← lift (state_or_raise (resolution_state outcome) invalid_resolution_outcome)
  request ← fetch id
  require_state (is_unknown request.state) request
  resolved ← lift (
      updated env (record request {
        state = state;
        failure_reason = completion_reason state;
        response_summary = response_summary;
      }))
  store resolved
  pure resolved

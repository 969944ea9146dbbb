-- ===== src/Execution/Requests/Calls/Progress.antt =====
-- A confirmation and the execution that follows it, in execution/store.py.
use mercury_tools.Prelude.{
  String, str_eq, str_eq_iff, true, false, ◌&&◌, none, some, [], ◌∷◌, any, ok, ◌≡◌, refl, inl, inr,
  arith, sym, ◌∙◌, Bool-cases,
}
use mercury_tools.Execution.Policy.{MutationClass, same_class}
use mercury_tools.Execution.Requests.Models.{
  awaiting_confirmation, ready_to_execute, executing, PreparedRequest, fields_valid,
  is_payload_hash, state_fields_valid,
}
use mercury_tools.Execution.Requests.Table.{
  Rows, is_blocking, blocks, find_row, update_row, replace_row,
}
use mercury_tools.Execution.Requests.Table.Laws.{find_row-update}
use mercury_tools.Execution.Requests.Store.{
  Runtime, is_expired, blocking_state, start_execution, approve, approval_candidate,
  expire_if_needed, updated, store, assert_replay_allowed, store_or_replay,
}
use mercury_tools.Execution.Requests.Sound.{Holds, IsSound}
use mercury_tools.Execution.Requests.Calls.Replay.{blocking_state-any}

abbrev pub approved : Runtime → PreparedRequest → PreparedRequest
approved env r = record r {
  state = ready_to_execute;
  approval_count = 1;
  response_summary = env.sanitize r.response_summary;
}

abbrev pub started : Runtime → PreparedRequest → PreparedRequest
started env r = record r { state = executing; response_summary = env.sanitize r.response_summary }

approved-valid :
    (env : Runtime) (r : PreparedRequest)
    → fields_valid r ≡ true
    → r.state ≡ awaiting_confirmation
    → (fields_valid (record r { state = ready_to_execute; approval_count = 1 }) ≡ true)
      × (fields_valid (record (approved env r) { state = executing }) ≡ true)
unfolding fields_valid state_fields_valid
approved-valid env r v w = ground arith

update_ready :
    (new : PreparedRequest) (rows : Rows)
    → is_blocking new.state && any (blocks new.payload_hash new.request_id) rows ≡ false
    → (rows' : Rows) × (update_row new rows ≡ ok rows')
unfolding update_row
update_ready new rows h = (replace_row new rows, rw h refl)

same_class_self : (c : MutationClass) → same_class c c ≡ true
same_class_self c = ground arith

expire_if_needed-alive :
    (env : Runtime) (r : PreparedRequest) (rows : Rows)
    → is_expired env r ≡ false
    → expire_if_needed env r rows ≡ ok (r, rows)
unfolding expire_if_needed
expire_if_needed-alive env r rows h = rw h refl

approval_candidate-succeeds :
    (env : Runtime) (id : String) (rows : Rows) (r : PreparedRequest)
    → find_row id rows ≡ some r
    → r.state ≡ awaiting_confirmation
    → is_expired env r ≡ false
    → approval_candidate env id r.payload_hash r.mutation_class rows ≡ ok (r, rows)
unfolding approval_candidate
approval_candidate-succeeds env id rows r f w alive = ground (
  arith,
  expire_if_needed-alive env r rows alive,
  str_eq_iff r.payload_hash r.payload_hash,
  same_class_self r.mutation_class,
)

updated-valid :
    (env : Runtime) (r : PreparedRequest)
    → fields_valid r ≡ true
    → updated env r ≡ ok (record r { response_summary = env.sanitize r.response_summary })
unfolding updated
updated-valid env r v = rw v refl

-- `approve` returns the approved request and the table with it.
approve-succeeds :
    (env : Runtime) (id : String) (rows rows' : Rows) (r : PreparedRequest)
    → find_row id rows ≡ some r
    → fields_valid r ≡ true
    → r.state ≡ awaiting_confirmation
    → is_expired env r ≡ false
    → store (approved env r) rows ≡ ok (tt, rows')
    → approve env id r.payload_hash r.mutation_class rows ≡ ok (approved env r, rows')
unfolding approve
approve-succeeds env id rows rows' r f v w alive u = ground (
  arith,
  approval_candidate-succeeds env id rows r f w alive,
  updated-valid env (record r { state = ready_to_execute; approval_count = 1 })
      (approved-valid env r v w).0,
)

start_execution-succeeds :
    (env : Runtime) (id : String) (rows rows' : Rows) (r : PreparedRequest)
    → find_row id rows ≡ some r
    → fields_valid (record r { state = executing }) ≡ true
    → r.state ≡ ready_to_execute
    → is_expired env r ≡ false
    → is_payload_hash r.payload_hash ≡ true
    → blocking_state r.payload_hash (some r.request_id) rows ≡ none
    → store_or_replay (started env r) r.payload_hash rows ≡ ok (tt, rows')
    → start_execution env id rows ≡ ok (started env r, rows')
unfolding start_execution assert_replay_allowed
start_execution-succeeds env id rows rows' r f v w alive hash free u = ground (
  arith,
  expire_if_needed-alive env r rows alive,
  updated-valid env (record r { state = executing }) v,
)

store-succeeds :
    (new : PreparedRequest) (rows rows' : Rows)
    → update_row new rows ≡ ok rows'
    → store new rows ≡ ok (tt, rows')
unfolding store
store-succeeds new rows rows' u = rw u refl

store_or_replay-succeeds :
    (new : PreparedRequest) (hash : String) (rows rows' : Rows)
    → update_row new rows ≡ ok rows'
    → store_or_replay new hash rows ≡ ok (tt, rows')
unfolding store_or_replay
store_or_replay-succeeds new hash rows rows' u = rw u refl

blocking_state-skip :
    (hash id : String) (x : PreparedRequest) (rows : Rows)
    → str_eq x.request_id id ≡ true
    → blocking_state hash (some id) (x ∷ rows) ≡ blocking_state hash (some id) rows
unfolding blocking_state
blocking_state-skip hash id x rows h = ground arith

blocking_state-cons :
    (hash id : String) (x : PreparedRequest) (rows rows' : Rows)
    → blocking_state hash (some id) rows' ≡ blocking_state hash (some id) rows
    → blocking_state hash (some id) (x ∷ rows') ≡ blocking_state hash (some id) (x ∷ rows)
unfolding blocking_state
blocking_state-cons hash id x rows rows' h = rw h refl

-- The row itself is excluded, so its own change unblocks nothing.
blocking_state-replace :
    (new : PreparedRequest) (hash : String) (rows : Rows)
    → blocking_state hash (some new.request_id) (replace_row new rows)
      ≡ blocking_state hash (some new.request_id) rows
unfolding replace_row
blocking_state-replace new hash [] = refl
blocking_state-replace new hash (x ∷ rows) =
    elim (Bool-cases (str_eq x.request_id new.request_id)) [
      | inl e ↦ rw e (
          blocking_state-skip hash new.request_id new (replace_row new rows)
            ((str_eq_iff new.request_id new.request_id).1 refl)
          ∙ blocking_state-replace new hash rows
          ∙ sym (blocking_state-skip hash new.request_id x rows e))
      | inr e ↦ rw e (
          blocking_state-cons hash new.request_id x rows (replace_row new rows)
            (blocking_state-replace new hash rows))
    ]

update_row-ok :
    (new : PreparedRequest) (rows rows' : Rows)
    → update_row new rows ≡ ok rows'
    → rows' ≡ replace_row new rows
unfolding update_row
update_row-ok new rows rows' u = ground arith

-- A request that awaits confirmation in a sound table, with a payload hash of 64 hexadecimal digits
-- that no other request blocks: its approval by hash and class, not yet due, returns it as ready to
-- execute with one approval; a start after that, not yet due either, returns it as executing; and
-- the table then holds it so.
pub approve-start_execution :
    (env env' : Runtime) (rows : Rows) (r : PreparedRequest)
    → IsSound rows
    → Holds rows r
    → r.state ≡ awaiting_confirmation
    → is_expired env r ≡ false
    → is_expired env' (approved env r) ≡ false
    → is_payload_hash r.payload_hash ≡ true
    → blocking_state r.payload_hash (some r.request_id) rows ≡ none
    → (rows1 rows2 : Rows) × (approve env r.request_id r.payload_hash r.mutation_class rows
        ≡ ok (approved env r, rows1))
      × (start_execution env' r.request_id rows1 ≡ ok (started env' (approved env r), rows2))
      × Holds rows2 (started env' (approved env r))
approve-start_execution env env' rows r s h w alive alive' hash free =
    let new = approved env r in
    let (rows1, u) = update_ready new rows refl in
    let here1 : find_row r.request_id rows1 ≡ some new = ground (
      arith,
      find_row-update r new rows rows1 r.request_id h u,
      str_eq_iff r.request_id r.request_id,
    ) in
    let free1 : blocking_state r.payload_hash (some r.request_id) rows1 ≡ none =
      ground
        (arith, update_row-ok new rows rows1 u, blocking_state-replace new r.payload_hash rows) in
    let (rows2, u') =
      update_ready (started env' new) rows1
        (blocking_state-any r.payload_hash r.request_id rows1 free1) in
    let (v1, v2) = approved-valid env r (s.valid r h) w in
    (
      rows1,
      rows2,
      approve-succeeds env r.request_id rows rows1 r h (s.valid r h) w alive
          (store-succeeds new rows rows1 u),
      start_execution-succeeds env' r.request_id rows1 rows2 new here1 v2 refl alive' hash free1
          (store_or_replay-succeeds (started env' new) r.payload_hash rows1 rows2 u'),
      ground (
        arith,
        find_row-update new (started env' new) rows1 rows2 r.request_id here1 u',
        str_eq_iff r.request_id r.request_id,
      ),
    )

-- ===== src/Execution/Requests/Table.antt =====
-- The table `requests` of execution/store.py, as SQLite keeps it: a primary key, and a unique index
-- over the payload hashes of the rows in a state that blocks replays.
pub mod Laws
use mercury_tools.Prelude.{
  ℕ, String, str_eq, Bool, true, false, not, ◌&&◌, ◌||◌, Option, none, some, List, [], ◌∷◌, ◌++◌,
  any, if◌then◌else◌, Result, ok, err,
}
use mercury_tools.Execution.Requests.Models.{
  RequestState, previewed, awaiting_confirmation, ready_to_execute, executing, succeeded, failed,
  outcome_unknown, PreparedRequest,
}

abbrev pub Rows : Type 0
Rows = List PreparedRequest

-- `_PENDING_STATES`
abbrev pub is_pending : RequestState → Bool
is_pending previewed = true
is_pending awaiting_confirmation = true
is_pending ready_to_execute = true
is_pending _ = false

-- `_REPLAY_BLOCKING_STATES`
abbrev pub is_blocking : RequestState → Bool
is_blocking executing = true
is_blocking succeeded = true
is_blocking outcome_unknown = true
is_blocking _ = false

-- `SELECT * FROM requests WHERE request_id = ?`
unfoldable pub find_row : String → Rows → Option PreparedRequest
find_row id [] = none
find_row id (r ∷ rows) = if str_eq r.request_id id then some r else find_row id rows

-- A row that blocks the hash, and is not the given request.
abbrev pub blocks : String → String → PreparedRequest → Bool
blocks hash id r = str_eq r.payload_hash hash && is_blocking r.state && not (str_eq r.request_id id)

pub data IntegrityError : Type 0 where
  integrity_error : IntegrityError

-- `INSERT`: the primary key, then the index.
unfoldable pub insert_row : PreparedRequest → Rows → Result IntegrityError Rows
insert_row new rows =
    if any (λ r. str_eq r.request_id new.request_id) rows
      || is_blocking new.state && any (blocks new.payload_hash new.request_id) rows
    then err integrity_error
    else ok (rows ++ new ∷ [])

unfoldable pub replace_row : PreparedRequest → Rows → Rows
replace_row new [] = []
replace_row new (r ∷ rows) =
    if str_eq r.request_id new.request_id
    then new ∷ replace_row new rows
    else r ∷ replace_row new rows

-- `UPDATE … WHERE request_id = ?`, of a row that is there.
unfoldable pub update_row : PreparedRequest → Rows → Result IntegrityError Rows
unfolding replace_row
update_row new rows =
    if is_blocking new.state && any (blocks new.payload_hash new.request_id) rows
    then err integrity_error
    else ok (replace_row new rows)

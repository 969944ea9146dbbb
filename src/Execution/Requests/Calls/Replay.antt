-- ===== src/Execution/Requests/Calls/Replay.antt =====
-- `start_execution` of execution/store.py and the replay of a payload.
use mercury_tools.Prelude.{
  String, str_eq_iff, true, false, none, some, [], ◌∷◌, any, err, ◌≡◌, ◌≢◌, refl, inl, inr, arith,
  Result-cases,
}
use mercury_tools.Execution.Requests.Models.{PreparedRequest}
use mercury_tools.Execution.Requests.Table.{Rows, is_blocking, blocks, find_row}
use mercury_tools.Execution.Requests.Transaction.{RequestError, transaction}
use mercury_tools.Execution.Requests.Store.{Runtime, blocking_state, start_execution}
use mercury_tools.Execution.Requests.Changes.{find_row-id}
use mercury_tools.Execution.Requests.Sound.{Holds}
use mercury_tools.Execution.Requests.Methods.Start.{start_execution-ok}

-- If no row blocks the hash, every row with it in a blocking state is the excluded one.
blocking_state-none :
    (hash id k : String) (rows : Rows) (r : PreparedRequest)
    → blocking_state hash (some id) rows ≡ none
    → find_row k rows ≡ some r
    → r.payload_hash ≡ hash
    → is_blocking r.state ≡ true
    → r.request_id ≡ id
unfolding blocking_state find_row
blocking_state-none hash id k [] r n f p b = absurd (ground arith)
blocking_state-none hash id k (x ∷ rows) r n f p b = ground (
  arith,
  blocking_state-none hash id k rows r,
  str_eq_iff x.payload_hash hash,
  str_eq_iff x.request_id id,
)

pub blocking_state-any :
    (hash id : String) (rows : Rows)
    → blocking_state hash (some id) rows ≡ none
    → any (blocks hash id) rows ≡ false
unfolding blocking_state
blocking_state-any hash id [] n = refl
blocking_state-any hash id (x ∷ rows) n = ground (arith, blocking_state-any hash id rows)

-- While a request is executing, succeeded or of unknown outcome, `start_execution` of another request
-- with the same payload hash raises, and the table is as it was.
pub start_execution-blocked :
    (env : Runtime) (id : String) (rows : Rows) (r other : PreparedRequest)
    → find_row id rows ≡ some r
    → Holds rows other
    → is_blocking other.state ≡ true
    → other.payload_hash ≡ r.payload_hash
    → other.request_id ≢ id
    → (e : RequestError) × (transaction (start_execution env id) rows ≡ (err e, rows))
start_execution-blocked env id rows r other f h b p n =
    elim (Result-cases (start_execution env id rows)) [
      | inr (e, q) ↦ (e, rw q refl)
      | inl ((a, rows'), q) ↦
          let (old, f', s, alive, free, _, _, _) = start_execution-ok env id a rows rows' q in
          absurd (
            ground (
              arith,
              blocking_state-none old.payload_hash old.request_id other.request_id rows other free,
              find_row-id id rows old f',
            ))
    ]

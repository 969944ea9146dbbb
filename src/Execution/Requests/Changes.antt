-- ===== src/Execution/Requests/Changes.antt =====
-- What a method of the request store may do to the table: insert an awaiting preview, or move one
-- request along its life cycle with its binding untouched.
use mercury_tools.Prelude.{
  String, str_eq_iff, Bool, true, false, Option, none, some, [], ◌∷◌, Result, ok, err, ◌≡◌, refl,
  ◌⊎◌, arith, subst, sym,
}
use mercury_tools.Execution.Policy.{MutationClass}
use mercury_tools.Execution.Requests.Models.{
  RequestState, previewed, awaiting_confirmation, ready_to_execute, executing, succeeded, failed,
  outcome_unknown, PreparedRequest, fields_valid,
}
use mercury_tools.Execution.Requests.Table.{
  Rows, IntegrityError, integrity_error, find_row, insert_row, update_row,
}
use mercury_tools.Execution.Requests.Transaction.{
  RequestError, request_store_unavailable, Tx, written, pure, lift, ◌>>=◌, ◌>>◌,
}
use mercury_tools.Execution.Requests.Store.{Runtime, updated, store}

-- What a confirmation is bound to: every field that no method writes.
abbrev pub frozen : PreparedRequest → PreparedRequest
frozen r = record r {
  approval_count = 0;
  state = previewed;
  failure_reason = none;
  response_summary = none;
}

-- The life cycle of a request.
abbrev pub may_move : RequestState → RequestState → Bool
may_move previewed failed = true
may_move awaiting_confirmation failed = true
may_move awaiting_confirmation ready_to_execute = true
may_move ready_to_execute failed = true
may_move ready_to_execute executing = true
may_move executing succeeded = true
may_move executing failed = true
may_move executing outcome_unknown = true
may_move outcome_unknown succeeded = true
may_move outcome_unknown failed = true
may_move _ _ = false

-- `Approver` says which requests may be approved.
pub record Moves (Approver : PreparedRequest → Type 0) (old new : PreparedRequest) : Type 0 where
  pub binding : frozen old ≡ frozen new
  pub edge : may_move old.state new.state ≡ true
  pub valid : fields_valid new ≡ true
  pub approval :
      (new.approval_count ≡ old.approval_count)
      ⊎ (Approver old × (old.state ≡ awaiting_confirmation) × (new.state ≡ ready_to_execute))

pub data Change (Approver : PreparedRequest → Type 0) (rows rows' : Rows) : Type 0 where
  inserted :
      (new : PreparedRequest)
      → new.state ≡ awaiting_confirmation
      → new.approval_count ≡ 0
      → fields_valid new ≡ true
      → insert_row new rows ≡ ok rows'
      → Change Approver rows rows'
  moved :
      (old new : PreparedRequest)
      → find_row old.request_id rows ≡ some old
      → Moves Approver old new
      → update_row new rows ≡ ok rows'
      → Change Approver rows rows'

pub data Changes (Approver : PreparedRequest → Type 0) (rows : Rows) : Rows → Type 0 where
  here : Changes Approver rows rows
  next :
      {rows' rows'' : Rows}
      → Changes Approver rows rows'
      → Change Approver rows' rows''
      → Changes Approver rows rows''

pub Changes-trans :
    {Approver : PreparedRequest → Type 0} {a b c : Rows}
    → Changes Approver a b
    → Changes Approver b c
    → Changes Approver a c
Changes-trans p here = p
Changes-trans p (next q t) = next (Changes-trans p q) t

-- No request may be approved.
abbrev pub Nobody : PreparedRequest → Type 0
Nobody r = ⊥

-- Only the request with this id, payload and class may be approved.
abbrev pub Confirmed : String → String → MutationClass → PreparedRequest → Type 0
Confirmed id hash class r =
    (r.request_id ≡ id) × (r.payload_hash ≡ hash) × (r.mutation_class ≡ class)

pub find_row-id :
    (id : String) (rows : Rows) (r : PreparedRequest)
    → find_row id rows ≡ some r
    → r.request_id ≡ id
unfolding find_row
find_row-id id [] r h = cc
find_row-id id (x ∷ rows) r h = ground (arith, str_eq_iff x.request_id id, find_row-id id rows r)

pub find_row_self :
    (id : String) (rows : Rows) (r : PreparedRequest)
    → find_row id rows ≡ some r
    → find_row r.request_id rows ≡ some r
find_row_self id rows r h = subst (λ k. find_row k rows ≡ some r) (sym (find_row-id id rows r h)) h

-- The end of most methods: validate the request with its new fields and write it.
abbrev pub finish : Runtime → PreparedRequest → Tx PreparedRequest
finish env new = do u ← lift (updated env new); store u; pure u

pub written-ok :
    (x : Result IntegrityError Rows) (e : RequestError) (rows' : Rows)
    → written x e ≡ ok (tt, rows')
    → x ≡ ok rows'
written-ok (ok rows) e rows' h = cc
written-ok (err integrity_error) e rows' h = cc

pub store-ok :
    (new : PreparedRequest) (rows rows' : Rows)
    → store new rows ≡ ok (tt, rows')
    → update_row new rows ≡ ok rows'
unfolding store
store-ok new rows rows' h = written-ok (update_row new rows) request_store_unavailable rows' h

pub finish-ok :
    (env : Runtime) (new : PreparedRequest) (rows rows' : Rows) (r : PreparedRequest)
    → finish env new rows ≡ ok (r, rows')
    → (fields_valid new ≡ true)
      × (r ≡ record new { response_summary = env.sanitize new.response_summary })
      × (update_row r rows ≡ ok rows')
unfolding updated
finish-ok env new rows rows' r h =
    let sanitized = record new { response_summary = env.sanitize new.response_summary } in
    ground (arith, store-ok sanitized rows rows')

pub fields_valid-summary :
    (new : PreparedRequest) (summary : Option String)
    → fields_valid (record new { response_summary = summary }) ≡ fields_valid new
unfolding fields_valid
fields_valid-summary new summary = refl

-- An allowed change, whose summary is sanitised when it is written.
pub sanitized-Moves :
    (Approver : PreparedRequest → Type 0) (env : Runtime) (old new r : PreparedRequest)
    → frozen old ≡ frozen new
    → may_move old.state new.state ≡ true
    → fields_valid new ≡ true
    → ((new.approval_count ≡ old.approval_count)
        ⊎ (Approver old × (old.state ≡ awaiting_confirmation) × (new.state ≡ ready_to_execute)))
    → r ≡ record new { response_summary = env.sanitize new.response_summary }
    → Moves Approver old r
sanitized-Moves Approver env old new r b e v a is_new = record {
  binding = rw is_new b;
  edge = rw is_new e;
  valid = rw is_new (rw fields_valid-summary v);
  approval = rw is_new a;
}

pub finish-Changes :
    (Approver : PreparedRequest → Type 0) (env : Runtime) (old new : PreparedRequest)
    (rows rows' : Rows) (r : PreparedRequest)
    → find_row old.request_id rows ≡ some old
    → frozen old ≡ frozen new
    → may_move old.state new.state ≡ true
    → ((new.approval_count ≡ old.approval_count)
        ⊎ (Approver old × (old.state ≡ awaiting_confirmation) × (new.state ≡ ready_to_execute)))
    → finish env new rows ≡ ok (r, rows')
    → Changes Approver rows rows'
finish-Changes Approver env old new rows rows' r f b e a h =
    let (v, is_new, w) = finish-ok env new rows rows' r h in
    next here (moved old r f (sanitized-Moves Approver env old new r b e v a is_new) w)

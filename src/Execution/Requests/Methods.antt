-- ===== src/Execution/Requests/Methods.antt =====
-- Every method of the request store is a sequence of changes.
pub mod Approve
pub mod Start
pub mod Complete
pub mod Create
pub mod Clear
pub mod InvalidatePending
pub mod Cleared
use mercury_tools.Prelude.{
  ℕ, String, Bool, true, false, not, ◌&&◌, Option, none, some, List, [], ◌∷◌, Result, ok, err, ◌≡◌,
  ◌≢◌, refl, ◌⊎◌, inl, inr, arith, Bool-cases, Option-cases, Result-cases, subst, ap, leb,
}
use mercury_tools.Execution.Policy.{MutationClass}
use mercury_tools.Execution.Requests.Models.{
  RequestState, previewed, awaiting_confirmation, ready_to_execute, executing, succeeded, failed,
  outcome_unknown, PreparedRequest, is_reason, is_payload_hash, fields_valid,
}
use mercury_tools.Execution.Requests.Table.{
  Rows, is_pending, is_blocking, find_row, replace_row, insert_row, update_row,
}
use mercury_tools.Execution.Requests.Transaction.{
  RequestError, invalid_invalidation_reason, invalid_failure_reason, raise_if, Tx, pure, lift,
  ◌>>=◌, ◌>>◌,
}
use mercury_tools.Execution.Requests.Store.{
  Runtime, updated, store, fetch, expire_if_needed, expired_request, is_expired, require_state, get,
  invalidate, require_ready, is_ready, fail_before_dispatch, approval_candidate, approve,
}
use mercury_tools.Execution.Requests.Changes.{
  frozen, may_move, Nobody, Changes, here, find_row_self, finish-Changes, finish-ok, finish,
}

pub pending_may_fail : (s : RequestState) → is_pending s ≡ true → may_move s failed ≡ true
pending_may_fail s h = ground arith

ready_may_move : (s : RequestState) → is_ready s ≡ true → may_move s failed ≡ true
ready_may_move s h = ground arith

pub expire_if_needed-Changes :
    (env : Runtime) (old r : PreparedRequest) (rows rows' : Rows)
    → find_row old.request_id rows ≡ some old
    → expire_if_needed env old rows ≡ ok (r, rows')
    → Changes Nobody rows rows'
unfolding expire_if_needed
expire_if_needed-Changes env old r rows rows' f h = elim (Bool-cases (is_expired env old)) [
  | inl e ↦
      finish-Changes Nobody env old (expired_request old) rows rows' r f refl
        (ground (arith, pending_may_fail old.state)) (inl refl) (rw e at h)
  | inr e ↦ subst (Changes Nobody rows) (ground arith) here
]

-- A request that is not failed after the test of its expiry was not expired, and nothing was written.
pub expire_if_needed-live :
    (env : Runtime) (old r : PreparedRequest) (rows rows' : Rows)
    → expire_if_needed env old rows ≡ ok (r, rows')
    → r.state ≢ failed
    → (r ≡ old) × (rows' ≡ rows) × (is_expired env old ≡ false)
unfolding expire_if_needed
expire_if_needed-live env old r rows rows' h n = elim (Bool-cases (is_expired env old)) [
  | inl e ↦ absurd (
      n (
        ap (λ (x : PreparedRequest). x.state)
          (finish-ok env (expired_request old) rows rows' r (rw e at h)).1))
  | inr e ↦ (ground arith, ground arith, e)
]

-- How most methods begin: read the request, expire it if it is due, and test its state.
abbrev pub live :
    {B : Type 0} → Runtime → String → (RequestState → Bool) → (PreparedRequest → Tx B) → Tx B
live env id allowed k = do
  stored ← fetch id
  request ← expire_if_needed env stored
  require_state (allowed request.state) request
  k request

-- If such a method returns, the request is there, not due, and in an allowed state, and the rest of
-- the method has run on it and on the table as it was.
pub live-ok :
    {B : Type 0} (env : Runtime) (id : String) (allowed : RequestState → Bool)
    (k : PreparedRequest → Tx B) (x : B × Rows) (rows : Rows)
    → allowed failed ≡ false
    → live env id allowed k rows ≡ ok x
    → (old : PreparedRequest) × (find_row id rows ≡ some old)
      × (allowed old.state ≡ true)
      × (is_expired env old ≡ false)
      × (k old rows ≡ ok x)
unfolding fetch
live-ok env id allowed k x rows not_failed h = elim (Option-cases (find_row id rows)) [
  | inl missing ↦ absurd (ground arith)
  | inr (old, f) ↦ elim (Result-cases (expire_if_needed env old rows)) [
    | inr (e, p) ↦ absurd (ground arith)
    | inl ((req, rows1), p) ↦
        let (same, unchanged, alive) =
          expire_if_needed-live env old req rows rows1 p (ground arith) in
        (old, f, ground arith, alive, ground arith)
  ]
]

raise_if-ok :
    {B : Type 0} (b : Bool) (e : RequestError) (m : Tx B) (x : B × Rows) (rows : Rows)
    → (raise_if b e >> m) rows ≡ ok x
    → (b ≡ false) × (m rows ≡ ok x)
raise_if-ok true e m x rows h = cc
raise_if-ok false e m x rows h = (refl, h)

-- A method on a request that is not due, which ends by writing the request with new fields.
live-finish-Changes :
    (env : Runtime) (id : String) (allowed : RequestState → Bool)
    (change : PreparedRequest → PreparedRequest) (r : PreparedRequest) (rows rows' : Rows)
    → allowed failed ≡ false
    → ((old : PreparedRequest) → frozen old ≡ frozen (change old))
    → ((old : PreparedRequest)
        → allowed old.state ≡ true
        → may_move old.state (change old).state ≡ true)
    → ((old : PreparedRequest)
        → allowed old.state ≡ true
        → ((change old).approval_count ≡ old.approval_count)
          ⊎ (⊥ × (old.state ≡ awaiting_confirmation) × ((change old).state ≡ ready_to_execute)))
    → live env id allowed (λ old. finish env (change old)) rows ≡ ok (r, rows')
    → Changes Nobody rows rows'
live-finish-Changes env id allowed change r rows rows' nf b e a h =
    let (old, f, s, alive, k) =
      live-ok env id allowed (λ x. finish env (change x)) (r, rows') rows nf h in
    finish-Changes Nobody env old (change old) rows rows' r (find_row_self id rows old f) (b old)
      (e old s) (a old s) k

pub get-Changes :
    (env : Runtime) (id : String) (r : PreparedRequest) (rows rows' : Rows)
    → get env id rows ≡ ok (r, rows')
    → Changes Nobody rows rows'
unfolding get
get-Changes env id r rows rows' h = elim (Option-cases (find_row id rows)) [
  | inl missing ↦ absurd (ground arith)
  | inr (old, f) ↦
      expire_if_needed-Changes env old r rows rows' (find_row_self id rows old f) (ground arith)
]

pub invalidate-Changes :
    (env : Runtime) (id reason : String) (r : PreparedRequest) (rows rows' : Rows)
    → invalidate env id reason rows ≡ ok (r, rows')
    → Changes Nobody rows rows'
unfolding invalidate
invalidate-Changes env id reason r rows rows' h =
    let drop = λ (x : PreparedRequest). record x { state = failed; failure_reason = some reason } in
    live-finish-Changes env id is_pending drop r rows rows' refl (λ x. refl)
      (λ x. pending_may_fail x.state) (λ x p. inl refl)
      (raise_if-ok (not (is_reason reason)) invalid_invalidation_reason
        (live env id is_pending (λ x. finish env (drop x))) (r, rows') rows h).1

pub require_ready-Changes :
    (env : Runtime) (id : String) (r : PreparedRequest) (rows rows' : Rows)
    → require_ready env id rows ≡ ok (r, rows')
    → Changes Nobody rows rows'
unfolding require_ready
require_ready-Changes env id r rows rows' h =
    subst (Changes Nobody rows)
      (ground (arith, live-ok env id is_ready pure (r, rows') rows refl h)) here

pub fail_before_dispatch-Changes :
    (env : Runtime) (id reason : String) (summary : Option String) (r : PreparedRequest)
    (rows rows' : Rows)
    → fail_before_dispatch env id reason summary rows ≡ ok (r, rows')
    → Changes Nobody rows rows'
unfolding fail_before_dispatch
fail_before_dispatch-Changes env id reason summary r rows rows' h =
    let drop = λ (x : PreparedRequest). record x {
      state = failed;
      failure_reason = some reason;
      response_summary = summary;
    } in
    live-finish-Changes env id is_ready drop r rows rows' refl (λ x. refl)
      (λ x p. ready_may_move x.state p) (λ x p. inl refl)
      (raise_if-ok (not (is_reason reason)) invalid_failure_reason
        (live env id is_ready (λ x. finish env (drop x))) (r, rows') rows h).1

-- ===== src/Execution/Requests/Pending.antt =====
-- `LocalRequestStore.invalidate_pending` of execution/store.py, when credentials or a connector change.
use mercury_tools.Prelude.{
  ℕ, String, str_eq, Bool, true, not, ◌&&◌, Option, none, some, [], ◌∷◌, if◌then◌else◌, length,
}
use mercury_tools.Execution.Requests.Models.{failed, PreparedRequest, is_reason, is_identifier}
use mercury_tools.Execution.Requests.Table.{Rows, is_pending}
use mercury_tools.Execution.Requests.Transaction.{
  invalid_invalidation_reason, invalid_invalidation_scope, Tx, pure, lift, gets, ◌>>=◌, ◌>>◌,
  raise_if,
}
use mercury_tools.Execution.Requests.Store.{Runtime, updated, store, expire_if_needed}

abbrev pub in_scope : Option String → String → Bool
in_scope none value = true
in_scope (some wanted) value = str_eq value wanted

-- The rows of a `SELECT` with the given test.
unfoldable pub select : (PreparedRequest → Bool) → Rows → Rows
select test [] = []
select test (r ∷ rows) = let rest = select test rows in if test r then r ∷ rest else rest

-- The loop of `_expire_pending`.
unfoldable pub expire_rows : Runtime → Rows → Tx (Unit {0})
expire_rows env [] = pure tt
expire_rows env (r ∷ rows) = do expired ← expire_if_needed env r; expire_rows env rows

unfoldable pub expire_pending : Runtime → Tx (Unit {0})
expire_pending env = do rows ← gets (select (λ r. is_pending r.state)); expire_rows env rows

-- The loop of `invalidate_pending`.
unfoldable pub drop_rows : Runtime → String → Rows → Tx (Unit {0})
drop_rows env reason [] = pure tt
drop_rows env reason (r ∷ rows) = do
  dropped ← lift (updated env (record r { state = failed; failure_reason = some reason }))
  store dropped
  drop_rows env reason rows

abbrev pub valid_scope : Option String → Bool
valid_scope none = true
valid_scope (some value) = is_identifier value

unfoldable pub invalidate_pending : Runtime → Option String → Option String → String → Tx ℕ
invalidate_pending env connector_id environment reason = do
  raise_if (not (valid_scope connector_id)) invalid_invalidation_scope
  raise_if (not (valid_scope environment)) invalid_invalidation_scope
  raise_if (not (is_reason reason)) invalid_invalidation_reason
  expire_pending env
  rows ← gets (
      select (λ r.
        is_pending r.state
        && in_scope connector_id r.connector_id
        && in_scope environment r.environment))
  drop_rows env reason rows
  pure (length rows)

-- ===== src/Execution/Requests/Methods/InvalidatePending.antt =====
-- `invalidate_pending` of execution/store.py: its two loops, one after the other.
use mercury_tools.Prelude.{
  ℕ, String, Bool, true, ◌&&◌, Option, ok, ◌≡◌, inl, inr, arith, Result-cases, subst,
}
use mercury_tools.Execution.Requests.Models.{PreparedRequest}
use mercury_tools.Execution.Requests.Table.{Rows, is_pending}
use mercury_tools.Execution.Requests.Table.Laws.{Distinct}
use mercury_tools.Execution.Requests.Store.{Runtime}
use mercury_tools.Execution.Requests.Pending.{
  select, expire_pending, drop_rows, in_scope, invalidate_pending,
}
use mercury_tools.Execution.Requests.Changes.{Nobody, Changes, Changes-trans}
use mercury_tools.Execution.Requests.Sound.{Changes-Distinct}
use mercury_tools.Execution.Requests.Methods.Clear.{
  drop_rows-Changes, expire_rows-Changes, select-Snapshot,
}

abbrev pub in_scopes : Option String → Option String → PreparedRequest → Bool
in_scopes connector_id environment r =
    is_pending r.state && in_scope connector_id r.connector_id && in_scope environment r.environment

pub in_scopes-pending :
    (connector_id environment : Option String) (r : PreparedRequest)
    → in_scopes connector_id environment r ≡ true
    → is_pending r.state ≡ true
in_scopes-pending connector_id environment r h = ground arith

pub expire_pending-Changes :
    (env : Runtime) (rows rows' : Rows)
    → Distinct rows
    → expire_pending env rows ≡ ok (tt, rows')
    → Changes Nobody rows rows'
unfolding expire_pending
expire_pending-Changes env rows rows' d h =
    expire_rows-Changes env (select (λ r. is_pending r.state) rows) rows rows'
      (select-Snapshot (λ r. is_pending r.state) rows (λ r p. p) d) h

pub invalidate_pending-Changes :
    (env : Runtime) (connector_id environment : Option String) (reason : String) (n : ℕ)
    (rows rows' : Rows)
    → Distinct rows
    → invalidate_pending env connector_id environment reason rows ≡ ok (n, rows')
    → Changes Nobody rows rows'
unfolding invalidate_pending
invalidate_pending-Changes env connector_id environment reason n rows rows' d h =
    elim (Result-cases (expire_pending env rows)) [
      | inr (e, p) ↦ absurd (ground arith)
      | inl ((u, rows1), p) ↦
          let first = expire_pending-Changes env rows rows1 d p in
          let test = in_scopes connector_id environment in
          elim (Result-cases (drop_rows env reason (select test rows1) rows1)) [
            | inr (e, q) ↦ absurd (ground arith)
            | inl ((v, rows2), q) ↦
                let second =
                  drop_rows-Changes env reason (select test rows1) rows1 rows2
                    (select-Snapshot test rows1 (in_scopes-pending connector_id environment)
                      (Changes-Distinct first d))
                    q in
                subst (Changes Nobody rows) (ground arith) (Changes-trans first second)
          ]
    ]

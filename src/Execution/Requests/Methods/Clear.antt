-- ===== src/Execution/Requests/Methods/Clear.antt =====
-- `invalidate_pending` of execution/store.py.
use mercury_tools.Prelude.{
  String, str_eq_iff, Bool, true, false, none, some, [], ◌∷◌, ok, ◌≡◌, refl, inl, inr, arith,
  Bool-cases, Result-cases, subst, sym, ◌∙◌,
}
use mercury_tools.Execution.Requests.Models.{failed, PreparedRequest}
use mercury_tools.Execution.Requests.Table.{Rows, is_pending, find_row, update_row}
use mercury_tools.Execution.Requests.Store.{Runtime, expire_if_needed, expired_request, is_expired}
use mercury_tools.Execution.Requests.Changes.{
  Nobody, Changes, here, Changes-trans, finish, finish-ok, finish-Changes,
}
use mercury_tools.Execution.Requests.Pending.{select, expire_rows, drop_rows}
use mercury_tools.Execution.Requests.Methods.{expire_if_needed-Changes, pending_may_fail}
use mercury_tools.Execution.Requests.Table.Laws.{Distinct, find_row-update}

-- A snapshot of rows that are still in the table as they were read, each once, and all pending.
abbrev pub Snapshot : Rows → Rows → Type 0
Snapshot rows [] = Unit
Snapshot rows (r ∷ rest) =
    (find_row r.request_id rows ≡ some r)
    × (is_pending r.state ≡ true)
    × (find_row r.request_id rest ≡ none)
    × Snapshot rows rest

-- A write to one row leaves a snapshot of other rows current.
pub Snapshot-update :
    (old new : PreparedRequest) (rows rows' snapshot : Rows)
    → find_row new.request_id rows ≡ some old
    → update_row new rows ≡ ok rows'
    → find_row new.request_id snapshot ≡ none
    → Snapshot rows snapshot
    → Snapshot rows' snapshot
unfolding find_row
Snapshot-update old new rows rows' [] f w a s = tt
Snapshot-update old new rows rows' (r ∷ rest) f w a (current, pending, once, s) = (
  ground (
    arith,
    find_row-update old new rows rows' r.request_id f w,
    str_eq_iff new.request_id r.request_id,
    str_eq_iff r.request_id new.request_id,
  ),
  pending,
  once,
  Snapshot-update old new rows rows' rest f w (ground arith) s,
)

abbrev pub dropped : String → PreparedRequest → PreparedRequest
dropped reason r = record r { state = failed; failure_reason = some reason }

pub drop_rows-Changes :
    (env : Runtime) (reason : String) (snapshot rows rows' : Rows)
    → Snapshot rows snapshot
    → drop_rows env reason snapshot rows ≡ ok (tt, rows')
    → Changes Nobody rows rows'
unfolding drop_rows
drop_rows-Changes env reason [] rows rows' s h = subst (Changes Nobody rows) (ground arith) here
drop_rows-Changes env reason (r ∷ rest) rows rows' (current, pending, once, s) h =
    elim (Result-cases (finish env (dropped reason r) rows)) [
      | inr (e, p) ↦ absurd (ground arith)
      | inl ((u, rows1), p) ↦
          let (valid, is_new, w) = finish-ok env (dropped reason r) rows rows1 u p in
          Changes-trans
            (finish-Changes Nobody env r (dropped reason r) rows rows1 u current refl
              (pending_may_fail r.state pending) (inl refl) p)
            (drop_rows-Changes env reason rest rows1 rows'
              (Snapshot-update r u rows rows1 rest (rw is_new current) w (rw is_new once) s)
              (ground arith))
    ]

expired_state :
    (r : PreparedRequest) (env : Runtime) → is_expired env r ≡ true → is_pending r.state ≡ true
expired_state r env h = ground arith

-- The request after the test of its expiry, when it was due.
expire_if_needed-due :
    (env : Runtime) (r : PreparedRequest) (rows : Rows)
    → is_expired env r ≡ true
    → expire_if_needed env r rows ≡ finish env (expired_request r) rows
unfolding expire_if_needed
expire_if_needed-due env r rows e = rw e

expire_if_needed-alive :
    (env : Runtime) (r : PreparedRequest) (rows : Rows)
    → is_expired env r ≡ false
    → expire_if_needed env r rows ≡ ok (r, rows)
unfolding expire_if_needed
expire_if_needed-alive env r rows e = rw e

pub expire_rows-Changes :
    (env : Runtime) (snapshot rows rows' : Rows)
    → Snapshot rows snapshot
    → expire_rows env snapshot rows ≡ ok (tt, rows')
    → Changes Nobody rows rows'
unfolding expire_rows
expire_rows-Changes env [] rows rows' s h = subst (Changes Nobody rows) (ground arith) here
expire_rows-Changes env (r ∷ rest) rows rows' (current, pending, once, s) h =
    elim (Bool-cases (is_expired env r)) [
      | inr alive ↦
          expire_rows-Changes env rest rows rows' s
            (ground (arith, expire_if_needed-alive env r rows alive))
      | inl due ↦ elim (Result-cases (expire_if_needed env r rows)) [
        | inr (e, p) ↦ absurd (ground arith)
        | inl ((u, rows1), p) ↦
            let p' = sym (expire_if_needed-due env r rows due) ∙ p in
            let (valid, is_new, w) = finish-ok env (expired_request r) rows rows1 u p' in
            Changes-trans (expire_if_needed-Changes env r u rows rows1 current p) (
              expire_rows-Changes env rest rows1 rows'
                (Snapshot-update r u rows rows1 rest (rw is_new current) w (rw is_new once) s)
                (ground arith))
      ]
    ]

find_row-select :
    (test : PreparedRequest → Bool) (id : String) (rows : Rows)
    → find_row id rows ≡ none
    → find_row id (select test rows) ≡ none
unfolding find_row select
find_row-select test id [] h = refl
find_row-select test id (r ∷ rows) h = ground (arith, find_row-select test id rows)

Snapshot-cons :
    (x : PreparedRequest) (rows snapshot : Rows)
    → find_row x.request_id rows ≡ none
    → Snapshot rows snapshot
    → Snapshot (x ∷ rows) snapshot
unfolding find_row
Snapshot-cons x rows [] a s = tt
Snapshot-cons x rows (r ∷ rest) a (current, pending, once, s) = (
  ground (arith, str_eq_iff x.request_id r.request_id),
  pending,
  once,
  Snapshot-cons x rows rest a s,
)

-- What a `SELECT` of pending rows reads is a snapshot.
pub select-Snapshot :
    (test : PreparedRequest → Bool) (rows : Rows)
    → ((r : PreparedRequest) → test r ≡ true → is_pending r.state ≡ true)
    → Distinct rows
    → Snapshot rows (select test rows)
unfolding select find_row
select-Snapshot test [] p d = tt
select-Snapshot test (r ∷ rows) p d = elim (Bool-cases (test r)) [
  | inl e ↦ rw e (
    ground (arith, str_eq_iff r.request_id r.request_id),
    p r e,
    find_row-select test r.request_id rows d.0,
    Snapshot-cons r rows (select test rows) d.0 (select-Snapshot test rows p d.1),
  )
  | inr e ↦ rw e (Snapshot-cons r rows (select test rows) d.0 (select-Snapshot test rows p d.1))
]

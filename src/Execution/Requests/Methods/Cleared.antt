-- ===== src/Execution/Requests/Methods/Cleared.antt =====
-- What `invalidate_pending` of execution/store.py leaves: no pending request in its scope.
use mercury_tools.Prelude.{
  ℕ, String, str_eq, Bool, true, false, Option, none, some, [], ◌∷◌, ok, ◌≡◌, refl, ◌⊎◌, inl, inr,
  arith, Bool-cases, Result-cases, subst, ap, sym, if◌then◌else◌,
}
use mercury_tools.Execution.Requests.Models.{failed, PreparedRequest}
use mercury_tools.Execution.Requests.Table.{Rows, is_pending, find_row}
use mercury_tools.Execution.Requests.Table.Laws.{find_row-update}
use mercury_tools.Execution.Requests.Store.{Runtime}
use mercury_tools.Execution.Requests.Pending.{
  select, drop_rows, expire_pending, in_scope, invalidate_pending,
}
use mercury_tools.Execution.Requests.Changes.{finish, finish-ok}
use mercury_tools.Execution.Requests.Sound.{Holds, IsSound, Changes-Distinct}
use mercury_tools.Execution.Requests.Methods.Clear.{
  Snapshot, Snapshot-update, select-Snapshot, dropped,
}
use mercury_tools.Execution.Requests.Methods.InvalidatePending.{
  in_scopes, in_scopes-pending, expire_pending-Changes,
}

find_row-selected :
    (test : PreparedRequest → Bool) (id : String) (rows : Rows) (r : PreparedRequest)
    → find_row id rows ≡ some r
    → test r ≡ true
    → find_row id (select test rows) ≡ some r
unfolding find_row select
find_row-selected test id [] r f t = f
find_row-selected test id (x ∷ rows) r f t = ground (arith, find_row-selected test id rows r)

-- The row that was dropped has failed, and the others are as they were.
after_drop :
    (old new : PreparedRequest) (rows rows' : Rows) (r : PreparedRequest)
    → (find_row r.request_id rows'
        ≡ (if str_eq new.request_id r.request_id then some new else find_row r.request_id rows))
    → new.state ≡ failed
    → new.request_id ≡ old.request_id
    → Holds rows' r
    → (r.state ≡ failed) ⊎ (Holds rows r × (str_eq old.request_id r.request_id ≡ false))
after_drop old new rows rows' r at s i h = elim (Bool-cases (str_eq new.request_id r.request_id)) [
  | inl e ↦ inl (ground arith)
  | inr e ↦ inr (ground arith, subst (λ x. str_eq x r.request_id ≡ false) i e)
]

-- After the loop, a row has failed or was not in the snapshot.
drop_rows-left :
    (env : Runtime) (reason : String) (snapshot rows rows' : Rows) (r : PreparedRequest)
    → Snapshot rows snapshot
    → drop_rows env reason snapshot rows ≡ ok (tt, rows')
    → Holds rows' r
    → (r.state ≡ failed) ⊎ (Holds rows r × (find_row r.request_id snapshot ≡ none))
unfolding drop_rows find_row
drop_rows-left env reason [] rows rows' r s h k =
    inr (subst (λ x. Holds x r) (ground arith) k, refl)
drop_rows-left env reason (x ∷ rest) rows rows' r (current, pending, once, s) h k =
    elim (Result-cases (finish env (dropped reason x) rows)) [
      | inr (e, p) ↦ absurd (ground arith)
      | inl ((u, rows1), p) ↦
          let (valid, is_new, w) = finish-ok env (dropped reason x) rows rows1 u p in
          let f : find_row u.request_id rows ≡ some x = rw is_new current in
          elim (drop_rows-left env reason rest rows1 rows' r
            (Snapshot-update x u rows rows1 rest f w (rw is_new once) s) (ground arith) k) [
              | inl e ↦ inl e
              | inr (k1, a) ↦
                  elim (after_drop x u rows rows1 r
                    (find_row-update x u rows rows1 r.request_id f w)
                    (ap (λ (y : PreparedRequest). y.state) is_new)
                    (ap (λ (y : PreparedRequest). y.request_id) is_new) k1) [
                      | inl e ↦ inl e
                      | inr (k0, n) ↦ inr (k0, ground arith)
                    ]
            ]
    ]

out_of_scope :
    (connector_id environment : Option String) (r : PreparedRequest)
    (found : Option PreparedRequest)
    → in_scope connector_id r.connector_id ≡ true
    → in_scope environment r.environment ≡ true
    → (in_scopes connector_id environment r ≡ true → found ≡ some r)
    → found ≡ none
    → is_pending r.state ≡ false
out_of_scope connector_id environment r found c e f a = elim (Bool-cases (is_pending r.state)) [
  | inr n ↦ n
  | inl p ↦
      let t : in_scopes connector_id environment r ≡ true = rw (p, c, e) refl in
      absurd (ground (arith, f t))
]

-- When `invalidate_pending` returns on a sound table, no request of the given connector and environment
-- (of any, where one is not given) is previewed, awaiting confirmation or ready to execute.
pub invalidate_pending-clears :
    (env : Runtime) (connector_id environment : Option String) (reason : String) (n : ℕ)
    (rows rows' : Rows) (r : PreparedRequest)
    → IsSound rows
    → invalidate_pending env connector_id environment reason rows ≡ ok (n, rows')
    → Holds rows' r
    → in_scope connector_id r.connector_id ≡ true
    → in_scope environment r.environment ≡ true
    → is_pending r.state ≡ false
unfolding invalidate_pending
invalidate_pending-clears env connector_id environment reason n rows rows' r sound h k c e =
    elim (Result-cases (expire_pending env rows)) [
      | inr (x, p) ↦ absurd (ground arith)
      | inl ((u, rows1), p) ↦
          let d =
            Changes-Distinct (expire_pending-Changes env rows rows1 sound.distinct p)
              sound.distinct in
          let test = in_scopes connector_id environment in
          elim (Result-cases (drop_rows env reason (select test rows1) rows1)) [
            | inr (x, q) ↦ absurd (ground arith)
            | inl ((v, rows2), q) ↦
                let same : rows2 ≡ rows' = ground arith in
                elim (drop_rows-left env reason (select test rows1) rows1 rows2 r
                  (select-Snapshot test rows1 (in_scopes-pending connector_id environment) d) q
                  (subst (λ x. Holds x r) (sym same) k)) [
                    | inl f ↦ rw f refl
                    | inr (k1, a) ↦
                        out_of_scope connector_id environment r
                          (find_row r.request_id (select test rows1)) c e
                          (find_row-selected test r.request_id rows1 r k1) a
                  ]
          ]
    ]

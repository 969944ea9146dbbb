-- ===== src/Execution/Requests/Sound.antt =====
-- What holds of the table between two calls, and that every change of it keeps that.
use mercury_tools.Prelude.{
  String, str_eq, str_eq_iff, true, false, some, if◌then◌else◌, ◌≡◌, arith, ap, subst,
}
use mercury_tools.Execution.Requests.Models.{PreparedRequest, fields_valid}
use mercury_tools.Execution.Requests.Table.{Rows, is_blocking, blocks, find_row}
use mercury_tools.Execution.Requests.Table.Laws.{
  Distinct, find_row-update, find_row-insert, update_row-blocks, Distinct-insert, Distinct-update,
}
use mercury_tools.Execution.Requests.Changes.{frozen, Change, inserted, moved, Changes, here, next}

-- The table holds the request.
abbrev pub Holds : Rows → PreparedRequest → Type 0
Holds rows r = find_row r.request_id rows ≡ some r

-- One row of the table was written.
record Writes (new : PreparedRequest) (rows rows' : Rows) : Type 0 where
  at :
      (id : String)
      → find_row id rows' ≡ (if str_eq new.request_id id then some new else find_row id rows)
  clear :
      (id : String) (r : PreparedRequest)
      → is_blocking new.state ≡ true
      → find_row id rows ≡ some r
      → blocks new.payload_hash new.request_id r ≡ false
  valid : fields_valid new ≡ true
  distinct : Distinct rows → Distinct rows'

same_id : (old new : PreparedRequest) → frozen old ≡ frozen new → old.request_id ≡ new.request_id
same_id old new p = ap (λ (r : PreparedRequest). r.request_id) p

Change-Writes :
    {Approver : PreparedRequest → Type 0} {rows rows' : Rows}
    → Change Approver rows rows'
    → (new : PreparedRequest) × Writes new rows rows'
Change-Writes {rows} {rows'} (inserted new waiting count valid w) = (
  new,
  record {
    at = λ id. find_row-insert new rows rows' id w;
    clear = λ id r b f. absurd (ground arith);
    valid = valid;
    distinct = Distinct-insert new rows rows' w;
  },
)
Change-Writes {rows} {rows'} (moved old new f m w) =
    let f' = subst (λ id. find_row id rows ≡ some old) (same_id old new m.binding) f in
    (
      new,
      record {
        at = λ id. find_row-update old new rows rows' id f' w;
        clear = λ id r b g. update_row-blocks new r rows rows' id w b g;
        valid = m.valid;
        distinct = Distinct-update new rows rows' w;
      },
    )

-- The primary key holds; two requests with one payload are not both executing, succeeded or of
-- unknown outcome; and every request has the approvals and the reason that its state wants.
pub record IsSound (rows : Rows) : Type 0 where
  pub distinct : Distinct rows
  pub unique :
      (a b : PreparedRequest)
      → Holds rows a
      → Holds rows b
      → a.payload_hash ≡ b.payload_hash
      → is_blocking a.state ≡ true
      → is_blocking b.state ≡ true
      → a.request_id ≡ b.request_id
  pub valid : (a : PreparedRequest) → Holds rows a → fields_valid a ≡ true

Writes-unique :
    (new a b : PreparedRequest) (rows rows' : Rows)
    → Writes new rows rows'
    → IsSound rows
    → Holds rows' a
    → Holds rows' b
    → a.payload_hash ≡ b.payload_hash
    → is_blocking a.state ≡ true
    → is_blocking b.state ≡ true
    → a.request_id ≡ b.request_id
Writes-unique new a b rows rows' w s ha hb hash ba bb = ground (
  arith,
  w.at a.request_id,
  w.at b.request_id,
  w.clear a.request_id a,
  w.clear b.request_id b,
  str_eq_iff a.request_id new.request_id,
  str_eq_iff b.request_id new.request_id,
  str_eq_iff a.payload_hash new.payload_hash,
  str_eq_iff b.payload_hash new.payload_hash,
  s.unique a b,
  str_eq_iff new.request_id a.request_id,
  str_eq_iff new.request_id b.request_id,
)

Writes-IsSound :
    (new : PreparedRequest) (rows rows' : Rows)
    → Writes new rows rows'
    → IsSound rows
    → IsSound rows'
Writes-IsSound new rows rows' w s = record {
  distinct = w.distinct s.distinct;
  unique = λ a b. Writes-unique new a b rows rows' w s;
  valid = λ a h. ground (arith, w.at a.request_id, s.valid a, w.valid);
}

pub Changes-IsSound :
    {Approver : PreparedRequest → Type 0} {rows rows' : Rows}
    → Changes Approver rows rows'
    → IsSound rows
    → IsSound rows'
Changes-IsSound here s = s
Changes-IsSound {rows' = rows''} (next {rows' = rows'} p c) s =
    let (new, w) = Change-Writes c in Writes-IsSound new rows' rows'' w (Changes-IsSound p s)

pub Changes-Distinct :
    {Approver : PreparedRequest → Type 0} {rows rows' : Rows}
    → Changes Approver rows rows'
    → Distinct rows
    → Distinct rows'
Changes-Distinct here d = d
Changes-Distinct (next p c) d = (Change-Writes c).1.distinct (Changes-Distinct p d)

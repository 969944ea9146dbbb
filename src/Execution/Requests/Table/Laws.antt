-- ===== src/Execution/Requests/Table/Laws.antt =====
-- The table as a map from request ids, under its two writes.
use mercury_tools.Prelude.{
  String, str_eq, str_eq_iff, Bool, true, false, none, some, [], ◌∷◌, ◌++◌, any, if◌then◌else◌, ok,
  ◌≡◌, refl, arith, Bool-cases, subst, inl, inr,
}
use mercury_tools.Execution.Requests.Models.{PreparedRequest}
use mercury_tools.Execution.Requests.Table.{
  Rows, is_blocking, blocks, find_row, replace_row, insert_row, update_row,
}

-- The primary key.
abbrev pub Distinct : Rows → Type 0
Distinct [] = Unit
Distinct (r ∷ rows) = (find_row r.request_id rows ≡ none) × Distinct rows

find_row-replace :
    (new : PreparedRequest) (id : String) (rows : Rows)
    → find_row id (replace_row new rows) ≡ (
        if str_eq new.request_id id
        then (elim (find_row id rows) [ none ↦ none | some old ↦ some new ])
        else find_row id rows)
unfolding find_row replace_row
find_row-replace new id [] = ground arith
find_row-replace new id (r ∷ rows) = ground (
  arith,
  find_row-replace new id rows,
  str_eq_iff new.request_id id,
  str_eq_iff r.request_id id,
  str_eq_iff r.request_id new.request_id,
)

find_row-append :
    (new : PreparedRequest) (id : String) (rows : Rows)
    → find_row id (rows ++ new ∷ []) ≡ (elim (find_row id rows) [
      | none ↦ (if str_eq new.request_id id then some new else none)
      | some r ↦ some r
    ])
unfolding find_row
find_row-append new id [] = ground arith
find_row-append new id (r ∷ rows) = ground (arith, find_row-append new id rows)

-- An update of a row that is there.
pub find_row-update :
    (old new : PreparedRequest) (rows rows' : Rows) (id : String)
    → find_row new.request_id rows ≡ some old
    → update_row new rows ≡ ok rows'
    → find_row id rows' ≡ (if str_eq new.request_id id then some new else find_row id rows)
unfolding update_row
find_row-update old new rows rows' id f w =
    ground (arith, find_row-replace new id rows, str_eq_iff new.request_id id)

any-false :
    (p : PreparedRequest → Bool) (id : String) (rows : Rows) (r : PreparedRequest)
    → any p rows ≡ false
    → find_row id rows ≡ some r
    → p r ≡ false
unfolding find_row
any-false p id [] r a f = cc
any-false p id (x ∷ rows) r a f = ground (arith, any-false p id rows r)

-- A write of a blocking row leaves no other row that blocks its payload.
pub update_row-blocks :
    (new r : PreparedRequest) (rows rows' : Rows) (id : String)
    → update_row new rows ≡ ok rows'
    → is_blocking new.state ≡ true
    → find_row id rows ≡ some r
    → blocks new.payload_hash new.request_id r ≡ false
unfolding update_row
update_row-blocks new r rows rows' id w b f =
    any-false (blocks new.payload_hash new.request_id) id rows r (ground arith) f

absent :
    (id : String) (rows : Rows)
    → any (λ r. str_eq r.request_id id) rows ≡ false
    → find_row id rows ≡ none
unfolding find_row
absent id [] h = refl
absent id (r ∷ rows) h = ground (arith, absent id rows)

pub insert_row-absent :
    (new : PreparedRequest) (rows rows' : Rows)
    → insert_row new rows ≡ ok rows'
    → find_row new.request_id rows ≡ none
unfolding insert_row
insert_row-absent new rows rows' w = absent new.request_id rows (ground arith)

pub find_row-insert :
    (new : PreparedRequest) (rows rows' : Rows) (id : String)
    → insert_row new rows ≡ ok rows'
    → find_row id rows' ≡ (if str_eq new.request_id id then some new else find_row id rows)
unfolding insert_row
find_row-insert new rows rows' id w =
    ground
      (arith, find_row-append new id rows, absent new.request_id rows, str_eq_iff new.request_id id)

Distinct-append :
    (new : PreparedRequest) (rows : Rows)
    → find_row new.request_id rows ≡ none
    → Distinct rows
    → Distinct (rows ++ new ∷ [])
unfolding find_row
Distinct-append new [] f d = (refl, tt)
Distinct-append new (r ∷ rows) f d = (
  ground (
    arith,
    find_row-append new r.request_id rows,
    str_eq_iff new.request_id r.request_id,
    str_eq_iff r.request_id new.request_id,
  ),
  Distinct-append new rows (ground arith) d.1,
)

pub Distinct-insert :
    (new : PreparedRequest) (rows rows' : Rows)
    → insert_row new rows ≡ ok rows'
    → Distinct rows
    → Distinct rows'
unfolding insert_row
Distinct-insert new rows rows' w d =
    subst Distinct (ground arith) (Distinct-append new rows (insert_row-absent new rows rows' w) d)

Distinct-replace :
    (new : PreparedRequest) (rows : Rows) → Distinct rows → Distinct (replace_row new rows)
unfolding replace_row
Distinct-replace new [] d = tt
Distinct-replace new (r ∷ rows) d = elim (Bool-cases (str_eq r.request_id new.request_id)) [
  | inl e ↦ rw e (
    ground
        (arith, find_row-replace new new.request_id rows, str_eq_iff r.request_id new.request_id),
    Distinct-replace new rows d.1,
  )
  | inr e ↦
      rw e (ground (arith, find_row-replace new r.request_id rows), Distinct-replace new rows d.1)
]

pub Distinct-update :
    (new : PreparedRequest) (rows rows' : Rows)
    → update_row new rows ≡ ok rows'
    → Distinct rows
    → Distinct rows'
unfolding update_row
Distinct-update new rows rows' w d = subst Distinct (ground arith) (Distinct-replace new rows d)

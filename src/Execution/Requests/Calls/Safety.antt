-- ===== src/Execution/Requests/Calls/Safety.antt =====
-- What holds of the request table after any calls (execution/store.py), and what becomes of a request
-- that it holds.
use mercury_tools.Prelude.{
  String, str_eq, str_eq_iff, Bool, true, false, some, List, [], ◌∷◌, ◌≡◌, refl, arith, ap, subst,
  sym, ◌∙◌, Bool-cases, inl, inr,
}
use mercury_tools.Execution.Requests.Models.{RequestState, succeeded, failed, PreparedRequest}
use mercury_tools.Execution.Requests.Table.{Rows, find_row}
use mercury_tools.Execution.Requests.Table.Laws.{
  find_row-update, find_row-insert, insert_row-absent,
}
use mercury_tools.Execution.Requests.Preview.{Binding}
use mercury_tools.Execution.Requests.Changes.{
  frozen, may_move, Change, inserted, moved, Changes, here, next,
}
use mercury_tools.Execution.Requests.Sound.{Holds, IsSound, Changes-IsSound}
use mercury_tools.Execution.Requests.Calls.{Call, apply_call, serve}
use mercury_tools.Execution.Requests.Calls.Steps.{call-Changes}

pub empty-IsSound : IsSound []
unfolding find_row
empty-IsSound = record {
  distinct = tt;
  unique = λ a b h. absurd (ground arith);
  valid = λ a h. absurd (ground arith);
}

pub call-IsSound :
    (binding : Binding) (call : Call) (rows : Rows)
    → IsSound rows
    → IsSound (apply_call binding call rows)
call-IsSound binding call rows s = Changes-IsSound (call-Changes binding call rows s.distinct) s

calls-IsSound :
    (binding : Binding) (calls : List Call) (rows : Rows)
    → IsSound rows
    → IsSound (serve binding calls rows)
unfolding serve
calls-IsSound binding [] rows s = s
calls-IsSound binding (call ∷ calls) rows s =
    calls-IsSound binding calls (apply_call binding call rows) (call-IsSound binding call rows s)

-- After any calls on an empty store, no two rows have one request id; of the requests with one payload
-- hash at most one is executing, succeeded or of unknown outcome; and the approval count and the
-- failure reason of every request are those that its state allows.
pub serve-IsSound : (binding : Binding) (calls : List Call) → IsSound (serve binding calls [])
serve-IsSound binding calls = calls-IsSound binding calls [] empty-IsSound

-- A path along the life cycle.
pub data Life (s : RequestState) : RequestState → Type 0 where
  stays : Life s s
  moves : {t u : RequestState} → Life s t → may_move t u ≡ true → Life s u

Life-trans : {a b c : RequestState} → Life a b → Life b c → Life a c
Life-trans p stays = p
Life-trans p (moves q e) = moves (Life-trans p q) e

-- What the table has for a request that it held.
abbrev pub Kept : PreparedRequest → Rows → Type 0
Kept r rows =
    (now : PreparedRequest) × Holds rows now × (frozen r ≡ frozen now) × Life r.state now.state

Change-Kept :
    {Approver : PreparedRequest → Type 0} (r : PreparedRequest) {rows rows' : Rows}
    → Change Approver rows rows'
    → Holds rows r
    → Kept r rows'
Change-Kept r {rows} {rows'} (inserted new a b c w) h = (
  r,
  ground (
    arith,
    find_row-insert new rows rows' r.request_id w,
    insert_row-absent new rows rows' w,
    str_eq_iff new.request_id r.request_id,
  ),
  refl,
  stays,
)
Change-Kept r {rows} {rows'} (moved old new f m w) h =
    let same = ap (λ (x : PreparedRequest). x.request_id) m.binding in
    let at = λ (id : String).
      find_row-update old new rows rows' id (subst (λ k. find_row k rows ≡ some old) same f) w in
    elim (Bool-cases (str_eq new.request_id r.request_id)) [
      | inl e ↦
          let is_old : old ≡ r = ground (arith, str_eq_iff new.request_id r.request_id) in
          (
            new,
            ground (arith, at new.request_id, str_eq_iff new.request_id new.request_id),
            sym (ap frozen is_old) ∙ m.binding,
            subst (λ x. Life x new.state) (ap (λ (x : PreparedRequest). x.state) is_old)
                (moves stays m.edge),
          )
      | inr e ↦ (r, ground (arith, at r.request_id), refl, stays)
    ]

Kept-trans :
    (r now : PreparedRequest) (rows : Rows)
    → frozen r ≡ frozen now
    → Life r.state now.state
    → Kept now rows
    → Kept r rows
Kept-trans r now rows b l (new, h, b', l') = (new, h, b ∙ b', Life-trans l l')

Changes-Kept :
    {Approver : PreparedRequest → Type 0} (r : PreparedRequest) {rows rows' : Rows}
    → Changes Approver rows rows'
    → Holds rows r
    → Kept r rows'
Changes-Kept r here h = (r, h, refl, stays)
Changes-Kept r {rows} {rows' = rows''} (next p c) h =
    let (now, h', b, l) = Changes-Kept r p h in Kept-trans r now rows'' b l (Change-Kept now c h')

-- A request that a sound table holds is held after any calls, with every field but its state, its
-- approval count, its failure reason and its response summary as it was, and with a state that the
-- life cycle reaches from the state it had.
pub serve-Kept :
    (binding : Binding) (calls : List Call) (rows : Rows) (r : PreparedRequest)
    → IsSound rows
    → Holds rows r
    → Kept r (serve binding calls rows)
unfolding serve
serve-Kept binding [] rows r s h = (r, h, refl, stays)
serve-Kept binding (call ∷ calls) rows r s h =
    let (now, h', b, l) = Changes-Kept r (call-Changes binding call rows s.distinct) h in
    Kept-trans r now (serve binding calls (apply_call binding call rows)) b l (
      serve-Kept binding calls (apply_call binding call rows) now (call-IsSound binding call rows s)
        h')

abbrev pub is_final : RequestState → Bool
is_final succeeded = true
is_final failed = true
is_final _ = false

Life-final : {s t : RequestState} → is_final s ≡ true → Life s t → t ≡ s
Life-final f stays = refl
Life-final f (moves {t} {u} p e) = absurd (ground (arith, Life-final f p))

-- A request that has succeeded or failed is held after any calls in the same state and with the same
-- binding.
pub serve-final :
    (binding : Binding) (calls : List Call) (rows : Rows) (r : PreparedRequest)
    → IsSound rows
    → Holds rows r
    → is_final r.state ≡ true
    → (now : PreparedRequest) × Holds (serve binding calls rows) now
      × (frozen r ≡ frozen now)
      × (now.state ≡ r.state)
serve-final binding calls rows r s h f =
    let (now, h', b, l) = serve-Kept binding calls rows r s h in (now, h', b, Life-final f l)

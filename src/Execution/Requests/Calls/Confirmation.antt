-- ===== src/Execution/Requests/Calls/Confirmation.antt =====
-- What is executed was confirmed: `approve` and `confirm` of execution/store.py, over any calls.
use mercury_tools.Prelude.{
  str_eq, Bool, true, false, ◌||◌, ◌==◌, some, List, [], ◌∷◌, ◌≡◌, ◌⊎◌, inl, inr, arith, ap, subst,
  sym, ◌∙◌, Bool-cases,
}
use mercury_tools.Execution.Requests.Models.{
  RequestState, awaiting_confirmation, ready_to_execute, executing, succeeded, outcome_unknown,
  PreparedRequest, fields_valid, state_fields_valid,
}
use mercury_tools.Execution.Requests.Table.{Rows, find_row}
use mercury_tools.Execution.Requests.Table.Laws.{find_row-update, find_row-insert}
use mercury_tools.Execution.Requests.Preview.{Binding}
use mercury_tools.Execution.Requests.Changes.{
  frozen, may_move, Moves, Change, inserted, moved, Changes, here, next,
}
use mercury_tools.Execution.Requests.Sound.{Holds, IsSound, Changes-IsSound}
use mercury_tools.Execution.Requests.Calls.{Call, apply_call, serve}
use mercury_tools.Execution.Requests.Calls.Steps.{Approves, call-Changes}
use mercury_tools.Execution.Requests.Calls.Safety.{empty-IsSound, call-IsSound}

abbrev pub past_approval : RequestState → Bool
past_approval ready_to_execute = true
past_approval executing = true
past_approval succeeded = true
past_approval outcome_unknown = true
past_approval _ = false

-- The request was approved, or is where only an approved request comes.
abbrev pub is_approved : PreparedRequest → Bool
is_approved r = r.approval_count == 1 || past_approval r.state

-- The property is one of what a confirmation binds.
abbrev IsBound : (PreparedRequest → Type 0) → Type 0
IsBound Q = (a b : PreparedRequest) → frozen a ≡ frozen b → Q a → Q b

waiting-count :
    (r : PreparedRequest)
    → fields_valid r ≡ true
    → r.state ≡ awaiting_confirmation
    → r.approval_count ≡ 0
unfolding fields_valid state_fields_valid
waiting-count r v w = ground arith

ready-count :
    (r : PreparedRequest)
    → fields_valid r ≡ true
    → r.state ≡ ready_to_execute
    → r.approval_count ≡ 1
unfolding fields_valid state_fields_valid
ready-count r v w = ground arith

edge-past :
    (s t : RequestState)
    → may_move s t ≡ true
    → past_approval t ≡ true
    → (past_approval s ≡ true) ⊎ ((s ≡ awaiting_confirmation) × (t ≡ ready_to_execute))
edge-past s t e p = ground arith

-- An approved request was approved before, or is approved by this move.
Moves-approved :
    {Approver : PreparedRequest → Type 0} (old new : PreparedRequest)
    → Moves Approver old new
    → fields_valid old ≡ true
    → is_approved new ≡ true
    → (is_approved old ≡ true) ⊎ Approver old
Moves-approved {Approver} old new m v a = elim m.approval [
  | inr (p, w, q) ↦ inr p
  | inl same ↦ inl (
      ground
        (arith, edge-past old.state new.state m.edge, waiting-count old v, ready-count new m.valid))
]

Change-approved :
    {Approver : PreparedRequest → Type 0} (Q : PreparedRequest → Type 0) {rows rows' : Rows}
    → IsBound Q
    → ((r : PreparedRequest) → Approver r → Q r)
    → Change Approver rows rows'
    → IsSound rows
    → ((r : PreparedRequest) → Holds rows r → is_approved r ≡ true → Q r)
    → (r : PreparedRequest) → Holds rows' r
    → is_approved r ≡ true
    → Q r
Change-approved Q {rows} {rows'} bound approve (inserted new w c v i) s q r h a =
    elim (Bool-cases (str_eq new.request_id r.request_id)) [
      | inl e ↦ absurd (ground (arith, find_row-insert new rows rows' r.request_id i))
      | inr e ↦ q r (ground (arith, find_row-insert new rows rows' r.request_id i)) a
    ]
Change-approved Q {rows} {rows'} bound approve (moved old new f m w) s q r h a =
    let same = ap (λ (x : PreparedRequest). x.request_id) m.binding in
    let at =
      find_row-update old new rows rows' r.request_id
        (subst (λ k. find_row k rows ≡ some old) same f) w in
    elim (Bool-cases (str_eq new.request_id r.request_id)) [
      | inl e ↦
          let is_new : new ≡ r = ground arith in
          subst Q is_new (
            bound old new m.binding
              (elim (Moves-approved old new m (s.valid old f) (ap is_approved is_new ∙ a)) [
                | inl b ↦ q old f b
                | inr p ↦ approve old p
              ]))
      | inr e ↦ q r (ground arith) a
    ]

Changes-approved :
    {Approver : PreparedRequest → Type 0} (Q : PreparedRequest → Type 0) {rows rows' : Rows}
    → IsBound Q
    → ((r : PreparedRequest) → Approver r → Q r)
    → Changes Approver rows rows'
    → IsSound rows
    → ((r : PreparedRequest) → Holds rows r → is_approved r ≡ true → Q r)
    → (r : PreparedRequest) → Holds rows' r
    → is_approved r ≡ true
    → Q r
Changes-approved Q bound approve here s q r h a = q r h a
Changes-approved Q bound approve (next p c) s q r h a =
    Change-approved Q bound approve c (Changes-IsSound p s) (Changes-approved Q bound approve p s q)
      r h a

Approves-IsBound : (call : Call) → IsBound (Approves call)
Approves-IsBound (Call.approve env id hash class) a b e (p, q, c) = (
  sym (ap (λ (x : PreparedRequest). x.request_id) e) ∙ p,
  sym (ap (λ (x : PreparedRequest). x.payload_hash) e) ∙ q,
  sym (ap (λ (x : PreparedRequest). x.mutation_class) e) ∙ c,
)
Approves-IsBound (Call.confirm env env' id hash) a b e (p, q) = (
  sym (ap (λ (x : PreparedRequest). x.request_id) e) ∙ p,
  sym (ap (λ (x : PreparedRequest). x.payload_hash) e) ∙ q,
)
Approves-IsBound _ a b e p = absurd p

-- One of the calls approves the request.
pub data Approved (r : PreparedRequest) : List Call → Type 0 where
  by_this : {call : Call} {calls : List Call} → Approves call r → Approved r (call ∷ calls)
  by_later : {call : Call} {calls : List Call} → Approved r calls → Approved r (call ∷ calls)

calls-Approved :
    (Q : PreparedRequest → Type 0) (binding : Binding) (calls : List Call) (rows : Rows)
    → IsBound Q
    → IsSound rows
    → ((r : PreparedRequest) → Holds rows r → is_approved r ≡ true → Q r)
    → (r : PreparedRequest) → Holds (serve binding calls rows) r
    → is_approved r ≡ true
    → Q r ⊎ Approved r calls
unfolding serve
calls-Approved Q binding [] rows bound s q r h a = inl (q r h a)
calls-Approved Q binding (call ∷ calls) rows bound s q r h a =
    let Q' : PreparedRequest → Type 0 = λ x. Q x ⊎ Approves call x in
    let bound' : IsBound Q' = λ x y e w. elim w [
      | inl p ↦ inl (bound x y e p)
      | inr p ↦ inr (Approves-IsBound call x y e p)
    ] in
    let step =
      Changes-approved Q' bound' (λ x p. inr p) (call-Changes binding call rows s.distinct) s
        (λ x k b. inl (q x k b)) in
    elim (calls-Approved Q' binding calls (apply_call binding call rows) bound'
      (call-IsSound binding call rows s) step r h a) [
        | inl (inl p) ↦ inl p
        | inl (inr p) ↦ inr (by_this p)
        | inr p ↦ inr (by_later p)
      ]

-- After any calls on an empty store, a request that has an approval, or is ready to execute,
-- executing, succeeded or of unknown outcome, was approved by one of the calls: an `approve` with its
-- id, its payload hash and its mutation class, or a `confirm` with its id and its payload hash.
pub serve-confirmed :
    (binding : Binding) (calls : List Call) (r : PreparedRequest)
    → Holds (serve binding calls []) r
    → is_approved r ≡ true
    → Approved r calls
unfolding find_row
serve-confirmed binding calls r h a =
    elim (calls-Approved (λ x. ⊥) binding calls [] (λ x y e p. p) empty-IsSound
      (λ x k b. ground arith) r h a) [ inl p ↦ absurd p | inr p ↦ p ]

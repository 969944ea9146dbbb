-- ===== src/Hosted/Operations/History.antt =====
-- The operations that the transitions of execution/hosted/models.py make of a newly confirmed one.
use mercury_tools.Prelude.{
  ℕ, suc, ◌+◌, ◌*◌, ◌≤◌, String, true, Option, none, List, [], ◌∷◌, ◌++◌, ok, All, length,
  length-append, ◌≡◌, refl, ap, ◌∙◌, arith,
}
use mercury_tools.Hosted.Transitions.{ParentOperationState as Parent, OperationItemState as Item}
use mercury_tools.Hosted.Transitions.Progress.{Run, here, next, steps, steps_bounded, Run-length}
use mercury_tools.Hosted.Operations.Models.{
  Checks, OperationItem, OperationEvent, HostedOperation, item_states, operation_valid,
}
use mercury_tools.Hosted.Operations.Moves.{move_operation, move_operation_item}
use mercury_tools.Hosted.Operations.Steps.{
  states, move_operation-ok, move_operation_item-ok, move_operation-Step, move_operation_item-Step,
}

-- An item as a confirmation makes it.
abbrev pub IsFreshItem : OperationItem → Type 0
IsFreshItem i = (i.state ≡ Item.awaiting_confirmation) × (i.state_version ≡ 1)

-- The one event of a new operation.
pub record IsFreshEvent (e : OperationEvent) : Type 0 where
  pub about_parent : e.operation_item_id ≡ none
  pub from_nothing : e.from_state ≡ none
  pub to_awaiting : e.to_state ≡ "awaiting_confirmation"
  pub first : e.state_version ≡ 1

-- An operation as a confirmation makes it.
pub record IsFresh (checks : Checks) (op : HostedOperation) : Type 0 where
  pub valid : operation_valid checks op ≡ true
  pub awaiting : op.state ≡ Parent.awaiting_confirmation
  pub version : op.state_version ≡ 1
  pub fresh_items : All IsFreshItem op.items
  pub event : OperationEvent
  pub one_event : op.events ≡ event ∷ []
  pub fresh_event : IsFreshEvent event

-- How an operation came about: confirmed, then moved by transitions that did not raise.
pub data History (checks : Checks) (start : HostedOperation) : HostedOperation → Type 0 where
  confirmed : IsFresh checks start → History checks start start
  moved :
      {self op : HostedOperation} (target : Parent) (event_id at : ℕ) (reason : String)
      → History checks start self
      → move_operation checks self target event_id at reason ≡ ok op
      → History checks start op
  item_moved :
      {self op : HostedOperation} (id : ℕ) (target : Item) (event_id at : ℕ) (reason : String)
      (given : Option String)
      → History checks start self
      → move_operation_item checks self id target event_id at reason given ≡ ok op
      → History checks start op

length-snoc : {A : Type 0} (xs : List A) (x : A) → length (xs ++ x ∷ []) ≡ suc (length xs)
length-snoc xs x = omega (arith, length-append xs (x ∷ []))

length-item_states : (is : List OperationItem) → length (item_states is) ≡ length is
length-item_states [] = refl
length-item_states (i ∷ is) = ap suc (length-item_states is)

-- The operation has taken one step of the state contract for each event after its first.
pub record Counted (start op : HostedOperation) : Type 0 where
  pub run : Run (states start) (states op)
  pub counted : length op.events ≡ suc (steps run)

module _ {checks : Checks} {start : HostedOperation} where
  pub History-valid :
      {op : HostedOperation} → History checks start op → operation_valid checks op ≡ true
  History-valid (confirmed f) = f.valid
  History-valid (moved target event_id at reason h e) = (move_operation-ok _ _ _ _ _ _ e).valid
  History-valid (item_moved id target event_id at reason given h e) =
      (move_operation_item-ok _ _ _ _ _ _ _ _ e).valid

  pub History-Counted : {op : HostedOperation} → History checks start op → Counted start op
  History-Counted (confirmed f) = record { run = here; counted = ap length f.one_event }
  History-Counted (moved target event_id at reason h e) =
      let before = History-Counted h in
      record {
        run = next before.run (move_operation-Step _ _ _ _ _ _ e);
        counted =
            ap (λ (op : HostedOperation). length op.events) (move_operation-ok _ _ _ _ _ _ e).result
            ∙ length-snoc _ _
            ∙ ap suc before.counted;
      }
  History-Counted (item_moved id target event_id at reason given h e) =
      let before = History-Counted h in
      record {
        run = next before.run (move_operation_item-Step _ _ _ _ _ _ _ _ e);
        counted =
            ap (λ (op : HostedOperation). length op.events)
              (move_operation_item-ok _ _ _ _ _ _ _ _ e).result
            ∙ length-snoc _ _
            ∙ ap suc before.counted;
      }

  -- An operation with n items never has more than 5 * (n + 1) + 1 events.
  pub History-events :
      {op : HostedOperation}
      → History checks start op
      → length op.events ≤ 5 * (length op.items + 1) + 1
  History-events {op} h =
      let c = History-Counted h in
      omega (
        arith,
        c.counted,
        steps_bounded c.run,
        Run-length c.run,
        length-item_states start.items,
        length-item_states op.items,
      )

-- ===== src/Hosted/Operations/Steps.antt =====
-- A transition of an operation in execution/hosted/models.py that does not raise is a step of the
-- state contract.
use mercury_tools.Prelude.{
  ℕ, ◌+◌, String, true, false, Option, List, ◌∷◌, ◌++◌, ltb, Result-cases, ok, Bool-cases,
  Option-cases, inl, inr, ◌≡◌, ap, ◌∙◌, arith, subst,
}
use mercury_tools.Hosted.Transitions.{
  ParentOperationState as Parent, OperationItemState as Item, parent_step, item_step,
}
use mercury_tools.Hosted.Transitions.Progress.{Aggregate, Step, parent_moves, item_moves}
use mercury_tools.Hosted.Operations.Models.{
  PublicText, Checks, OperationItem, OperationEvent, HostedOperation, item_states, operation_valid,
}
use mercury_tools.Hosted.Operations.Moves.{
  checked_item, checked_event, checked_operation, public_result, move_item, parent_event,
  with_state, move_operation, only_match, matches_from, item_event, with_item, move_item_at,
  move_operation_item,
}
use mercury_tools.Hosted.Operations.Values.{
  transition_allowed-values, item_transition_allowed-values,
}
use mercury_tools.Hosted.Operations.Splits.{Split, match-Split, item_states-append}

-- The states of an operation and its items.
abbrev pub states : HostedOperation → Aggregate
states op = record { parent = op.state; children = item_states op.items }

checked_item-ok : (i : OperationItem) {j : OperationItem} → checked_item i ≡ ok j → j ≡ i
unfolding checked_item
checked_item-ok i h = ground arith

checked_event-ok :
    (checks : Checks) (e : OperationEvent) {f : OperationEvent}
    → checked_event checks e ≡ ok f
    → f ≡ e
unfolding checked_event
checked_event-ok checks e h = ground arith

checked_operation-ok :
    (checks : Checks) (op : HostedOperation) {op' : HostedOperation}
    → checked_operation checks op ≡ ok op'
    → (op' ≡ op) × (operation_valid checks op' ≡ true)
unfolding checked_operation
checked_operation-ok checks op {op'} h = elim (Bool-cases (operation_valid checks op)) [
  | inl v ↦ let same : op' ≡ op = ground arith in (same, rw same v)
  | inr v ↦ absurd (ground arith)
]

-- What a transition of the operation does when it does not raise.
pub record Moved (checks : Checks) (self : HostedOperation) (target : Parent)
    (event : OperationEvent) (at : ℕ) (op : HostedOperation) : Type 0 where
  pub allowed : parent_step self.state target (item_states self.items) ≡ true
  pub in_order : ltb at self.updated_at ≡ false
  pub result : op ≡ with_state self target event at
  pub valid : operation_valid checks op ≡ true

pub move_operation-ok :
    (checks : Checks) (self : HostedOperation) (target : Parent) (event_id at : ℕ) (reason : String)
    {op : HostedOperation}
    → move_operation checks self target event_id at reason ≡ ok op
    → Moved checks self target (parent_event self target event_id at reason) at op
unfolding move_operation
move_operation-ok checks self target event_id at reason {op} h =
    let event = parent_event self target event_id at reason in
    elim (Result-cases (checked_event checks event)) [
      | inr (e, bad) ↦ absurd (ground arith)
      | inl (f, good) ↦
          let final : checked_operation checks (with_state self target f at) ≡ ok op =
            ground arith in
          let same = checked_event-ok checks event good in
          let (result, valid) = checked_operation-ok checks (with_state self target event at) (
            subst
              (λ (x : OperationEvent).
                checked_operation checks (with_state self target x at) ≡ ok op)
              same final) in
          record {
            allowed =
                ground
                  (arith, transition_allowed-values self.state target (item_states self.items));
            in_order = ground arith;
            result = result;
            valid = valid;
          }
    ]

-- What a transition of one item makes of it when it does not raise.
pub record ItemMoved (current : OperationItem) (target : Item) (at : ℕ) (parent : Parent)
    (new : OperationItem) : Type 0 where
  pub allowed : item_step current.state target parent ≡ true
  pub in_order : ltb at current.updated_at ≡ false
  pub shown : Option PublicText
  pub result : new ≡ record current {
    state = target;
    state_version = current.state_version + 1;
    provider_result_identifier = shown;
    updated_at = at;
  }

move_item-ok :
    (checks : Checks) (current : OperationItem) (target : Item) (at : ℕ) (given : Option String)
    (parent : Parent) {new : OperationItem}
    → move_item checks current target at given parent ≡ ok new
    → ItemMoved current target at parent new
unfolding move_item
move_item-ok checks current target at given parent {new} h =
    elim (Result-cases (public_result checks given)) [
      | inr (e, bad) ↦ absurd (ground arith)
      | inl (shown, good) ↦ record {
        allowed = ground (arith, item_transition_allowed-values current.state target parent);
        in_order = ground arith;
        shown = shown;
        result = checked_item-ok _ (ground arith);
      }
    ]

-- What a transition of an item of the operation does when it does not raise.
pub record ItemChange (checks : Checks) (self : HostedOperation) (id : ℕ) (target : Item)
    (event_id at : ℕ) (reason : String) (op : HostedOperation) : Type 0 where
  pub index : ℕ
  pub current : OperationItem
  pub new : OperationItem
  pub split : Split id self.items index current
  pub moved : ItemMoved current target at self.state new
  pub result : op ≡ with_item self index new (item_event self current new event_id reason)
  pub valid : operation_valid checks op ≡ true

move_item_at-ok :
    (checks : Checks) (self : HostedOperation) (index : ℕ) (current : OperationItem) (target : Item)
    (event_id at : ℕ) (reason : String) (given : Option String) {op : HostedOperation}
    → move_item_at checks self (index, current) target event_id at reason given ≡ ok op
    → (new : OperationItem) × ItemMoved current target at self.state new
      × (op ≡ with_item self index new (item_event self current new event_id reason))
      × (operation_valid checks op ≡ true)
unfolding move_item_at
move_item_at-ok checks self index current target event_id at reason given {op} h =
    elim (Result-cases (move_item checks current target at given self.state)) [
      | inr (e, bad) ↦ absurd (ground arith)
      | inl (new, good) ↦
          let event = item_event self current new event_id reason in
          elim (Result-cases (checked_event checks event)) [
            | inr (e, bad) ↦ absurd (ground arith)
            | inl (f, fine) ↦
                let final : checked_operation checks (with_item self index new f) ≡ ok op =
                  ground arith in
                let same = checked_event-ok checks event fine in
                let (result, valid) = checked_operation-ok checks (with_item self index new event) (
                  subst
                    (λ (x : OperationEvent).
                      checked_operation checks (with_item self index new x) ≡ ok op)
                    same final) in
                (new, move_item-ok checks current target at given self.state good, result, valid)
          ]
    ]

pub move_operation_item-ok :
    (checks : Checks) (self : HostedOperation) (id : ℕ) (target : Item) (event_id at : ℕ)
    (reason : String) (given : Option String) {op : HostedOperation}
    → move_operation_item checks self id target event_id at reason given ≡ ok op
    → ItemChange checks self id target event_id at reason op
unfolding move_operation_item
move_operation_item-ok checks self id target event_id at reason given {op} h =
    elim (Option-cases (only_match (matches_from 0 id self.items))) [
      | inl missing ↦ absurd (ground arith)
      | inr ((index, current), found) ↦
          let step : move_item_at checks self (index, current) target event_id at reason given
              ≡ ok op =
            ground arith in
          let (new, moved, result, valid) =
            move_item_at-ok checks self index current target event_id at reason given step in
          record {
            index = index;
            current = current;
            new = new;
            split = match-Split id self.items found;
            moved = moved;
            result = result;
            valid = valid;
          }
    ]

pub move_operation-Step :
    (checks : Checks) (self : HostedOperation) (target : Parent) (event_id at : ℕ) (reason : String)
    {op : HostedOperation}
    → move_operation checks self target event_id at reason ≡ ok op
    → Step (states self) (states op)
move_operation-Step checks self target event_id at reason h =
    let m = move_operation-ok checks self target event_id at reason h in
    parent_moves target m.allowed (ap states m.result)

-- The states of the items after one is replaced.
pub ItemChange-states :
    {checks : Checks} {self : HostedOperation} {id : ℕ} {target : Item} {event_id at : ℕ}
    {reason : String} {op : HostedOperation}
    (c : ItemChange checks self id target event_id at reason op)
    → (item_states self.items
        ≡ item_states c.split.before ++ c.current.state ∷ item_states c.split.after)
      × (states op ≡ record {
        parent = self.state;
        children = item_states c.split.before ++ target ∷ item_states c.split.after;
      })
ItemChange-states {self = self} {target = target} {op = op} c =
    let s = c.split in
    (
      ap item_states s.whole ∙ item_states-append s.before c.current s.after,
      ap states c.result
          ∙ ap (λ (xs : List Item). record { parent = self.state; children = xs })
              (ap item_states (s.replaced c.new)
                ∙ item_states-append s.before c.new s.after
                ∙ ap (λ (x : OperationItem). item_states s.before ++ x.state ∷ item_states s.after)
                    c.moved.result),
    )

pub move_operation_item-Step :
    (checks : Checks) (self : HostedOperation) (id : ℕ) (target : Item) (event_id at : ℕ)
    (reason : String) (given : Option String) {op : HostedOperation}
    → move_operation_item checks self id target event_id at reason given ≡ ok op
    → Step (states self) (states op)
move_operation_item-Step checks self id target event_id at reason given h =
    let c = move_operation_item-ok checks self id target event_id at reason given h in
    let (old_states, new_states) = ItemChange-states c in
    item_moves (item_states c.split.before) c.current.state target (item_states c.split.after)
      old_states c.moved.allowed new_states

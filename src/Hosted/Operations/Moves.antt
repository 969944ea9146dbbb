-- ===== src/Hosted/Operations/Moves.antt =====
-- The transitions of an operation and of its items in execution/hosted/models.py. A validator that
-- raises makes a `ValidationError`, whatever its code.
use mercury_tools.Prelude.{
  ℕ, zero, suc, ◌+◌, String, not, Option, none, some, List, [], ◌∷◌, ◌++◌, map, ltb, leb, ◌==◌,
  if◌then◌else◌, Result, ok, err, ◌>>=◌, ◌>>◌, raise_if,
}
use mercury_tools.Hosted.Transitions.{
  ParentOperationState as Parent, OperationItemState as Item, same_item,
  parent_operation_transition_allowed, item_operation_transition_allowed,
}
use mercury_tools.Hosted.Operations.Models.{
  Checks, PublicText, projected, OperationItem, OperationEvent, HostedOperation, parent_value,
  item_value, is_some, same_bool, item_states, item_valid, event_valid, operation_valid,
}

pub data ModelError : Type 0 where
  operation_transition_invalid operation_timestamp_invalid operation_items_invalid : ModelError
  validation_error : ModelError

-- `OperationItem.model_validate(…)`
unfoldable pub checked_item : OperationItem → Result ModelError OperationItem
checked_item item = raise_if (not (item_valid item)) validation_error >> ok item

unfoldable pub checked_event : Checks → OperationEvent → Result ModelError OperationEvent
checked_event checks event = raise_if (not (event_valid checks event)) validation_error >> ok event

unfoldable pub checked_operation : Checks → HostedOperation → Result ModelError HostedOperation
checked_operation checks op = raise_if (not (operation_valid checks op)) validation_error >> ok op

-- `sanitize_provider_result_identifier`
abbrev pub public_result : Checks → Option String → Result ModelError (Option PublicText)
public_result checks none = ok none
public_result checks (some text) =
    if checks.public_text text then ok (some projected) else err validation_error

-- `OperationItem.transition`
unfoldable pub move_item :
    Checks → OperationItem → Item → ℕ → Option String → Parent → Result ModelError OperationItem
move_item checks self target occurred_at provider_result_identifier parent_state = do
  raise_if
      (not (
        item_operation_transition_allowed (item_value self.state) (item_value target)
          (parent_value parent_state)))
      operation_transition_invalid
  raise_if (ltb occurred_at self.updated_at) operation_timestamp_invalid
  raise_if (not (same_bool (same_item target Item.succeeded) (is_some provider_result_identifier)))
      operation_transition_invalid
  shown ← public_result checks provider_result_identifier
  checked_item (record self {
    state = target;
    state_version = self.state_version + 1;
    provider_result_identifier = shown;
    updated_at = occurred_at;
  })

-- The event of a transition of the operation.
abbrev pub parent_event : HostedOperation → Parent → ℕ → ℕ → String → OperationEvent
parent_event self target event_id occurred_at sanitized_reason = record {
  event_id = event_id;
  operation_id = self.operation_id;
  operation_item_id = none;
  from_state = some (parent_value self.state);
  to_state = parent_value target;
  state_version = self.state_version + 1;
  sanitized_reason = sanitized_reason;
  occurred_at = occurred_at;
}

-- The copy of the operation with its new state and one more event.
abbrev pub with_state : HostedOperation → Parent → OperationEvent → ℕ → HostedOperation
with_state self target event occurred_at = record self {
  state = target;
  state_version = self.state_version + 1;
  events = self.events ++ event ∷ [];
  updated_at = occurred_at;
}

-- `HostedOperation.transition`
unfoldable pub move_operation :
    Checks → HostedOperation → Parent → ℕ → ℕ → String → Result ModelError HostedOperation
move_operation checks self target event_id occurred_at sanitized_reason = do
  raise_if
      (not (
        parent_operation_transition_allowed (parent_value self.state) (parent_value target)
          (map item_value (item_states self.items))))
      operation_transition_invalid
  raise_if (ltb occurred_at self.updated_at) operation_timestamp_invalid
  event ← checked_event checks (parent_event self target event_id occurred_at sanitized_reason)
  checked_operation checks (with_state self target event occurred_at)

-- `tuple((index, item) for index, item in enumerate(self.items) if …)`, from an index on.
unfoldable pub matches_from : ℕ → ℕ → List OperationItem → List (ℕ × OperationItem)
matches_from n id [] = []
matches_from n id (i ∷ is) =
    let rest = matches_from (suc n) id is in
    if i.operation_item_id == id then (n, i) ∷ rest else rest

-- The match, if there is exactly one.
abbrev pub only_match : {A : Type 0} → List A → Option A
only_match (x ∷ []) = some x
only_match _ = none

-- `items[index] = transitioned`
unfoldable pub set_at : {A : Type 0} → ℕ → A → List A → List A
set_at n a [] = []
set_at zero a (x ∷ xs) = a ∷ xs
set_at (suc n) a (x ∷ xs) = x ∷ set_at n a xs

abbrev pub latest : ℕ → ℕ → ℕ
latest a b = if leb b a then a else b

abbrev pub match_or_raise : {A : Type 0} → Option A → Result ModelError A
match_or_raise none = err operation_transition_invalid
match_or_raise (some a) = ok a

-- The event of a transition of an item, which was found by its identifier.
abbrev pub item_event :
    HostedOperation → OperationItem → OperationItem → ℕ → String → OperationEvent
item_event self current transitioned event_id sanitized_reason = record {
  event_id = event_id;
  operation_id = self.operation_id;
  operation_item_id = some current.operation_item_id;
  from_state = some (item_value current.state);
  to_state = item_value transitioned.state;
  state_version = transitioned.state_version;
  sanitized_reason = sanitized_reason;
  occurred_at = transitioned.updated_at;
}

-- The copy of the operation with an item replaced and one more event.
abbrev pub with_item : HostedOperation → ℕ → OperationItem → OperationEvent → HostedOperation
with_item self index transitioned event = record self {
  items = set_at index transitioned self.items;
  events = self.events ++ event ∷ [];
  updated_at = latest self.updated_at transitioned.updated_at;
}

-- `HostedOperation.transition_item` once the item is found at an index.
unfoldable pub move_item_at :
    Checks
    → HostedOperation
    → ℕ × OperationItem
    → Item
    → ℕ
    → ℕ
    → String
    → Option String
    → Result ModelError HostedOperation
move_item_at checks self (index, current) target event_id occurred_at sanitized_reason result = do
  transitioned ← move_item checks current target occurred_at result self.state
  event ← checked_event checks (item_event self current transitioned event_id sanitized_reason)
  checked_operation checks (with_item self index transitioned event)

-- `HostedOperation.transition_item`
unfoldable pub move_operation_item :
    Checks
    → HostedOperation
    → ℕ
    → Item
    → ℕ
    → ℕ
    → String
    → Option String
    → Result ModelError HostedOperation
move_operation_item checks self id target event_id occurred_at sanitized_reason result = do
  found ← match_or_raise (only_match (matches_from 0 id self.items))
  move_item_at checks self found target event_id occurred_at sanitized_reason result

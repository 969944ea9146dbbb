-- ===== src/Hosted/Transitions.antt =====
-- src/mercury_tools/execution/hosted/transitions.py: the state contract of an operation and the
-- items below it. A `StrEnum` member is the text of its value, so the public functions take texts.
mod States
pub mod Coherence
pub mod Progress
mod Tests
unfoldable pub use States.*
use mercury_tools.Prelude.{
  String, Bool, true, false, not, ◌&&◌, none, some, List, [], ◌∷◌, all, any, is_empty,
  if◌then◌else◌,
}

-- What the tests on the destination ask of the children.
pub parent_destination_allowed : ParentOperationState → List OperationItemState → Bool
parent_destination_allowed ParentOperationState.awaiting_confirmation children =
    all (item_in (OperationItemState.prepared ∷ [])) children
parent_destination_allowed ParentOperationState.dispatching children =
    all
      (item_in
        (OperationItemState.awaiting_confirmation ∷ OperationItemState.failed_pre_dispatch ∷ []))
      children
parent_destination_allowed ParentOperationState.failed_pre_dispatch children =
    not (is_empty children)
    && all
        (item_in (OperationItemState.failed_pre_dispatch ∷ OperationItemState.not_dispatched ∷ []))
        children
parent_destination_allowed ParentOperationState.succeeded children =
    not (is_empty children) && all (item_in (OperationItemState.succeeded ∷ [])) children
parent_destination_allowed ParentOperationState.provider_rejected children =
    not (is_empty children)
    && all (item_in item_terminal) children
    && any (item_in (OperationItemState.provider_rejected ∷ [])) children
parent_destination_allowed ParentOperationState.outcome_unknown children =
    not (is_empty children)
    && all (item_in item_terminal) children
    && any (item_in (OperationItemState.outcome_unknown ∷ [])) children
parent_destination_allowed ParentOperationState.needs_manual_review children =
    not (is_empty children)
    && all (item_in item_terminal) children
    && any
        (item_in (OperationItemState.needs_manual_review ∷ OperationItemState.outcome_unknown ∷ []))
        children
parent_destination_allowed ParentOperationState.expired children =
    not (is_empty children) && all (item_in (OperationItemState.expired ∷ [])) children
parent_destination_allowed ParentOperationState.cancelled children =
    not (is_empty children)
    && all (item_in (OperationItemState.cancelled ∷ OperationItemState.not_dispatched ∷ []))
        children
parent_destination_allowed ParentOperationState.prepared children = true

-- `parent_operation_transition_allowed` once its arguments are members.
unfoldable pub parent_step :
    ParentOperationState → ParentOperationState → List OperationItemState → Bool
unfolding parent_destination_allowed
parent_step source destination children =
    if parent_in (parent_transitions source) destination
    then parent_destination_allowed destination children
    else false

unfoldable pub parent_operation_transition_allowed : String → String → List String → Bool
parent_operation_transition_allowed current target child_states = elim (coerce_parent current) [
  | none ↦ false
  | some source ↦ elim (coerce_parent target) [
    | none ↦ false
    | some destination ↦ elim (coerce_items child_states) [
      | none ↦ false
      | some children ↦ parent_step source destination children
    ]
  ]
]

-- `parent_operation_children_compatible` once its arguments are members.
pub children_allowed : ParentOperationState → List OperationItemState → Bool
children_allowed ParentOperationState.prepared checked =
    all
      (item_in (
        OperationItemState.prepared ∷ OperationItemState.cancelled ∷ OperationItemState.expired
        ∷ []))
      checked
children_allowed ParentOperationState.awaiting_confirmation checked =
    all
      (item_in (
        OperationItemState.prepared ∷ OperationItemState.awaiting_confirmation
        ∷ OperationItemState.failed_pre_dispatch ∷ OperationItemState.not_dispatched
        ∷ OperationItemState.expired ∷ OperationItemState.cancelled ∷ []))
      checked
children_allowed ParentOperationState.failed_pre_dispatch checked =
    all
      (item_in (
        OperationItemState.failed_pre_dispatch ∷ OperationItemState.not_dispatched
        ∷ OperationItemState.cancelled ∷ []))
      checked
children_allowed ParentOperationState.dispatching checked =
    all
      (item_in (
        OperationItemState.awaiting_confirmation ∷ OperationItemState.failed_pre_dispatch
        ∷ OperationItemState.dispatching ∷ dispatch_recovery_states))
      checked
children_allowed ParentOperationState.succeeded checked =
    all (item_in (OperationItemState.succeeded ∷ [])) checked
children_allowed ParentOperationState.provider_rejected checked =
    all (item_in item_terminal) checked
    && any (item_in (OperationItemState.provider_rejected ∷ [])) checked
children_allowed ParentOperationState.outcome_unknown checked =
    all (item_in item_terminal) checked
    && any
        (item_in (
          OperationItemState.succeeded ∷ OperationItemState.outcome_unknown
          ∷ OperationItemState.needs_manual_review ∷ []))
        checked
children_allowed ParentOperationState.needs_manual_review checked =
    all (item_in item_terminal) checked
    && any
        (item_in (OperationItemState.needs_manual_review ∷ OperationItemState.outcome_unknown ∷ []))
        checked
children_allowed ParentOperationState.expired checked =
    all (item_in (OperationItemState.expired ∷ [])) checked
children_allowed ParentOperationState.cancelled checked =
    all (item_in (OperationItemState.cancelled ∷ OperationItemState.not_dispatched ∷ [])) checked

unfoldable pub children_compatible : ParentOperationState → List OperationItemState → Bool
unfolding children_allowed
children_compatible parent children = not (is_empty children) && children_allowed parent children

unfoldable pub parent_operation_children_compatible : String → List String → Bool
parent_operation_children_compatible parent_state child_states = elim (coerce_parent parent_state) [
  | none ↦ false
  | some parent ↦ elim (coerce_items child_states) [
    | none ↦ false
    | some children ↦ children_compatible parent children
  ]
]

-- The tests on the source of `item_operation_transition_allowed`.
pub item_source_allowed : OperationItemState → OperationItemState → ParentOperationState → Bool
item_source_allowed OperationItemState.prepared destination parent =
    if same_item destination OperationItemState.awaiting_confirmation
    then same_parent parent ParentOperationState.awaiting_confirmation
    else same_parent parent ParentOperationState.prepared
item_source_allowed OperationItemState.awaiting_confirmation destination parent =
    if same_item destination OperationItemState.dispatching
    then same_parent parent ParentOperationState.dispatching
    else if same_item destination OperationItemState.not_dispatched
    then parent_in
        (ParentOperationState.awaiting_confirmation ∷ ParentOperationState.dispatching ∷ []) parent
    else same_parent parent ParentOperationState.awaiting_confirmation
item_source_allowed OperationItemState.failed_pre_dispatch destination parent =
    if same_item destination OperationItemState.dispatching
    then same_parent parent ParentOperationState.dispatching
    else same_parent parent ParentOperationState.failed_pre_dispatch
item_source_allowed OperationItemState.dispatching destination parent =
    same_parent parent ParentOperationState.dispatching
item_source_allowed OperationItemState.outcome_unknown destination parent =
    same_parent parent ParentOperationState.outcome_unknown
item_source_allowed _ destination parent = false

-- `item_operation_transition_allowed` once its arguments are members.
unfoldable pub item_step : OperationItemState → OperationItemState → ParentOperationState → Bool
unfolding item_source_allowed
item_step source destination parent =
    if item_in (item_transitions source) destination
    then item_source_allowed source destination parent
    else false

unfoldable pub item_operation_transition_allowed : String → String → String → Bool
item_operation_transition_allowed current target parent_state = elim (coerce_item current) [
  | none ↦ false
  | some source ↦ elim (coerce_item target) [
    | none ↦ false
    | some destination ↦ elim (coerce_parent parent_state) [
      | none ↦ false
      | some parent ↦ item_step source destination parent
    ]
  ]
]

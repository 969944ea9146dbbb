-- ===== src/Hosted/Transitions/States.antt =====
-- src/mercury_tools/execution/hosted/transitions.py: the states, the tables of transitions and the
-- reading of a text as a state.
use mercury_tools.Prelude.{
  String, str_eq, Bool, true, false, ◌||◌, Option, none, some, List, [], ◌∷◌, if◌then◌else◌,
}

pub data ParentOperationState : Type 0 where
  prepared awaiting_confirmation dispatching succeeded failed_pre_dispatch : ParentOperationState
  provider_rejected outcome_unknown needs_manual_review expired cancelled : ParentOperationState

pub data OperationItemState : Type 0 where
  prepared awaiting_confirmation dispatching succeeded failed_pre_dispatch : OperationItemState
  provider_rejected outcome_unknown needs_manual_review not_dispatched : OperationItemState
  expired cancelled : OperationItemState

-- `is` between two members.
abbrev pub same_parent : ParentOperationState → ParentOperationState → Bool
same_parent ParentOperationState.prepared ParentOperationState.prepared = true
same_parent ParentOperationState.awaiting_confirmation ParentOperationState.awaiting_confirmation =
    true
same_parent ParentOperationState.dispatching ParentOperationState.dispatching = true
same_parent ParentOperationState.succeeded ParentOperationState.succeeded = true
same_parent ParentOperationState.failed_pre_dispatch ParentOperationState.failed_pre_dispatch = true
same_parent ParentOperationState.provider_rejected ParentOperationState.provider_rejected = true
same_parent ParentOperationState.outcome_unknown ParentOperationState.outcome_unknown = true
same_parent ParentOperationState.needs_manual_review ParentOperationState.needs_manual_review = true
same_parent ParentOperationState.expired ParentOperationState.expired = true
same_parent ParentOperationState.cancelled ParentOperationState.cancelled = true
same_parent _ _ = false

-- `member in {…}`
abbrev pub parent_in : List ParentOperationState → ParentOperationState → Bool
parent_in [] s = false
parent_in (x ∷ xs) s = same_parent s x || parent_in xs s

-- `is` between two members.
abbrev pub same_item : OperationItemState → OperationItemState → Bool
same_item OperationItemState.prepared OperationItemState.prepared = true
same_item OperationItemState.awaiting_confirmation OperationItemState.awaiting_confirmation = true
same_item OperationItemState.dispatching OperationItemState.dispatching = true
same_item OperationItemState.succeeded OperationItemState.succeeded = true
same_item OperationItemState.failed_pre_dispatch OperationItemState.failed_pre_dispatch = true
same_item OperationItemState.provider_rejected OperationItemState.provider_rejected = true
same_item OperationItemState.outcome_unknown OperationItemState.outcome_unknown = true
same_item OperationItemState.needs_manual_review OperationItemState.needs_manual_review = true
same_item OperationItemState.not_dispatched OperationItemState.not_dispatched = true
same_item OperationItemState.expired OperationItemState.expired = true
same_item OperationItemState.cancelled OperationItemState.cancelled = true
same_item _ _ = false

-- `member in {…}`
abbrev pub item_in : List OperationItemState → OperationItemState → Bool
item_in [] s = false
item_in (x ∷ xs) s = same_item s x || item_in xs s

-- `_PARENT_TRANSITIONS`
abbrev pub parent_transitions : ParentOperationState → List ParentOperationState
parent_transitions ParentOperationState.prepared =
    ParentOperationState.awaiting_confirmation ∷ ParentOperationState.expired
    ∷ ParentOperationState.cancelled ∷ []
parent_transitions ParentOperationState.awaiting_confirmation =
    ParentOperationState.dispatching ∷ ParentOperationState.failed_pre_dispatch
    ∷ ParentOperationState.expired ∷ ParentOperationState.cancelled ∷ []
parent_transitions ParentOperationState.dispatching =
    ParentOperationState.succeeded ∷ ParentOperationState.provider_rejected
    ∷ ParentOperationState.outcome_unknown ∷ ParentOperationState.needs_manual_review ∷ []
parent_transitions ParentOperationState.succeeded = []
parent_transitions ParentOperationState.failed_pre_dispatch =
    ParentOperationState.dispatching ∷ ParentOperationState.cancelled ∷ []
parent_transitions ParentOperationState.provider_rejected = []
parent_transitions ParentOperationState.outcome_unknown =
    ParentOperationState.succeeded ∷ ParentOperationState.needs_manual_review ∷ []
parent_transitions ParentOperationState.needs_manual_review = []
parent_transitions ParentOperationState.expired = []
parent_transitions ParentOperationState.cancelled = []

-- `_ITEM_TRANSITIONS`
abbrev pub item_transitions : OperationItemState → List OperationItemState
item_transitions OperationItemState.prepared =
    OperationItemState.awaiting_confirmation ∷ OperationItemState.expired
    ∷ OperationItemState.cancelled ∷ []
item_transitions OperationItemState.awaiting_confirmation =
    OperationItemState.dispatching ∷ OperationItemState.failed_pre_dispatch
    ∷ OperationItemState.not_dispatched ∷ OperationItemState.cancelled ∷ OperationItemState.expired
    ∷ []
item_transitions OperationItemState.dispatching =
    OperationItemState.succeeded ∷ OperationItemState.provider_rejected
    ∷ OperationItemState.outcome_unknown ∷ []
item_transitions OperationItemState.succeeded = []
item_transitions OperationItemState.failed_pre_dispatch =
    OperationItemState.dispatching ∷ OperationItemState.cancelled ∷ []
item_transitions OperationItemState.provider_rejected = []
item_transitions OperationItemState.outcome_unknown =
    OperationItemState.succeeded ∷ OperationItemState.needs_manual_review ∷ []
item_transitions OperationItemState.needs_manual_review = []
item_transitions OperationItemState.not_dispatched = []
item_transitions OperationItemState.expired = []
item_transitions OperationItemState.cancelled = []

-- `_ITEM_TERMINAL`
abbrev pub item_terminal : List OperationItemState
item_terminal =
    OperationItemState.succeeded ∷ OperationItemState.provider_rejected
    ∷ OperationItemState.outcome_unknown ∷ OperationItemState.needs_manual_review
    ∷ OperationItemState.not_dispatched ∷ OperationItemState.expired ∷ OperationItemState.cancelled
    ∷ []

-- `_DISPATCH_RECOVERY_STATES`
abbrev pub dispatch_recovery_states : List OperationItemState
dispatch_recovery_states =
    OperationItemState.succeeded ∷ OperationItemState.provider_rejected
    ∷ OperationItemState.outcome_unknown ∷ OperationItemState.needs_manual_review
    ∷ OperationItemState.not_dispatched ∷ []

-- `_coerce_parent`: the member whose value is the text.
unfoldable pub coerce_parent : String → Option ParentOperationState
coerce_parent value =
    if str_eq value "prepared"
    then some ParentOperationState.prepared
    else if str_eq value "awaiting_confirmation"
    then some ParentOperationState.awaiting_confirmation
    else if str_eq value "dispatching"
    then some ParentOperationState.dispatching
    else if str_eq value "succeeded"
    then some ParentOperationState.succeeded
    else if str_eq value "failed_pre_dispatch"
    then some ParentOperationState.failed_pre_dispatch
    else if str_eq value "provider_rejected"
    then some ParentOperationState.provider_rejected
    else if str_eq value "outcome_unknown"
    then some ParentOperationState.outcome_unknown
    else if str_eq value "needs_manual_review"
    then some ParentOperationState.needs_manual_review
    else if str_eq value "expired"
    then some ParentOperationState.expired
    else if str_eq value "cancelled"
    then some ParentOperationState.cancelled
    else none

-- `_coerce_item`: the member whose value is the text.
unfoldable pub coerce_item : String → Option OperationItemState
coerce_item value =
    if str_eq value "prepared"
    then some OperationItemState.prepared
    else if str_eq value "awaiting_confirmation"
    then some OperationItemState.awaiting_confirmation
    else if str_eq value "dispatching"
    then some OperationItemState.dispatching
    else if str_eq value "succeeded"
    then some OperationItemState.succeeded
    else if str_eq value "failed_pre_dispatch"
    then some OperationItemState.failed_pre_dispatch
    else if str_eq value "provider_rejected"
    then some OperationItemState.provider_rejected
    else if str_eq value "outcome_unknown"
    then some OperationItemState.outcome_unknown
    else if str_eq value "needs_manual_review"
    then some OperationItemState.needs_manual_review
    else if str_eq value "not_dispatched"
    then some OperationItemState.not_dispatched
    else if str_eq value "expired"
    then some OperationItemState.expired
    else if str_eq value "cancelled"
    then some OperationItemState.cancelled
    else none

abbrev pub join_item :
    Option OperationItemState → Option (List OperationItemState) → Option (List OperationItemState)
join_item (some item) (some items) = some (item ∷ items)
join_item _ _ = none

-- `tuple(_coerce_item(item) for item in child_states)`; `none` if some text is no member.
unfoldable pub coerce_items : List String → Option (List OperationItemState)
coerce_items [] = some []
coerce_items (value ∷ values) = join_item (coerce_item value) (coerce_items values)

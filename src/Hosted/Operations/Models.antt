-- ===== src/Hosted/Operations/Models.antt =====
-- The records of an operation in execution/hosted/models.py and their validators. A UUID is its
-- number, and a time is its microseconds in UTC. A text field that only has a pattern is taken to
-- have it.
use mercury_tools.Prelude.{
  ℕ, suc, ◌+◌, ◌*◌, String, str_eq, Bool, true, false, not, ◌&&◌, ◌||◌, Option, none, some, List,
  [], ◌∷◌, map, length, all, any, is_empty, ltb, leb, ◌==◌, if◌then◌else◌,
}
use mercury_tools.Hosted.Transitions.{
  ParentOperationState as Parent, OperationItemState as Item, same_item, coerce_parent, coerce_item,
  parent_operation_children_compatible,
}

-- The value of a member, which a `StrEnum` member is equal to.
abbrev pub parent_value : Parent → String
parent_value Parent.prepared = "prepared"
parent_value Parent.awaiting_confirmation = "awaiting_confirmation"
parent_value Parent.dispatching = "dispatching"
parent_value Parent.succeeded = "succeeded"
parent_value Parent.failed_pre_dispatch = "failed_pre_dispatch"
parent_value Parent.provider_rejected = "provider_rejected"
parent_value Parent.outcome_unknown = "outcome_unknown"
parent_value Parent.needs_manual_review = "needs_manual_review"
parent_value Parent.expired = "expired"
parent_value Parent.cancelled = "cancelled"

abbrev pub item_value : Item → String
item_value Item.prepared = "prepared"
item_value Item.awaiting_confirmation = "awaiting_confirmation"
item_value Item.dispatching = "dispatching"
item_value Item.succeeded = "succeeded"
item_value Item.failed_pre_dispatch = "failed_pre_dispatch"
item_value Item.provider_rejected = "provider_rejected"
item_value Item.outcome_unknown = "outcome_unknown"
item_value Item.needs_manual_review = "needs_manual_review"
item_value Item.not_dispatched = "not_dispatched"
item_value Item.expired = "expired"
item_value Item.cancelled = "cancelled"

-- `require_safe_public_identifier`, and whether the validators of a provider's result identifier accept
-- a text.
pub record Checks : Type 0 where
  pub safe_reason : String → Bool
  pub public_text : String → Bool

-- `MAX_BATCH_DOCUMENTS`
abbrev pub max_batch_documents : ℕ
max_batch_documents = 25

-- `CONFIRMED_PAYLOAD_RETENTION`, 30 days.
abbrev pub confirmed_payload_retention : ℕ
confirmed_payload_retention = 30 * 86400000000

-- A text after `sanitize_public_text`. Which text it is, is not modelled: every validation of the item
-- after the first projects it again and can change it. That projection is taken to be accepted too.
pub data PublicText : Type 0 where
  projected : PublicText

pub record OperationItem : Type 0 where
  pub operation_item_id : ℕ
  pub preview_item_id : ℕ
  pub item_index : ℕ
  pub client_item_id : String
  pub provider_call_hash : String
  pub preview_integrity_hash : String
  pub state : Item
  pub state_version : ℕ
  pub provider_result_identifier : Option PublicText
  pub created_at : ℕ
  pub updated_at : ℕ

pub record OperationEvent : Type 0 where
  pub event_id : ℕ
  pub operation_id : ℕ
  pub operation_item_id : Option ℕ
  pub from_state : Option String
  pub to_state : String
  pub state_version : ℕ
  pub sanitized_reason : String
  pub occurred_at : ℕ

pub record HostedOperation : Type 0 where
  pub operation_id : ℕ
  pub preview_id : ℕ
  pub tenant_id : ℕ
  pub auth_user_id : ℕ
  pub workspace_id : ℕ
  pub connection_id : ℕ
  pub provider : String
  pub environment : String
  pub capability_id : String
  pub capability_version : String
  pub connection_revision : ℕ
  pub provider_call_hash : String
  pub preview_integrity_hash : String
  pub state : Parent
  pub state_version : ℕ
  pub items : List OperationItem
  pub events : List OperationEvent
  pub created_at : ℕ
  pub updated_at : ℕ
  pub payload_purge_after : ℕ

abbrev pub is_some : {A : Type 0} → Option A → Bool
is_some none = false
is_some (some a) = true

abbrev pub same_bool : Bool → Bool → Bool
same_bool true b = b
same_bool false b = not b

abbrev pub is_nil : ℕ → Bool
is_nil id = id == 0

-- `OperationItem.validate_item`, with the bounds of the fields.
unfoldable pub item_valid : OperationItem → Bool
item_valid i =
    not (is_nil i.operation_item_id)
    && not (is_nil i.preview_item_id)
    && ltb i.item_index max_batch_documents
    && leb 1 i.state_version
    && leb i.created_at i.updated_at
    && same_bool (same_item i.state Item.succeeded) (is_some i.provider_result_identifier)

-- `OperationEvent.validate_states`: the values of both enums.
abbrev pub is_state : String → Bool
is_state text = is_some (coerce_parent text) || is_some (coerce_item text)

abbrev pub is_state_or_none : Option String → Bool
is_state_or_none none = true
is_state_or_none (some text) = is_state text

-- The validators of `OperationEvent`.
unfoldable pub event_valid : Checks → OperationEvent → Bool
event_valid checks e =
    leb 1 e.state_version
    && checks.safe_reason e.sanitized_reason
    && is_state e.to_state
    && is_state_or_none e.from_state

-- `len(set(…)) == len(…)`
abbrev pub is_in : ℕ → List ℕ → Bool
is_in x [] = false
is_in x (y ∷ ys) = x == y || is_in x ys

abbrev pub distinct : List ℕ → Bool
distinct [] = true
distinct (x ∷ xs) = not (is_in x xs) && distinct xs

abbrev pub item_ids : List OperationItem → List ℕ
item_ids [] = []
item_ids (i ∷ is) = i.operation_item_id ∷ item_ids is

abbrev pub item_states : List OperationItem → List Item
item_states [] = []
item_states (i ∷ is) = i.state ∷ item_states is

-- `tuple(item.item_index …) == tuple(range(…))`
abbrev pub indexed_from : ℕ → List OperationItem → Bool
indexed_from n [] = true
indexed_from n (i ∷ is) = i.item_index == n && indexed_from (suc n) is

abbrev pub is_parent_event : OperationEvent → Bool
is_parent_event e = not (is_some e.operation_item_id)

abbrev pub is_id : ℕ → Option ℕ → Bool
is_id id none = false
is_id id (some other) = other == id

abbrev pub is_event_of : ℕ → OperationEvent → Bool
is_event_of id e = is_id id e.operation_item_id

abbrev pub or_else : Option OperationEvent → Option OperationEvent → Option OperationEvent
or_else (some e) _ = some e
or_else none o = o

-- The last event that a test selects: `tuple(event for event in events if …)[-1]`.
unfoldable pub last_event : (OperationEvent → Bool) → List OperationEvent → Option OperationEvent
last_event p [] = none
last_event p (e ∷ es) = or_else (last_event p es) (if p e then some e else none)

abbrev pub records_parent : ℕ → Parent → Option OperationEvent → Bool
records_parent version state none = false
records_parent version state (some e) =
    e.state_version == version && str_eq e.to_state (parent_value state)

abbrev pub records_item : OperationItem → Option OperationEvent → Bool
records_item i none = true
records_item i (some e) =
    e.state_version == i.state_version && str_eq e.to_state (item_value i.state)

abbrev pub event_belongs : HostedOperation → OperationEvent → Bool
event_belongs op e =
    e.operation_id == op.operation_id
    && leb op.created_at e.occurred_at
    && (is_parent_event e || any (λ id. is_id id e.operation_item_id) (item_ids op.items))

-- `HostedOperation.validate_operation`, with the validators of the items and events in it.
unfoldable pub operation_valid : Checks → HostedOperation → Bool
operation_valid checks op =
    all item_valid op.items
    && all (event_valid checks) op.events
    && leb 1 op.connection_revision
    && leb 1 op.state_version
    && not (is_empty op.items)
    && leb (length op.items) max_batch_documents
    && not (is_nil op.operation_id)
    && not (is_nil op.preview_id)
    && not (is_nil op.tenant_id)
    && not (is_nil op.auth_user_id)
    && not (is_nil op.workspace_id)
    && not (is_nil op.connection_id)
    && leb op.created_at op.updated_at
    && ltb op.created_at op.payload_purge_after
    && leb op.payload_purge_after (op.created_at + confirmed_payload_retention)
    && distinct (item_ids op.items)
    && indexed_from 0 op.items
    && all (event_belongs op) op.events
    && records_parent op.state_version op.state (last_event is_parent_event op.events)
    && all (λ i. records_item i (last_event (is_event_of i.operation_item_id) op.events)) op.items
    && parent_operation_children_compatible (parent_value op.state)
        (map item_value (item_states op.items))

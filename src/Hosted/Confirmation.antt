-- ===== src/Hosted/Confirmation.antt =====
-- What ties an operation to the preview that it confirms: `HostedOperation.from_preview` of
-- execution/hosted/models.py, `_operation_matches_preview` and `_same_confirmation_identity` of
-- execution/hosted/store.py.
pub mod New
pub mod Matching
use mercury_tools.Prelude.{
  ℕ, suc, ◌+◌, String, str_eq, Bool, true, false, not, ◌&&◌, Option, none, some, List, [], ◌∷◌,
  length, ltb, leb, ◌==◌, Result, ok, err, ◌>>=◌, ◌>>◌, raise_if,
}
use mercury_tools.Hosted.Transitions.{
  ParentOperationState as Parent, OperationItemState as Item, same_parent, same_item,
}
use mercury_tools.Hosted.Operations.{
  Checks, OperationItem, OperationEvent, HostedOperation, ModelError, validation_error,
  operation_items_invalid, checked_item, checked_event, checked_operation, parent_value, is_some,
  confirmed_payload_retention,
}
use mercury_tools.Hosted.Previews.{StoredPreviewItem, DocumentPreview, preview_valid}

abbrev pub new_item : ℕ → ℕ → ℕ → StoredPreviewItem → OperationItem
new_item timestamp id index p = record {
  operation_item_id = id;
  preview_item_id = p.preview_item_id;
  item_index = index;
  client_item_id = p.client_item_id;
  provider_call_hash = p.provider_call_hash;
  preview_integrity_hash = p.preview_integrity_hash;
  state = Item.awaiting_confirmation;
  state_version = 1;
  provider_result_identifier = none;
  created_at = timestamp;
  updated_at = timestamp;
}

-- The items of `from_preview`, from an index on, with `zip(…, strict=True)`.
unfoldable pub new_items :
    ℕ → ℕ → List ℕ → List StoredPreviewItem → Result ModelError (List OperationItem)
new_items timestamp index [] [] = ok []
new_items timestamp index (id ∷ ids) (p ∷ ps) = do
  item ← checked_item (new_item timestamp id index p)
  items ← new_items timestamp (suc index) ids ps
  ok (item ∷ items)
new_items timestamp index _ _ = err operation_items_invalid

abbrev pub first_event : ℕ → ℕ → ℕ → OperationEvent
first_event operation_id event_id timestamp = record {
  event_id = event_id;
  operation_id = operation_id;
  operation_item_id = none;
  from_state = none;
  to_state = "awaiting_confirmation";
  state_version = 1;
  sanitized_reason = "explicit_confirmation";
  occurred_at = timestamp;
}

abbrev pub new_operation :
    DocumentPreview → ℕ → List OperationItem → OperationEvent → ℕ → HostedOperation
new_operation p operation_id items event timestamp = record {
  operation_id = operation_id;
  preview_id = p.preview_id;
  tenant_id = p.tenant_id;
  auth_user_id = p.auth_user_id;
  workspace_id = p.workspace_id;
  connection_id = p.connection_id;
  provider = p.provider;
  environment = p.environment;
  capability_id = p.capability_id;
  capability_version = p.capability_version;
  connection_revision = p.connection_revision;
  provider_call_hash = p.provider_call_hash;
  preview_integrity_hash = p.preview_integrity_hash;
  state = Parent.awaiting_confirmation;
  state_version = 1;
  items = items;
  events = event ∷ [];
  created_at = timestamp;
  updated_at = timestamp;
  payload_purge_after = timestamp + confirmed_payload_retention;
}

-- `HostedOperation.from_preview`
unfoldable pub from_preview :
    Checks → DocumentPreview → ℕ → List ℕ → ℕ → ℕ → Result ModelError HostedOperation
from_preview checks preview operation_id operation_item_ids event_id now = do
  raise_if (not (preview_valid preview)) validation_error
  raise_if (not (length operation_item_ids == length preview.items)) operation_items_invalid
  items ← new_items now 0 operation_item_ids preview.items
  event ← checked_event checks (first_event operation_id event_id now)
  checked_operation checks (new_operation preview operation_id items event now)

-- The identity that a confirmation fixes, of an operation and of its preview.
abbrev pub binds : HostedOperation → DocumentPreview → Bool
binds op p =
    op.preview_id == p.preview_id
    && op.tenant_id == p.tenant_id
    && op.auth_user_id == p.auth_user_id
    && op.workspace_id == p.workspace_id
    && op.connection_id == p.connection_id
    && str_eq op.provider p.provider
    && str_eq op.environment p.environment
    && str_eq op.capability_id p.capability_id
    && str_eq op.capability_version p.capability_version
    && op.connection_revision == p.connection_revision
    && str_eq op.provider_call_hash p.provider_call_hash
    && str_eq op.preview_integrity_hash p.preview_integrity_hash

-- The test on the only event of a new operation.
abbrev pub event_matches : HostedOperation → List OperationEvent → Bool
event_matches op (e ∷ []) =
    not (is_some e.operation_item_id)
    && not (is_some e.from_state)
    && str_eq e.to_state "awaiting_confirmation"
    && e.state_version == 1
    && e.occurred_at == op.created_at
event_matches op _ = false

abbrev pub item_matches : HostedOperation → OperationItem → StoredPreviewItem → Bool
item_matches op i p =
    i.preview_item_id == p.preview_item_id
    && i.item_index == p.item_index
    && str_eq i.client_item_id p.client_item_id
    && str_eq i.provider_call_hash p.provider_call_hash
    && str_eq i.preview_integrity_hash p.preview_integrity_hash
    && same_item i.state Item.awaiting_confirmation
    && i.state_version == 1
    && not (is_some i.provider_result_identifier)
    && i.created_at == op.created_at
    && i.updated_at == op.created_at

-- `all(… for … in zip(operation.items, preview.items, strict=True))`, of lists of one length.
abbrev pub items_match : HostedOperation → List OperationItem → List StoredPreviewItem → Bool
items_match op [] [] = true
items_match op (i ∷ is) (p ∷ ps) = item_matches op i p && items_match op is ps
items_match op _ _ = false

-- `_operation_matches_preview`
unfoldable pub operation_matches_preview : HostedOperation → DocumentPreview → Bool
operation_matches_preview op p =
    binds op p
    && same_parent op.state Parent.awaiting_confirmation
    && op.state_version == 1
    && not (ltb op.created_at p.created_at)
    && ltb op.created_at p.expires_at
    && op.updated_at == op.created_at
    && not (ltb op.payload_purge_after p.payload_purge_after)
    && length op.items == length p.items
    && event_matches op op.events
    && items_match op op.items p.items

abbrev pub same_identity : OperationItem → OperationItem → Bool
same_identity i j =
    i.item_index == j.item_index
    && i.preview_item_id == j.preview_item_id
    && str_eq i.client_item_id j.client_item_id
    && str_eq i.provider_call_hash j.provider_call_hash
    && str_eq i.preview_integrity_hash j.preview_integrity_hash

abbrev pub same_identities : List OperationItem → List OperationItem → Bool
same_identities [] [] = true
same_identities (i ∷ is) (j ∷ js) = same_identity i j && same_identities is js
same_identities _ _ = false

-- `_same_confirmation_identity`
unfoldable pub same_confirmation_identity : HostedOperation → HostedOperation → Bool
same_confirmation_identity left right =
    left.preview_id == right.preview_id
    && left.tenant_id == right.tenant_id
    && left.auth_user_id == right.auth_user_id
    && left.workspace_id == right.workspace_id
    && left.connection_id == right.connection_id
    && str_eq left.provider right.provider
    && str_eq left.environment right.environment
    && str_eq left.capability_id right.capability_id
    && str_eq left.capability_version right.capability_version
    && left.connection_revision == right.connection_revision
    && str_eq left.provider_call_hash right.provider_call_hash
    && str_eq left.preview_integrity_hash right.preview_integrity_hash
    && same_identities left.items right.items

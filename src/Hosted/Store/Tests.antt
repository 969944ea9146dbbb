-- ===== src/Hosted/Store/Tests.antt =====
-- Runs of the store of execution/hosted/store.py, and the theorems at concrete inputs.
use mercury_tools.Prelude.{
  ℕ, ◌+◌, ◌*◌, ◌≤◌, String, true, none, some, List, [], ◌∷◌, ok, err, ◌≡◌, arith, refl, inl,
}
use mercury_tools.Hosted.Transitions.{
  ParentOperationState as Parent, OperationItemState as Item, coerce_parent, coerce_item,
  coerce_items, parent_operation_transition_allowed, item_operation_transition_allowed,
  parent_operation_children_compatible, parent_step, item_step, children_compatible,
}
use mercury_tools.Hosted.Operations.{
  Checks, projected, OperationItem, OperationEvent, HostedOperation, item_valid, event_valid,
  last_event, operation_valid, checked_item, checked_event, checked_operation, move_item,
  move_operation, matches_from, set_at, move_item_at, move_operation_item,
  confirmed_payload_retention,
}
use mercury_tools.Hosted.Operations.Log.{IsLogged}
use mercury_tools.Hosted.Operations.Progress.{Later}
use mercury_tools.Hosted.Previews.{
  DocumentPreview, StoredPreviewItem, awaiting_confirmation, confirmed, ready, preview_item_valid,
  preview_fixed, preview_items_valid, preview_valid, checked_preview, move_preview, preview_ttl,
  unconfirmed_payload_retention, with_preview_state,
}
use mercury_tools.Hosted.Confirmation.{
  new_operation, first_event, new_items, from_preview, binds, operation_matches_preview,
}
use mercury_tools.Hosted.Confirmation.New.{made}
use mercury_tools.Hosted.Store.Authority.{
  operation_not_found, operation_state_stale, Connection, Qualification, enabled, Registry,
  Resolver, connection_matches, qualification_identity_matches, qualification_is_current,
  validate_authority,
}
use mercury_tools.Hosted.Store.State.{
  World, Scope, empty_store, put, put_call, returned_preview, returned_operation, has_item_key,
  item_key, operation_in_scope,
}
use mercury_tools.Hosted.Store.Previews.{admit_preview, create_preview}
use mercury_tools.Hosted.Store.Operations.{
  revalidate_operation_authority, confirm_preview, admit_operation, create_operation, get_operation,
  dispatch_allowed, next_operation, transition_operation, next_item, transition_operation_item,
  with_operation,
}
use mercury_tools.Hosted.Store.Calls.{
  Call, creates_preview, creates_operation, transitions_operation, transitions_item, apply_call,
  serve,
}
use mercury_tools.Hosted.Store.Invariant.{IsSound, empty_store-IsSound, store_calls-IsSound}
use mercury_tools.Hosted.Store.Safety.{
  confirmed_once, provider_calls_once, operations-IsLogged, operations-events,
}
use mercury_tools.Hosted.Store.Concurrency.{serve-settled, transition_operation-stale}
use mercury_tools.Hosted.Store.Access.{Authorised, dispatching-Authorised}
use mercury_tools.Hosted.Store.Strangers.{IsOwner, stranger_refused}
use mercury_tools.Hosted.Store.Retry.{create_operation-retry}
use mercury_tools.Hosted.Store.Acceptance.{IsConfirmable, confirmation_succeeds}

abbrev all_safe : Checks
all_safe = record { safe_reason = λ (r : String). true; public_text = λ (t : String). true }

abbrev line : StoredPreviewItem
line = record {
  preview_item_id = 21;
  preview_id = 2;
  tenant_id = 3;
  auth_user_id = 4;
  workspace_id = 5;
  connection_id = 6;
  item_index = 0;
  client_item_id = "line";
  provider_call_hash = "call";
  preview_integrity_hash = "shown";
  created_at = 1000;
  payload_purge_after = 1000 + preview_ttl + unconfirmed_payload_retention;
}

abbrev invoice : DocumentPreview
invoice = record {
  preview_id = 2;
  tenant_id = 3;
  auth_user_id = 4;
  workspace_id = 5;
  connection_id = 6;
  provider = "peak";
  provider_account_sha256 = "account";
  environment = "sandbox";
  qualification_id = 7;
  provider_tool_name = "create_invoice";
  capability_id = "invoice.create";
  capability_version = "v1";
  schema_hash = "schema";
  response_shape_hash = "shape";
  evidence_revision_sha256 = "evidence";
  projector_id = "projector";
  projector_version = "p1";
  connection_revision = 1;
  connection_readiness = ready;
  provider_call_hash = "calls";
  preview_integrity_hash = "all shown";
  state = awaiting_confirmation;
  state_version = 1;
  items = line ∷ [];
  supersedes_preview_id = none;
  created_at = 1000;
  expires_at = 1000 + preview_ttl;
  payload_purge_after = 1000 + preview_ttl + unconfirmed_payload_retention;
  confirmed_at = none;
  cancelled_at = none;
}

abbrev connected : Connection
connected = record {
  id = 6;
  tenant_id = 3;
  auth_user_id = 4;
  workspace_id = 5;
  provider = "peak";
  environment = "sandbox";
  revision = 1;
  readiness = ready;
  provider_account_id = "account";
  granted_permissions = "invoices" ∷ [];
}

abbrev qualified : Qualification
qualified = record {
  id = some 7;
  provider = "peak";
  environment = "sandbox";
  provider_tool_name = "create_invoice";
  normalized_capability = "invoice.create";
  capability_version_sha256 = "v1";
  schema_hash = "schema";
  response_shape_hash = "shape";
  evidence_revision_sha256 = some "evidence";
  company_sha256 = some "account";
  qualification_state = enabled;
  evidence_evaluated_at = some 500;
  evidence_expires_at = some 90000;
  required_permissions = "invoices" ∷ [];
}

-- SHA-256 is taken to be the text itself here.
abbrev registered : Registry
registered = record {
  sha256 = λ (t : String). t;
  resolve =
      λ (q : Qualification). some (record { projector_id = "projector"; projector_version = "p1" });
  validated = λ (c : Connection) (q : Qualification). true;
}

abbrev resolves : Resolver
resolves = λ (p : DocumentPreview). ok (connected, qualified)

abbrev office : World
office = record {
  registry = registered;
  authority_resolver = some resolves;
  authority_now = 2000;
  now = 2000;
}

abbrev owner : Scope
owner = record { tenant_id = 3; auth_user_id = 4; workspace_id = 5 }

abbrev stranger : Scope
stranger = record { tenant_id = 3; auth_user_id = 4; workspace_id = 9 }

abbrev mutation : HostedOperation
mutation =
    new_operation invoice 11 (made 2000 0 (31 ∷ []) (line ∷ [])) (first_event 11 41 2000) 2000

from_preview_example : from_preview all_safe invoice 11 (31 ∷ []) 41 2000 ≡ ok mutation
unfolding from_preview preview_valid preview_fixed preview_items_valid preview_item_valid new_items
    checked_item item_valid checked_event event_valid checked_operation operation_valid last_event
    coerce_parent coerce_item coerce_items parent_operation_children_compatible children_compatible
from_preview_example = refl

abbrev confirmation : List (World × Call)
confirmation = (office, creates_preview invoice) ∷ (office, creates_operation mutation 1) ∷ []

abbrev moved_invoice : DocumentPreview
moved_invoice = with_preview_state invoice confirmed 2000 (2000 + confirmed_payload_retention)

confirmed_found : (serve all_safe confirmation empty_store).operations 11 ≡ some mutation
unfolding serve apply_call create_preview admit_preview preview_valid preview_fixed
    preview_items_valid preview_item_valid returned_preview put put_call has_item_key
    create_operation admit_operation confirm_preview revalidate_operation_authority
    validate_authority connection_matches qualification_identity_matches qualification_is_current
    operation_matches_preview move_preview checked_preview returned_operation operation_valid
    item_valid event_valid last_event coerce_parent coerce_item coerce_items
    parent_operation_children_compatible children_compatible
confirmed_found = refl

preview_found : (serve all_safe confirmation empty_store).previews 2 ≡ some moved_invoice
unfolding serve apply_call create_preview admit_preview preview_valid preview_fixed
    preview_items_valid preview_item_valid returned_preview put put_call has_item_key
    create_operation admit_operation confirm_preview revalidate_operation_authority
    validate_authority connection_matches qualification_identity_matches qualification_is_current
    operation_matches_preview move_preview checked_preview returned_operation operation_valid
    item_valid event_valid last_event coerce_parent coerce_item coerce_items
    parent_operation_children_compatible children_compatible
preview_found = refl

abbrev sent : List (World × Call)
sent =
    (office, creates_preview invoice)
    ∷ (office, creates_operation mutation 1)
    ∷ (office, transitions_operation owner 11 1 Parent.dispatching 42 2100 "dispatch")
    ∷ (office, transitions_item owner 11 31 1 Item.dispatching 43 2200 "sent" none)
    ∷ (office, transitions_item owner 11 31 2 Item.succeeded 44 2300 "done" (some "INV-1"))
    ∷ (office, transitions_operation owner 11 2 Parent.succeeded 45 2400 "done")
    ∷ []

abbrev parent_entry : ℕ → String → String → ℕ → String → ℕ → OperationEvent
parent_entry event_id from to version reason at = record {
  event_id = event_id;
  operation_id = 11;
  operation_item_id = none;
  from_state = some from;
  to_state = to;
  state_version = version;
  sanitized_reason = reason;
  occurred_at = at;
}

abbrev item_entry : ℕ → String → String → ℕ → String → ℕ → OperationEvent
item_entry event_id from to version reason at =
    record (parent_entry event_id from to version reason at) { operation_item_id = some 31 }

abbrev sent_item : OperationItem
sent_item = record {
  operation_item_id = 31;
  preview_item_id = 21;
  item_index = 0;
  client_item_id = "line";
  provider_call_hash = "call";
  preview_integrity_hash = "shown";
  state = Item.succeeded;
  state_version = 3;
  provider_result_identifier = some projected;
  created_at = 2000;
  updated_at = 2300;
}

abbrev sent_mutation : HostedOperation
sent_mutation = record mutation {
  state = Parent.succeeded;
  state_version = 3;
  items = sent_item ∷ [];
  events =
      first_event 11 41 2000
      ∷ parent_entry 42 "awaiting_confirmation" "dispatching" 2 "dispatch" 2100
      ∷ item_entry 43 "awaiting_confirmation" "dispatching" 2 "sent" 2200
      ∷ item_entry 44 "dispatching" "succeeded" 3 "done" 2300
      ∷ parent_entry 45 "dispatching" "succeeded" 3 "done" 2400
      ∷ [];
  updated_at = 2400;
}

sent_found : (serve all_safe sent empty_store).operations 11 ≡ some sent_mutation
unfolding serve apply_call create_preview admit_preview preview_valid preview_fixed
    preview_items_valid preview_item_valid returned_preview put put_call has_item_key
    create_operation admit_operation confirm_preview revalidate_operation_authority
    validate_authority connection_matches qualification_identity_matches qualification_is_current
    operation_matches_preview move_preview checked_preview returned_operation operation_valid
    item_valid event_valid last_event coerce_parent coerce_item coerce_items
    parent_operation_children_compatible children_compatible transition_operation next_operation
    get_operation dispatch_allowed move_operation checked_event checked_operation
    parent_operation_transition_allowed parent_step transition_operation_item next_item matches_from
    move_operation_item move_item_at move_item checked_item set_at item_operation_transition_allowed
    item_step
sent_found = refl

confirmed_once_example :
    ((p : DocumentPreview) × ((serve all_safe sent empty_store).previews 2 ≡ some p)
      × (p.state ≡ confirmed)
      × (binds sent_mutation p ≡ true))
    × ((id' : ℕ) (op' : HostedOperation)
        → (serve all_safe sent empty_store).operations id' ≡ some op'
        → op'.preview_id ≡ 2
        → id' ≡ 11)
confirmed_once_example = confirmed_once all_safe sent 11 sent_mutation sent_found

abbrev invoice_id : ℕ
invoice_id = 2

provider_calls_once_example : invoice_id ≡ invoice_id
provider_calls_once_example =
    provider_calls_once all_safe confirmation 2 2 moved_invoice moved_invoice
      (item_key invoice line) preview_found preview_found (inl refl)

operations-IsLogged_example : IsLogged sent_mutation
operations-IsLogged_example = operations-IsLogged all_safe sent 11 sent_mutation sent_found

operations-events_example : 5 ≤ 5 * (1 + 1) + 1
operations-events_example = operations-events all_safe sent 11 sent_mutation sent_found

abbrev late : List (World × Call)
late = (office, transitions_operation owner 11 3 Parent.outcome_unknown 46 2500 "late") ∷ []

serve-settled_example :
    (serve all_safe late (serve all_safe sent empty_store)).operations 11 ≡ some sent_mutation
serve-settled_example =
    serve-settled all_safe late (serve all_safe sent empty_store) 11 sent_mutation sent_found refl

abbrev attempts : List (World × Call)
attempts =
    (office, transitions_operation stranger 11 1 Parent.cancelled 48 2200 "stop")
    ∷ (office, transitions_item stranger 11 31 1 Item.cancelled 49 2200 "stop" none)
    ∷ []

not-IsOwner : ¬ (IsOwner stranger mutation)
not-IsOwner own = absurd (omega (arith, own.2))

stranger_refused_example :
    (get_operation all_safe stranger 11
        (serve all_safe sent (serve all_safe confirmation empty_store))
      ≡ err operation_not_found)
    × (transition_operation all_safe office stranger 11 1 Parent.cancelled 47 2100 "stop"
          (serve all_safe sent (serve all_safe confirmation empty_store))
        ≡ (err operation_not_found, serve all_safe sent (serve all_safe confirmation empty_store)))
    × (transition_operation_item all_safe stranger 11 31 1 Item.cancelled 47 2100 "stop" none
          (serve all_safe sent (serve all_safe confirmation empty_store))
        ≡ (err operation_not_found, serve all_safe sent (serve all_safe confirmation empty_store)))
    × ((serve all_safe attempts
            (serve all_safe sent (serve all_safe confirmation empty_store))).operations
          11
        ≡ (serve all_safe sent (serve all_safe confirmation empty_store)).operations 11)
stranger_refused_example =
    stranger_refused all_safe sent attempts office stranger 11 31 1 Parent.cancelled Item.cancelled
      47 2100 "stop" none (serve all_safe confirmation empty_store) mutation confirmed_found
      not-IsOwner (not-IsOwner, (not-IsOwner, tt))

abbrev dispatched : HostedOperation
dispatched = record mutation {
  state = Parent.dispatching;
  state_version = 2;
  events =
      first_event 11 41 2000
      ∷ parent_entry 42 "awaiting_confirmation" "dispatching" 2 "dispatch" 2100
      ∷ [];
  updated_at = 2100;
}

dispatch_returns :
    (transition_operation all_safe office owner 11 1 Parent.dispatching 42 2100 "dispatch"
      (serve all_safe confirmation empty_store)).0
    ≡ ok dispatched
unfolding serve apply_call create_preview admit_preview preview_valid preview_fixed
    preview_items_valid preview_item_valid returned_preview put put_call has_item_key
    create_operation admit_operation confirm_preview revalidate_operation_authority
    validate_authority connection_matches qualification_identity_matches qualification_is_current
    operation_matches_preview move_preview checked_preview returned_operation operation_valid
    item_valid event_valid last_event coerce_parent coerce_item coerce_items
    parent_operation_children_compatible children_compatible transition_operation next_operation
    get_operation dispatch_allowed move_operation checked_event checked_operation
    parent_operation_transition_allowed parent_step transition_operation_item next_item matches_from
    move_operation_item move_item_at move_item checked_item set_at item_operation_transition_allowed
    item_step
dispatch_returns = refl

dispatching-Authorised_example :
    (self : HostedOperation) × ((serve all_safe confirmation empty_store).operations 11 ≡ some self)
    × (operation_in_scope owner self ≡ true)
    × (p : DocumentPreview) × ((serve all_safe confirmation empty_store).previews self.preview_id
        ≡ some p)
    × Authorised office p
dispatching-Authorised_example =
    dispatching-Authorised all_safe office owner 11 1 42 2100 "dispatch"
      (serve all_safe confirmation empty_store) dispatch_returns

confirmed_store-IsSound : IsSound all_safe (serve all_safe confirmation empty_store)
confirmed_store-IsSound =
    store_calls-IsSound all_safe confirmation empty_store (empty_store-IsSound all_safe)

transition_operation-stale_example :
    let after =
      serve all_safe late
        (transition_operation all_safe office owner 11 1 Parent.dispatching 42 2100 "dispatch"
          (serve all_safe confirmation empty_store)).1 in
    transition_operation all_safe office owner 11 1 Parent.cancelled 48 2600 "stop" after
    ≡ (err operation_state_stale, after)
transition_operation-stale_example =
    transition_operation-stale all_safe (serve all_safe confirmation empty_store) office office
      owner 11 1 Parent.dispatching Parent.cancelled 42 48 2100 2600 "dispatch" "stop" late
      confirmed_store-IsSound dispatch_returns

abbrev only_preview : List (World × Call)
only_preview = (office, creates_preview invoice) ∷ []

invoice_held : (serve all_safe only_preview empty_store).previews 2 ≡ some invoice
unfolding serve apply_call create_preview admit_preview preview_valid preview_fixed
    preview_items_valid preview_item_valid returned_preview put put_call has_item_key
    create_operation admit_operation confirm_preview revalidate_operation_authority
    validate_authority connection_matches qualification_identity_matches qualification_is_current
    operation_matches_preview move_preview checked_preview returned_operation operation_valid
    item_valid event_valid last_event coerce_parent coerce_item coerce_items
    parent_operation_children_compatible children_compatible
invoice_held = refl

confirmation_returns :
    (create_operation all_safe office mutation 1 (serve all_safe only_preview empty_store)).0
    ≡ ok mutation
unfolding serve apply_call create_preview admit_preview preview_valid preview_fixed
    preview_items_valid preview_item_valid returned_preview put put_call has_item_key
    create_operation admit_operation confirm_preview revalidate_operation_authority
    validate_authority connection_matches qualification_identity_matches qualification_is_current
    operation_matches_preview move_preview checked_preview returned_operation operation_valid
    item_valid event_valid last_event coerce_parent coerce_item coerce_items
    parent_operation_children_compatible children_compatible
confirmation_returns = refl

only_preview-IsSound : IsSound all_safe (serve all_safe only_preview empty_store)
only_preview-IsSound =
    store_calls-IsSound all_safe only_preview empty_store (empty_store-IsSound all_safe)

create_operation-retry_example :
    let after =
      serve all_safe late
        (create_operation all_safe office mutation 1 (serve all_safe only_preview empty_store)).1 in
    (o : HostedOperation) × Later all_safe mutation o
    × (create_operation all_safe office mutation 7 after ≡ (ok o, after))
create_operation-retry_example =
    create_operation-retry all_safe (serve all_safe only_preview empty_store) office office mutation
      1 7 late only_preview-IsSound confirmation_returns

authority_given : revalidate_operation_authority office invoice ≡ ok tt
unfolding serve apply_call create_preview admit_preview preview_valid preview_fixed
    preview_items_valid preview_item_valid returned_preview put put_call has_item_key
    create_operation admit_operation confirm_preview revalidate_operation_authority
    validate_authority connection_matches qualification_identity_matches qualification_is_current
    operation_matches_preview move_preview checked_preview returned_operation operation_valid
    item_valid event_valid last_event coerce_parent coerce_item coerce_items
    parent_operation_children_compatible children_compatible
authority_given = refl

nothing_held : (serve all_safe only_preview empty_store).operations 11 ≡ none
unfolding serve apply_call create_preview admit_preview preview_valid preview_fixed
    preview_items_valid preview_item_valid returned_preview put put_call has_item_key
    create_operation admit_operation confirm_preview revalidate_operation_authority
    validate_authority connection_matches qualification_identity_matches qualification_is_current
    operation_matches_preview move_preview checked_preview returned_operation operation_valid
    item_valid event_valid last_event coerce_parent coerce_item coerce_items
    parent_operation_children_compatible children_compatible
nothing_held = refl

invoice-IsConfirmable :
    IsConfirmable all_safe office
      (serve all_safe only_preview empty_store)
      invoice
      11
      (31 ∷ [])
      2000
      1
invoice-IsConfirmable = record {
  held = invoice_held;
  awaiting = refl;
  current = refl;
  authority = authority_given;
  fit = record {
    operation_set = refl;
    enough = refl;
    ids_set = refl;
    ids_distinct = refl;
    reason_safe = refl;
  };
  new_id = nothing_held;
  created_before = refl;
  expires_after_now = refl;
  clock_in_time = refl;
}

confirmation_succeeds_example :
    (op : HostedOperation) × (from_preview all_safe invoice 11 (31 ∷ []) 41 2000 ≡ ok op)
    × (create_operation all_safe office op 1 (serve all_safe only_preview empty_store)
        ≡ (ok op, with_operation op moved_invoice (serve all_safe only_preview empty_store)))
confirmation_succeeds_example =
    confirmation_succeeds all_safe office (serve all_safe only_preview empty_store) invoice 11
      (31 ∷ []) 41 2000 1 only_preview-IsSound invoice-IsConfirmable

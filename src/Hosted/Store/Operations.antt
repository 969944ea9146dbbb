-- ===== src/Hosted/Store/Operations.antt =====
-- The methods of `InMemoryHostedPreviewStore` in execution/hosted/store.py on operations.
use mercury_tools.Prelude.{
  ℕ, String, not, Option, none, some, leb, ◌==◌, if◌then◌else◌, Result, ok, err, ◌>>=◌, ◌>>◌,
  raise_if,
}
use mercury_tools.Hosted.Transitions.{
  ParentOperationState as Parent, OperationItemState as Item, same_parent,
}
use mercury_tools.Hosted.Operations.{
  Checks, HostedOperation, ModelError, operation_valid, move_operation, move_operation_item,
  matches_from, only_match, is_some,
}
use mercury_tools.Hosted.Previews.{confirmed, DocumentPreview, move_preview}
use mercury_tools.Hosted.Confirmation.{operation_matches_preview, same_confirmation_identity}
use mercury_tools.Hosted.Store.Authority.{
  HostedError, preview_state_stale, preview_expired, preview_binding_changed, operation_conflict,
  operation_not_found, operation_state_stale, operation_transition_invalid, key_error,
  ResolverError, hosted, other_exception, validate_authority,
}
use mercury_tools.Hosted.Store.State.{
  HostedStore, Reply, Scope, World, operation_in_scope, put, returned_operation, some_or,
}
use mercury_tools.Hosted.Store.Previews.{recoded}

-- `except HostedPreviewError: raise` and `except Exception`.
abbrev pub resolved : {A : Type 0} → Result ResolverError A → Result HostedError A
resolved (ok a) = ok a
resolved (err (hosted e)) = err e
resolved (err other_exception) = err preview_binding_changed

-- `_revalidate_operation_authority`
unfoldable pub revalidate_operation_authority :
    World → DocumentPreview → Result HostedError (Unit {0})
revalidate_operation_authority world p = do
  resolver ← some_or world.authority_resolver preview_binding_changed
  (c, q) ← resolved (resolver p)
  validate_authority world.registry p c q world.authority_now

-- `create_operation` for a preview that has no operation, up to the assignments: the preview as it is
-- confirmed.
unfoldable pub confirm_preview :
    World → HostedStore → HostedOperation → DocumentPreview → ℕ → Result HostedError DocumentPreview
confirm_preview world s op preview expected = do
  revalidate_operation_authority world preview
  raise_if (not (operation_matches_preview op preview)) operation_conflict
  raise_if (is_some (s.operations op.operation_id)) operation_conflict
  raise_if (not (preview.state_version == expected)) preview_state_stale
  raise_if (leb preview.expires_at world.now) preview_expired
  recoded operation_conflict
      (move_preview preview confirmed op.created_at (some op.payload_purge_after))

-- What `create_operation` is to do: return an operation, or confirm a preview.
pub data Confirmation : Type 0 where
  existing : HostedOperation → Confirmation
  confirming : DocumentPreview → Confirmation

-- `create_operation` up to its assignments.
unfoldable pub admit_operation :
    Checks → World → HostedStore → HostedOperation → ℕ → Result HostedError Confirmation
admit_operation checks world s op expected = do
  raise_if (not (operation_valid checks op)) operation_conflict
  preview ← some_or (s.previews op.preview_id) operation_conflict
  elim (s.operation_by_preview op.preview_id) [
    | some id ↦ do
      known ← some_or (s.operations id) key_error
      raise_if (not (same_confirmation_identity known op)) operation_conflict
      ok (existing known)
    | none ↦ do moved ← confirm_preview world s op preview expected; ok (confirming moved)
  ]

-- The three assignments of `create_operation`.
abbrev pub with_operation : HostedOperation → DocumentPreview → HostedStore → HostedStore
with_operation op moved s = record s {
  previews = put moved.preview_id moved s.previews;
  operations = put op.operation_id op s.operations;
  operation_by_preview = put op.preview_id op.operation_id s.operation_by_preview;
}

-- `create_operation`
unfoldable pub create_operation :
    Checks → World → HostedOperation → ℕ → HostedStore → Reply HostedOperation
create_operation checks world op expected s = elim (admit_operation checks world s op expected) [
  | err e ↦ (err e, s)
  | ok (existing known) ↦ (returned_operation checks known, s)
  | ok (confirming moved) ↦ (returned_operation checks op, with_operation op moved s)
]

-- `get_operation`
unfoldable pub get_operation : Checks → Scope → ℕ → HostedStore → Result HostedError HostedOperation
get_operation checks scope id s = do
  op ← some_or (s.operations id) operation_not_found
  raise_if (not (operation_in_scope scope op)) operation_not_found
  returned_operation checks op

abbrev pub or_invalid : {A : Type 0} → Result ModelError A → Result HostedError A
or_invalid (ok a) = ok a
or_invalid (err e) = err operation_transition_invalid

-- What `transition_operation` asks before a dispatch.
unfoldable pub dispatch_allowed :
    World → HostedStore → HostedOperation → Parent → Result HostedError (Unit {0})
dispatch_allowed world s op target =
    if same_parent target Parent.dispatching
    then some_or (s.previews op.preview_id) operation_not_found
      >>= revalidate_operation_authority world
    else ok tt

-- `transition_operation` up to its assignment.
unfoldable pub next_operation :
    Checks
    → World
    → Scope
    → ℕ
    → ℕ
    → Parent
    → ℕ
    → ℕ
    → String
    → HostedStore
    → Result HostedError HostedOperation
next_operation checks world scope id expected target event_id occurred_at sanitized_reason s = do
  op ← get_operation checks scope id s
  raise_if (not (op.state_version == expected)) operation_state_stale
  dispatch_allowed world s op target
  or_invalid (move_operation checks op target event_id occurred_at sanitized_reason)

abbrev pub with_moved :
    Checks → ℕ → Result HostedError HostedOperation → HostedStore → Reply HostedOperation
with_moved checks id (err e) s = (err e, s)
with_moved checks id (ok moved) s =
    (returned_operation checks moved, record s { operations = put id moved s.operations })

-- `transition_operation`
unfoldable pub transition_operation :
    Checks → World → Scope → ℕ → ℕ → Parent → ℕ → ℕ → String → HostedStore → Reply HostedOperation
transition_operation checks world scope id expected target event_id occurred_at reason s =
    with_moved checks id
      (next_operation checks world scope id expected target event_id occurred_at reason s) s

-- `transition_operation_item` up to its assignment.
unfoldable pub next_item :
    Checks
    → Scope
    → ℕ
    → ℕ
    → ℕ
    → Item
    → ℕ
    → ℕ
    → String
    → Option String
    → HostedStore
    → Result HostedError HostedOperation
next_item checks scope id item_id expected target event_id occurred_at sanitized_reason result s =
    do
      op ← get_operation checks scope id s
      (index, item) ← some_or (only_match (matches_from 0 item_id op.items)) operation_not_found
      raise_if (not (item.state_version == expected)) operation_state_stale
      or_invalid (
          move_operation_item checks op item_id target event_id occurred_at sanitized_reason result)

-- `transition_operation_item`
unfoldable pub transition_operation_item :
    Checks
    → Scope
    → ℕ
    → ℕ
    → ℕ
    → Item
    → ℕ
    → ℕ
    → String
    → Option String
    → HostedStore
    → Reply HostedOperation
transition_operation_item checks scope id item_id expected target event_id at reason result s =
    with_moved checks id
      (next_item checks scope id item_id expected target event_id at reason result s) s

-- ===== src/Hosted/Store/Previews.antt =====
-- The methods of `InMemoryHostedPreviewStore` in execution/hosted/store.py on previews. A method reads
-- and raises first and assigns last. The lock makes the calls a sequence.
use mercury_tools.Prelude.{
  ℕ, String, str_eq, not, ◌||◌, Option, none, some, List, [], ◌∷◌, any, leb, ◌==◌, Result, ok, err,
  ◌>>=◌, ◌>>◌, raise_if,
}
use mercury_tools.Hosted.Operations.{is_some}
use mercury_tools.Hosted.Previews.{
  PreviewState, confirmed, prepared, awaiting_confirmation, StoredPreviewItem, DocumentPreview,
  PreviewError, preview_valid, move_preview, preview_in, same_preview_state,
}
use mercury_tools.Hosted.Store.Authority.{
  HostedError, preview_conflict, duplicate_provider_call, preview_not_found, preview_state_stale,
  preview_state_invalid, preview_expired, key_error, Connection, Qualification, validate_authority,
}
use mercury_tools.Hosted.Store.State.{
  CallKey, HostedStore, Reply, Scope, World, call_key, has_item_key, item_key, preview_in_scope,
  put, put_call, returned_preview, some_or,
}

-- `create_preview` up to its assignments: the preview that is there already, or none.
unfoldable pub admit_preview :
    HostedStore → DocumentPreview → Result HostedError (Option DocumentPreview)
admit_preview s p = do
  raise_if (not (preview_valid p)) preview_conflict
  elim (s.preview_provider_calls (call_key p)) [
    | some id ↦ do
      existing ← some_or (s.previews id) key_error
      raise_if (not (str_eq existing.preview_integrity_hash p.preview_integrity_hash))
          duplicate_provider_call
      ok (some existing)
    | none ↦ do
      raise_if (is_some (s.previews p.preview_id)) preview_conflict
      raise_if (any (λ (i : StoredPreviewItem). s.item_provider_calls (item_key p i)) p.items)
          duplicate_provider_call
      ok none
  ]

-- The three assignments of `create_preview`.
abbrev pub with_preview : DocumentPreview → HostedStore → HostedStore
with_preview p s = record s {
  previews = put p.preview_id p s.previews;
  preview_provider_calls = put_call (call_key p) p.preview_id s.preview_provider_calls;
  item_provider_calls = λ (k : CallKey). has_item_key p p.items k || s.item_provider_calls k;
}

-- `create_preview`
unfoldable pub create_preview : DocumentPreview → HostedStore → Reply DocumentPreview
create_preview p s = elim (admit_preview s p) [
  | err e ↦ (err e, s)
  | ok known ↦ elim known [
    | some existing ↦ (returned_preview existing, s)
    | none ↦ (returned_preview p, with_preview p s)
  ]
]

-- `find_preview_by_provider_call`
unfoldable pub find_preview_by_provider_call :
    Scope → ℕ → String → HostedStore → Result HostedError (Option DocumentPreview)
find_preview_by_provider_call scope connection_id provider_call_hash s =
    elim (s.preview_provider_calls (record {
      workspace_id = scope.workspace_id;
      connection_id = connection_id;
      provider_call_hash = provider_call_hash;
    })) [
      | none ↦ ok none
      | some id ↦ do
        preview ← some_or (s.previews id) key_error
        raise_if (not (preview_in_scope scope preview)) preview_not_found
        shown ← returned_preview preview
        ok (some shown)
    ]

-- `get_preview`
unfoldable pub get_preview : Scope → ℕ → HostedStore → Result HostedError DocumentPreview
get_preview scope id s = do
  preview ← some_or (s.previews id) preview_not_found
  raise_if (not (preview_in_scope scope preview)) preview_not_found
  returned_preview preview

-- The tests of `_load_confirmable` before the payloads are opened.
unfoldable pub confirmable :
    World
    → Scope
    → ℕ
    → Connection
    → Qualification
    → ℕ
    → DocumentPreview
    → Result HostedError (Unit {0})
confirmable world scope expected c q now p = do
  raise_if (not (preview_in_scope scope p)) preview_not_found
  raise_if (not (expected == p.state_version)) preview_state_stale
  raise_if (not (preview_in (prepared ∷ awaiting_confirmation ∷ []) p.state)) preview_state_invalid
  raise_if (leb p.expires_at now) preview_expired
  validate_authority world.registry p c q now

-- The `except` of `transition_preview` and of `create_operation`.
abbrev pub preview_code : HostedError → PreviewError → HostedError
preview_code other PreviewError.preview_expired = preview_expired
preview_code other _ = other

abbrev pub recoded : {A : Type 0} → HostedError → Result PreviewError A → Result HostedError A
recoded other (ok a) = ok a
recoded other (err e) = err (preview_code other e)

-- `transition_preview` up to its assignment.
unfoldable pub next_preview :
    Scope → ℕ → ℕ → PreviewState → ℕ → HostedStore → Result HostedError DocumentPreview
next_preview scope id expected target occurred_at s = do
  preview ← get_preview scope id s
  raise_if (not (preview.state_version == expected)) preview_state_stale
  raise_if (same_preview_state target confirmed) preview_state_invalid
  recoded preview_state_invalid (move_preview preview target occurred_at none)

-- `transition_preview`
unfoldable pub transition_preview :
    Scope → ℕ → ℕ → PreviewState → ℕ → HostedStore → Reply DocumentPreview
transition_preview scope id expected target occurred_at s =
    elim (next_preview scope id expected target occurred_at s) [
      | err e ↦ (err e, s)
      | ok moved ↦ (returned_preview moved, record s { previews = put id moved s.previews })
    ]

-- The loop of `_load_confirmable` over the items, with what it does to one as an argument.
unfoldable pub open_items :
    {A : Type 0}
    → (StoredPreviewItem → Result HostedError A)
    → List StoredPreviewItem
    → Result HostedError (List A)
open_items opening [] = ok []
open_items opening (i ∷ is) = do
  opened ← opening i
  rest ← open_items opening is
  ok (opened ∷ rest)

-- `load_confirmable`; `opening` opens the payload of an item and compares it with the item.
unfoldable pub load_confirmable :
    {A : Type 0}
    → World
    → (DocumentPreview → StoredPreviewItem → Result HostedError A)
    → Scope
    → ℕ
    → ℕ
    → Connection
    → Qualification
    → ℕ
    → HostedStore
    → Result HostedError (DocumentPreview × List A)
load_confirmable world opening scope id expected c q now s = do
  preview ← get_preview scope id s
  confirmable world scope expected c q now preview
  opened ← open_items (opening preview) preview.items
  ok (preview, opened)

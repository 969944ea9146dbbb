-- ===== src/Hosted/Store/State.antt =====
-- The state of `InMemoryHostedPreviewStore` in execution/hosted/store.py, and what its methods share.
use mercury_tools.Prelude.{
  ℕ, String, str_eq, Bool, false, not, ◌&&◌, ◌||◌, Option, none, some, List, [], ◌∷◌, ◌==◌,
  if◌then◌else◌, Result, ok, err, ◌>>◌, raise_if,
}
use mercury_tools.Hosted.Operations.{Checks, HostedOperation, operation_valid}
use mercury_tools.Hosted.Previews.{StoredPreviewItem, DocumentPreview, preview_valid}
use mercury_tools.Hosted.Store.Authority.{HostedError, validation_error, Registry, Resolver}

-- `(workspace_id, connection_id, provider_call_hash)`
pub record CallKey : Type 0 where
  pub workspace_id : ℕ
  pub connection_id : ℕ
  pub provider_call_hash : String

abbrev pub same_key : CallKey → CallKey → Bool
same_key a b =
    a.workspace_id == b.workspace_id
    && a.connection_id == b.connection_id
    && str_eq a.provider_call_hash b.provider_call_hash

-- The dictionaries of the store, as what they hold under a key.
pub record HostedStore : Type 0 where
  pub previews : ℕ → Option DocumentPreview
  pub preview_provider_calls : CallKey → Option ℕ
  pub item_provider_calls : CallKey → Bool
  pub operations : ℕ → Option HostedOperation
  pub operation_by_preview : ℕ → Option ℕ

abbrev pub empty_store : HostedStore
empty_store = record {
  previews = λ (id : ℕ). none;
  preview_provider_calls = λ (key : CallKey). none;
  item_provider_calls = λ (key : CallKey). false;
  operations = λ (id : ℕ). none;
  operation_by_preview = λ (id : ℕ). none;
}

-- `d[id] = a`
unfoldable pub put : {A : Type 0} → ℕ → A → (ℕ → Option A) → ℕ → Option A
put id a d k = if k == id then some a else d k

unfoldable pub put_call : CallKey → ℕ → (CallKey → Option ℕ) → CallKey → Option ℕ
put_call key id d k = if same_key k key then some id else d k

-- What a call reads outside the store: the registry, the authority resolver of the store, if any, and
-- two readings of its clock, for the authority and for the expiry.
pub record World : Type 0 where
  pub registry : Registry
  pub authority_resolver : Option Resolver
  pub authority_now : ℕ
  pub now : ℕ

-- The tenant, user and workspace of the caller.
pub record Scope : Type 0 where
  pub tenant_id : ℕ
  pub auth_user_id : ℕ
  pub workspace_id : ℕ

-- `_check_scope`, as a test.
abbrev pub preview_in_scope : Scope → DocumentPreview → Bool
preview_in_scope scope p =
    p.tenant_id == scope.tenant_id
    && p.auth_user_id == scope.auth_user_id
    && p.workspace_id == scope.workspace_id

abbrev pub operation_in_scope : Scope → HostedOperation → Bool
operation_in_scope scope op =
    op.tenant_id == scope.tenant_id
    && op.auth_user_id == scope.auth_user_id
    && op.workspace_id == scope.workspace_id

abbrev pub some_or : {A : Type 0} → Option A → HostedError → Result HostedError A
some_or none e = err e
some_or (some a) e = ok a

-- `DocumentPreview.model_validate(…)` of what a method returns.
unfoldable pub returned_preview : DocumentPreview → Result HostedError DocumentPreview
returned_preview p = raise_if (not (preview_valid p)) validation_error >> ok p

unfoldable pub returned_operation : Checks → HostedOperation → Result HostedError HostedOperation
returned_operation checks op = raise_if (not (operation_valid checks op)) validation_error >> ok op

abbrev pub call_key : DocumentPreview → CallKey
call_key p = record {
  workspace_id = p.workspace_id;
  connection_id = p.connection_id;
  provider_call_hash = p.provider_call_hash;
}

abbrev pub item_key : DocumentPreview → StoredPreviewItem → CallKey
item_key p i = record {
  workspace_id = p.workspace_id;
  connection_id = p.connection_id;
  provider_call_hash = i.provider_call_hash;
}

-- `key in item_keys`
unfoldable pub has_item_key : DocumentPreview → List StoredPreviewItem → CallKey → Bool
has_item_key p [] k = false
has_item_key p (i ∷ is) k = same_key k (item_key p i) || has_item_key p is k

-- What a method returns or raises, and the store after it.
abbrev pub Reply : Type 0 → Type 0
Reply A = Result HostedError A × HostedStore

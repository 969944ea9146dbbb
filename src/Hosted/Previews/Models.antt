-- ===== src/Hosted/Previews/Models.antt =====
-- The records of a preview in execution/hosted/models.py, their validators and `transition`. The
-- content of the document (amounts, dates, texts, the sealed payload) and the tests of it, of hashes and
-- of patterns are left out: no transition changes what they read, and a preview that is given is taken to
-- have passed them.
use mercury_tools.Prelude.{
  ℕ, suc, ◌+◌, ◌*◌, String, str_eq, Bool, true, false, not, ◌&&◌, ◌||◌, Option, none, some, List,
  [], ◌∷◌, length, all, is_empty, ltb, leb, ◌==◌, Result, ok, err, ◌>>=◌, ◌>>◌, raise_if,
}
use mercury_tools.Hosted.Operations.{
  max_batch_documents, confirmed_payload_retention, is_nil, distinct,
}

pub data PreviewState : Type 0 where
  prepared awaiting_confirmation confirmed expired cancelled : PreviewState

-- `ConnectionReadiness` of providers/models.py.
pub data ConnectionReadiness : Type 0 where
  requires_validation ready validation_failed requires_reauthorization : ConnectionReadiness
  disconnected : ConnectionReadiness

-- `is` between two members.
abbrev pub same_preview_state : PreviewState → PreviewState → Bool
same_preview_state prepared prepared = true
same_preview_state awaiting_confirmation awaiting_confirmation = true
same_preview_state confirmed confirmed = true
same_preview_state expired expired = true
same_preview_state cancelled cancelled = true
same_preview_state _ _ = false

abbrev pub same_readiness : ConnectionReadiness → ConnectionReadiness → Bool
same_readiness requires_validation requires_validation = true
same_readiness ready ready = true
same_readiness validation_failed validation_failed = true
same_readiness requires_reauthorization requires_reauthorization = true
same_readiness disconnected disconnected = true
same_readiness _ _ = false

-- `member in {…}`
abbrev pub preview_in : List PreviewState → PreviewState → Bool
preview_in [] s = false
preview_in (x ∷ xs) s = same_preview_state s x || preview_in xs s

-- `_PREVIEW_TRANSITIONS`
abbrev pub preview_transitions : PreviewState → List PreviewState
preview_transitions prepared = awaiting_confirmation ∷ expired ∷ cancelled ∷ []
preview_transitions awaiting_confirmation = confirmed ∷ expired ∷ cancelled ∷ []
preview_transitions confirmed = []
preview_transitions expired = []
preview_transitions cancelled = []

-- `timedelta(seconds=PREVIEW_TTL_SECONDS)`, half an hour.
abbrev pub preview_ttl : ℕ
preview_ttl = 1800 * 1000000

-- `UNCONFIRMED_PAYLOAD_RETENTION`, 24 hours.
abbrev pub unconfirmed_payload_retention : ℕ
unconfirmed_payload_retention = 86400000000

pub record StoredPreviewItem : Type 0 where
  pub preview_item_id : ℕ
  pub preview_id : ℕ
  pub tenant_id : ℕ
  pub auth_user_id : ℕ
  pub workspace_id : ℕ
  pub connection_id : ℕ
  pub item_index : ℕ
  pub client_item_id : String
  pub provider_call_hash : String
  pub preview_integrity_hash : String
  pub created_at : ℕ
  pub payload_purge_after : ℕ

pub record DocumentPreview : Type 0 where
  pub preview_id : ℕ
  pub tenant_id : ℕ
  pub auth_user_id : ℕ
  pub workspace_id : ℕ
  pub connection_id : ℕ
  pub provider : String
  pub provider_account_sha256 : String
  pub environment : String
  pub qualification_id : ℕ
  pub provider_tool_name : String
  pub capability_id : String
  pub capability_version : String
  pub schema_hash : String
  pub response_shape_hash : String
  pub evidence_revision_sha256 : String
  pub projector_id : String
  pub projector_version : String
  pub connection_revision : ℕ
  pub connection_readiness : ConnectionReadiness
  pub provider_call_hash : String
  pub preview_integrity_hash : String
  pub state : PreviewState
  pub state_version : ℕ
  pub items : List StoredPreviewItem
  pub supersedes_preview_id : Option ℕ
  pub created_at : ℕ
  pub expires_at : ℕ
  pub payload_purge_after : ℕ
  pub confirmed_at : Option ℕ
  pub cancelled_at : Option ℕ

-- `StoredPreviewItem.validate_item`, without the envelope and the dates of the document.
unfoldable pub preview_item_valid : StoredPreviewItem → Bool
preview_item_valid i =
    not (is_nil i.preview_item_id)
    && not (is_nil i.preview_id)
    && not (is_nil i.tenant_id)
    && not (is_nil i.auth_user_id)
    && not (is_nil i.workspace_id)
    && not (is_nil i.connection_id)
    && ltb i.item_index max_batch_documents
    && leb (i.created_at + preview_ttl + unconfirmed_payload_retention) i.payload_purge_after
    && leb i.payload_purge_after (i.created_at + preview_ttl + confirmed_payload_retention)

-- The state versions of `validate_preview`.
abbrev pub version_fits : PreviewState → ℕ → Bool
version_fits prepared v = v == 1
version_fits awaiting_confirmation v = v == 1 || v == 2
version_fits _ v = v == 2 || v == 3

-- The times of `validate_preview`: when the preview was confirmed or cancelled, and the purge.
abbrev pub times_fit : PreviewState → Option ℕ → Option ℕ → ℕ → ℕ → Bool
times_fit confirmed (some at) none purge unconfirmed_purge =
    leb unconfirmed_purge purge && leb purge (at + confirmed_payload_retention)
times_fit cancelled none (some at) purge unconfirmed_purge = purge == unconfirmed_purge
times_fit prepared none none purge unconfirmed_purge = purge == unconfirmed_purge
times_fit awaiting_confirmation none none purge unconfirmed_purge = purge == unconfirmed_purge
times_fit expired none none purge unconfirmed_purge = purge == unconfirmed_purge
times_fit _ _ _ _ _ = false

-- `len(texts) == len(set(texts))`
abbrev pub text_in : String → List String → Bool
text_in x [] = false
text_in x (y ∷ ys) = str_eq x y || text_in x ys

abbrev pub distinct_texts : List String → Bool
distinct_texts [] = true
distinct_texts (x ∷ xs) = not (text_in x xs) && distinct_texts xs

abbrev pub each : {A : Type 0} → (StoredPreviewItem → A) → List StoredPreviewItem → List A
each f [] = []
each f (i ∷ is) = f i ∷ each f is

abbrev pub preview_indexed_from : ℕ → List StoredPreviewItem → Bool
preview_indexed_from n [] = true
preview_indexed_from n (i ∷ is) = i.item_index == n && preview_indexed_from (suc n) is

-- The tests of `validate_preview` on one item.
abbrev pub item_bound : DocumentPreview → StoredPreviewItem → Bool
item_bound p i =
    i.preview_id == p.preview_id
    && i.tenant_id == p.tenant_id
    && i.auth_user_id == p.auth_user_id
    && i.workspace_id == p.workspace_id
    && i.connection_id == p.connection_id
    && i.created_at == p.created_at
    && i.payload_purge_after == p.payload_purge_after

abbrev pub is_set : Option ℕ → Bool
is_set none = true
is_set (some id) = not (is_nil id)

-- What `validate_preview` asks of the fields that no transition changes.
unfoldable pub preview_fixed : DocumentPreview → Bool
preview_fixed p =
    not (is_nil p.preview_id)
    && not (is_nil p.tenant_id)
    && not (is_nil p.auth_user_id)
    && not (is_nil p.workspace_id)
    && not (is_nil p.connection_id)
    && not (is_nil p.qualification_id)
    && is_set p.supersedes_preview_id
    && leb 1 p.connection_revision
    && p.expires_at == p.created_at + preview_ttl
    && same_readiness p.connection_readiness ready

-- What it asks of the items.
unfoldable pub preview_items_valid : DocumentPreview → Bool
preview_items_valid p =
    not (is_empty p.items)
    && leb (length p.items) max_batch_documents
    && all preview_item_valid p.items
    && distinct_texts (each (λ i. i.client_item_id) p.items)
    && distinct (each (λ i. i.preview_item_id) p.items)
    && distinct_texts (each (λ i. i.provider_call_hash) p.items)
    && distinct_texts (each (λ i. i.preview_integrity_hash) p.items)
    && preview_indexed_from 0 p.items
    && all (item_bound p) p.items

-- `DocumentPreview.validate_preview`
unfoldable pub preview_valid : DocumentPreview → Bool
preview_valid p =
    preview_fixed p
    && version_fits p.state p.state_version
    && times_fit p.state p.confirmed_at p.cancelled_at p.payload_purge_after
        (p.expires_at + unconfirmed_payload_retention)
    && preview_items_valid p

pub data PreviewError : Type 0 where
  preview_state_invalid preview_timestamp_invalid preview_expired preview_rejected : PreviewError

unfoldable pub checked_preview : DocumentPreview → Result PreviewError DocumentPreview
checked_preview p = raise_if (not (preview_valid p)) preview_rejected >> ok p

abbrev pub with_purge : ℕ → StoredPreviewItem → StoredPreviewItem
with_purge purge i = record i { payload_purge_after = purge }

abbrev pub when : Bool → ℕ → Option ℕ
when true at = some at
when false at = none

-- The purge after a transition: only a confirmation may be given one.
abbrev pub purge_after : PreviewState → Option ℕ → ℕ → Result PreviewError ℕ
purge_after target none old = ok old
purge_after confirmed (some given) old = ok given
purge_after target (some given) old = err preview_state_invalid

-- The copy with its new state.
abbrev pub with_preview_state : DocumentPreview → PreviewState → ℕ → ℕ → DocumentPreview
with_preview_state self target occurred_at purge = record self {
  state = target;
  state_version = self.state_version + 1;
  confirmed_at = when (same_preview_state target confirmed) occurred_at;
  cancelled_at = when (same_preview_state target cancelled) occurred_at;
  payload_purge_after = purge;
  items = each (with_purge purge) self.items;
}

-- `DocumentPreview.transition`
unfoldable pub move_preview :
    DocumentPreview → PreviewState → ℕ → Option ℕ → Result PreviewError DocumentPreview
move_preview self target occurred_at confirmed_payload_purge_after = do
  raise_if (not (preview_in (preview_transitions self.state) target)) preview_state_invalid
  raise_if (ltb occurred_at self.created_at) preview_timestamp_invalid
  raise_if (same_preview_state target confirmed && leb self.expires_at occurred_at) preview_expired
  raise_if (same_preview_state target expired && ltb occurred_at self.expires_at)
      preview_state_invalid
  purge ← purge_after target confirmed_payload_purge_after self.payload_purge_after
  checked_preview (with_preview_state self target occurred_at purge)

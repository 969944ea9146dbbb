-- ===== src/Hosted/Store/Authority.antt =====
-- The errors of execution/hosted/store.py, and its tests of the connection and the qualification that
-- a preview was made with.
use mercury_tools.Prelude.{
  ℕ, String, str_eq, Bool, true, false, not, ◌&&◌, Option, none, some, List, all, any, ltb, leb,
  ◌==◌, Result, ◌>>◌, raise_if,
}
use mercury_tools.Hosted.Previews.{DocumentPreview, ConnectionReadiness, ready, same_readiness}

-- The codes of `HostedPreviewError`; the last two are a `KeyError` and a `ValidationError`.
pub data HostedError : Type 0 where
  preview_conflict duplicate_provider_call preview_not_found preview_state_stale : HostedError
  preview_state_invalid preview_expired preview_binding_changed : HostedError
  capability_unavailable preview_payload_changed operation_conflict : HostedError
  operation_not_found operation_state_stale operation_transition_invalid : HostedError
  key_error validation_error : HostedError

-- The fields of `ProviderConnection` that the store reads.
pub record Connection : Type 0 where
  pub id : ℕ
  pub tenant_id : ℕ
  pub auth_user_id : ℕ
  pub workspace_id : ℕ
  pub provider : String
  pub environment : String
  pub revision : ℕ
  pub readiness : ConnectionReadiness
  pub provider_account_id : String
  pub granted_permissions : List String

-- `QualificationState` of catalog/models.py.
pub data QualificationState : Type 0 where
  discovered_unreviewed schema_validated nonproduction_qualified enabled : QualificationState
  disabled superseded : QualificationState

-- The fields of `ProviderMCPQualification` that the store reads.
pub record Qualification : Type 0 where
  pub id : Option ℕ
  pub provider : String
  pub environment : String
  pub provider_tool_name : String
  pub normalized_capability : String
  pub capability_version_sha256 : String
  pub schema_hash : String
  pub response_shape_hash : String
  pub evidence_revision_sha256 : Option String
  pub company_sha256 : Option String
  pub qualification_state : QualificationState
  pub evidence_evaluated_at : Option ℕ
  pub evidence_expires_at : Option ℕ
  pub required_permissions : List String

pub record Projector : Type 0 where
  pub projector_id : String
  pub projector_version : String

-- What the store is built on: SHA-256 of a text in hexadecimal digits,
-- `DocumentProjectorRegistry.resolve`, and whether the two records pass their own validation.
pub record Registry : Type 0 where
  pub sha256 : String → String
  pub resolve : Qualification → Option Projector
  pub validated : Connection → Qualification → Bool

abbrev pub is_enabled : QualificationState → Bool
is_enabled enabled = true
is_enabled _ = false

abbrev pub same_number : Option ℕ → ℕ → Bool
same_number none b = false
same_number (some a) b = a == b

abbrev pub same_text_option : Option String → String → Bool
same_text_option none b = false
same_text_option (some a) b = str_eq a b

-- `_connection_matches`, with `_provider_account_sha256`.
unfoldable pub connection_matches : Registry → DocumentPreview → Connection → Bool
connection_matches registry p c =
    c.id == p.connection_id
    && c.tenant_id == p.tenant_id
    && c.auth_user_id == p.auth_user_id
    && c.workspace_id == p.workspace_id
    && str_eq c.provider p.provider
    && str_eq c.environment p.environment
    && c.revision == p.connection_revision
    && same_readiness c.readiness ready
    && same_readiness c.readiness p.connection_readiness
    && str_eq (registry.sha256 c.provider_account_id) p.provider_account_sha256

-- `_qualification_identity_matches`
unfoldable pub qualification_identity_matches : DocumentPreview → Qualification → Bool
qualification_identity_matches p q =
    same_number q.id p.qualification_id
    && str_eq q.provider p.provider
    && str_eq q.environment p.environment
    && str_eq q.provider_tool_name p.provider_tool_name
    && str_eq q.normalized_capability p.capability_id
    && str_eq q.capability_version_sha256 p.capability_version
    && str_eq q.schema_hash p.schema_hash
    && str_eq q.response_shape_hash p.response_shape_hash
    && same_text_option q.evidence_revision_sha256 p.evidence_revision_sha256
    && same_text_option q.company_sha256 p.provider_account_sha256

abbrev pub evaluated_by : ℕ → Option ℕ → Bool
evaluated_by now none = false
evaluated_by now (some at) = leb at now

abbrev pub expires_later : ℕ → Option ℕ → Bool
expires_later now none = false
expires_later now (some at) = ltb now at

abbrev pub contains_text : List String → String → Bool
contains_text xs x = any (str_eq x) xs

-- `_qualification_is_current`
unfoldable pub qualification_is_current : Qualification → Connection → ℕ → Bool
qualification_is_current q c now =
    is_enabled q.qualification_state
    && evaluated_by now q.evidence_evaluated_at
    && expires_later now q.evidence_expires_at
    && all (contains_text c.granted_permissions) q.required_permissions

-- `projector is None or …`
abbrev pub projector_fits : DocumentPreview → Option Projector → Bool
projector_fits p none = false
projector_fits p (some projector) =
    str_eq projector.projector_id p.projector_id
    && str_eq projector.projector_version p.projector_version

-- `_validate_authority`
unfoldable pub validate_authority :
    Registry → DocumentPreview → Connection → Qualification → ℕ → Result HostedError (Unit {0})
validate_authority registry p c q now = do
  raise_if (not (registry.validated c q)) preview_binding_changed
  raise_if (not (connection_matches registry p c)) preview_binding_changed
  raise_if (not (qualification_identity_matches p q)) preview_binding_changed
  raise_if (not (qualification_is_current q c now)) capability_unavailable
  raise_if (not (projector_fits p (registry.resolve q))) capability_unavailable

-- How an authority resolver fails: with a `HostedPreviewError`, or with another exception.
pub data ResolverError : Type 0 where
  hosted : HostedError → ResolverError
  other_exception : ResolverError

abbrev pub Resolver : Type 0
Resolver = DocumentPreview → Result ResolverError (Connection × Qualification)

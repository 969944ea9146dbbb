-- ===== src/Execution/Requests/Models.antt =====
-- src/mercury_tools/execution/models.py: the states of a prepared request, and the part of its
-- validation that an update of a stored request can break.
use mercury_tools.Prelude.{
  codes, ℕ, String, Bool, true, false, ◌&&◌, ◌||◌, Option, none, some, List, [], ◌∷◌, all, length,
  leb, ◌==◌,
}
use mercury_tools.Execution.Policy.{HttpMethod, RiskTier, ApprovalLevel, MutationClass}

pub data RequestState : Type 0 where
  previewed awaiting_confirmation ready_to_execute executing succeeded : RequestState
  failed outcome_unknown : RequestState

-- `PreparedRequest`. The inputs and the response summary are their canonical JSON; an empty summary
-- is `none`. Times are microseconds.
pub record PreparedRequest : Type 0 where
  pub request_id : String
  pub repository_id : String
  pub connector_id : String
  pub environment : String
  pub action_id : String
  pub version_id : String
  pub method : HttpMethod
  pub path_template : String
  pub final_path : String
  pub request_inputs : String
  pub payload_hash : String
  pub risk_tier : RiskTier
  pub approval_level : ApprovalLevel
  pub mutation_class : MutationClass
  pub credential_revision : String
  pub preflight_actions : List (String × String)
  pub approval_count : ℕ
  pub state : RequestState
  pub failure_reason : Option String
  pub response_summary : Option String
  pub created_at : ℕ
  pub expires_at : ℕ

abbrev is_small : ℕ → Bool
is_small c = leb b'a' c && leb c b'z'

abbrev is_capital : ℕ → Bool
is_capital c = leb b'A' c && leb c b'Z'

abbrev is_digit : ℕ → Bool
is_digit c = leb b'0' c && leb c b'9'

reason_codes : List ℕ → Bool
reason_codes [] = false
reason_codes (c ∷ s) =
    is_small c && all (λ d. is_small d || is_digit d || d == b'_') s && leb (length s) 63

-- `_is_reason`, and `_REASON` of execution/store.py.
unfoldable pub is_reason : String → Bool
unfolding reason_codes
is_reason value = reason_codes (codes value)

identifier_codes : List ℕ → Bool
identifier_codes [] = false
identifier_codes (c ∷ s) =
    (is_small c || is_capital c)
    && all (λ d. is_small d || is_capital d || is_digit d || d == b'_' || d == b'-') s
    && leb (length s) 127

-- `_IDENTIFIER.fullmatch`
unfoldable pub is_identifier : String → Bool
unfolding identifier_codes
is_identifier value = identifier_codes (codes value)

-- `_payload_hash` of execution/store.py.
unfoldable pub is_payload_hash : String → Bool
is_payload_hash value =
    all (λ c. is_digit c || leb b'a' c && leb c b'f') (codes value) && length (codes value) == 64

abbrev pub is_none {ℓ} : {A : Type ℓ} → Option A → Bool
is_none none = true
is_none (some a) = false

-- `_validate_state_fields`.
unfoldable pub state_fields_valid : RequestState → ℕ → Option String → Bool
state_fields_valid previewed count reason = count == 0 && is_none reason
state_fields_valid awaiting_confirmation count reason = count == 0 && is_none reason
state_fields_valid ready_to_execute count reason = count == 1 && is_none reason
state_fields_valid executing count reason = count == 1 && is_none reason
state_fields_valid _ count reason = count == 0 || count == 1

unfoldable pub reason_valid : Option String → Bool
unfolding is_reason
reason_valid none = true
reason_valid (some reason) = is_reason reason

-- The tests of `validate_preview` on the fields that an update sets; the others never change.
unfoldable pub fields_valid : PreparedRequest → Bool
unfolding state_fields_valid
fields_valid request =
    (request.approval_count == 0 || request.approval_count == 1)
    && reason_valid request.failure_reason
    && state_fields_valid request.state request.approval_count request.failure_reason

-- ===== src/Execution/Requests/Preview.antt =====
-- `LocalRequestStore.create_preview` of execution/store.py: a preview is bound to its catalog action
-- and enters the table.
use mercury_tools.Prelude.{
  String, str_eq, Bool, true, false, not, ◌&&◌, Option, none, some, List, [], ◌∷◌, any, all,
  if◌then◌else◌, Result, ok, err, ◌==◌,
}
use mercury_tools.Execution.Policy
use mercury_tools.Execution.Policy.{
  HttpMethod, RiskTier, tier_value, ApprovalLevel, MutationClass, same_class, RiskDecision,
  effective_risk,
}
use mercury_tools.Execution.Requests.Models.{
  RequestState, previewed, awaiting_confirmation, PreparedRequest, is_none, fields_valid,
}
use mercury_tools.Execution.Requests.Table.{insert_row}
use mercury_tools.Execution.Requests.Transaction.{
  RequestError, invalid_prepared_request, invalid_catalog_action, catalog_binding_mismatch,
  catalog_risk_mismatch, repository_mismatch, invalid_initial_request_state, request_already_exists,
  read_action, Tx, pure, lift, ◌>>=◌, ◌>>◌, raise_if, written,
}
use mercury_tools.Execution.Requests.Store.{Runtime, updated, assert_replay_allowed}

-- The fields of `CatalogAction` that bind a preview; `action` has those of the policy.
pub record CatalogAction : Type 0 where
  pub action : Policy.Action
  pub action_id : String
  pub version_id : String
  pub connector_id : String
  pub path_template : String
  pub environments : List String
  pub preflight_action_ids : List String

-- `render_action_path` and the repository of the store.
pub record Binding : Type 0 where
  pub repository_id : String
  pub render_action_path : String → String → Option String

abbrev same_method : HttpMethod → HttpMethod → Bool
same_method Policy.get Policy.get = true
same_method Policy.post Policy.post = true
same_method Policy.put Policy.put = true
same_method Policy.patch Policy.patch = true
same_method Policy.delete Policy.delete = true
same_method _ _ = false

abbrev same_level : ApprovalLevel → ApprovalLevel → Bool
same_level Policy.standard Policy.standard = true
same_level Policy.elevated Policy.elevated = true
same_level _ _ = false

abbrev same_ids : List (String × String) → List String → Bool
same_ids [] [] = true
same_ids ((connector, action) ∷ items) (id ∷ ids) = str_eq action id && same_ids items ids
same_ids _ _ = false

abbrev path_or_raise : Option String → Result RequestError String
path_or_raise (some path) = ok path
path_or_raise none = err invalid_catalog_action

abbrev risk_or_raise : Result Policy.PolicyError RiskDecision → Result RequestError RiskDecision
risk_or_raise (ok risk) = ok risk
risk_or_raise (err e) = err read_action

-- The texts and the method of the request are those of the action.
unfoldable pub binding_matches : PreparedRequest → CatalogAction → String → Bool
binding_matches request catalog rendered_path =
    any (λ environment. str_eq environment request.environment) catalog.environments
    && str_eq request.action_id catalog.action_id
    && str_eq request.version_id catalog.version_id
    && str_eq request.connector_id catalog.connector_id
    && same_method request.method catalog.action.method
    && str_eq request.path_template catalog.path_template
    && str_eq request.final_path rendered_path

-- The preflight actions of the request are those of the action, on its connector.
unfoldable pub preflight_matches : PreparedRequest → CatalogAction → Bool
preflight_matches request catalog =
    same_ids request.preflight_actions catalog.preflight_action_ids
    && all (λ item. str_eq item.0 catalog.connector_id) request.preflight_actions

unfoldable pub risk_matches : PreparedRequest → RiskDecision → Bool
risk_matches request risk =
    tier_value request.risk_tier == tier_value risk.tier
    && same_level request.approval_level risk.approval_level
    && same_class request.mutation_class risk.mutation_class

unfoldable pub verify_catalog_binding : Binding → PreparedRequest → CatalogAction → Tx (Unit {0})
verify_catalog_binding binding request catalog = do
  rendered_path ←
      lift (path_or_raise (binding.render_action_path catalog.path_template request.request_inputs))
  raise_if (not (binding_matches request catalog rendered_path)) catalog_binding_mismatch
  raise_if (not (preflight_matches request catalog)) catalog_binding_mismatch
  risk ← lift (risk_or_raise (effective_risk catalog.action))
  raise_if (not (risk_matches request risk)) catalog_risk_mismatch

abbrev is_previewed : RequestState → Bool
is_previewed previewed = true
is_previewed _ = false

unfoldable pub is_initial : PreparedRequest → Bool
is_initial request =
    is_previewed request.state
    && request.approval_count == 0
    && is_none request.failure_reason
    && is_none request.response_summary

-- `_validated_request`
unfoldable pub validated_request : Runtime → PreparedRequest → Result RequestError PreparedRequest
validated_request env prepared =
    if fields_valid prepared
    then ok (record prepared { response_summary = env.sanitize prepared.response_summary })
    else err invalid_prepared_request

unfoldable pub insert_preview : PreparedRequest → Tx (Unit {0})
insert_preview request rows = written (insert_row request rows) request_already_exists

unfoldable pub create_preview :
    Runtime → Binding → PreparedRequest → CatalogAction → Tx PreparedRequest
create_preview env binding prepared catalog = do
  request ← lift (validated_request env prepared)
  verify_catalog_binding binding request catalog
  raise_if (not (str_eq request.repository_id binding.repository_id)) repository_mismatch
  raise_if (not (is_initial request)) invalid_initial_request_state
  assert_replay_allowed request.payload_hash none
  awaiting ← lift (updated env (record request { state = awaiting_confirmation }))
  insert_preview awaiting
  pure awaiting

-- ===== src/Execution/Requests/Tests.antt =====
-- Previews and calls at concrete inputs, and the theorems at them.
use mercury_tools.Prelude.{
  false, ℕ, String, true, none, some, List, [], ◌∷◌, ok, err, ◌≡◌, ◌≢◌, refl, str_eq_iff, arith,
}
use mercury_tools.Execution.Policy
use mercury_tools.Execution.Requests.Models.{
  previewed, awaiting_confirmation, ready_to_execute, executing, succeeded, failed, PreparedRequest,
  fields_valid, state_fields_valid, reason_valid, is_reason, is_payload_hash,
}
use mercury_tools.Execution.Requests.Table.{Rows, find_row, insert_row, replace_row, update_row}
use mercury_tools.Execution.Requests.Transaction.{RequestError, transaction}
use mercury_tools.Execution.Requests.Pending
use mercury_tools.Execution.Requests.Methods.Cleared.{invalidate_pending-clears}
use mercury_tools.Execution.Requests.Table.{is_pending}
use mercury_tools.Execution.Requests.Store
use mercury_tools.Execution.Requests.Store.{Runtime}
use mercury_tools.Execution.Requests.Preview
use mercury_tools.Execution.Requests.Preview.{CatalogAction, Binding}
use mercury_tools.Execution.Requests.Changes.{frozen}
use mercury_tools.Execution.Requests.Sound.{Holds, IsSound}
use mercury_tools.Execution.Requests.Calls.{Call, apply_call, serve}
use mercury_tools.Execution.Requests.Calls.Safety.{serve-IsSound, Kept, serve-Kept, serve-final}
use mercury_tools.Execution.Requests.Calls.Confirmation.{Approved, serve-confirmed}
use mercury_tools.Execution.Requests.Calls.Replay.{start_execution-blocked}
use mercury_tools.Execution.Requests.Calls.Creation.{IsOf, HasRisk, create_preview-binding}
use mercury_tools.Execution.Requests.Calls.Progress.{approved, started, approve-start_execution}

abbrev hash : String
hash = "0123456789abcdef0123456789abcdef0123456789abcdef0123456789abcdef"

abbrev preview : PreparedRequest
preview = record {
  request_id = "a";
  repository_id = "repo";
  connector_id = "erp";
  environment = "sandbox";
  action_id = "post-journal";
  version_id = "v1";
  method = Policy.post;
  path_template = "/journals";
  final_path = "/journals";
  request_inputs = "{}";
  payload_hash = hash;
  risk_tier = Policy.standard_write;
  approval_level = Policy.standard;
  mutation_class = Policy.create;
  credential_revision = "r1";
  preflight_actions = [];
  approval_count = 0;
  state = previewed;
  failure_reason = none;
  response_summary = none;
  created_at = 0;
  expires_at = 100;
}

abbrev at : ℕ → Runtime
at now = record { now = now; sanitize = λ summary. summary }

abbrev binding : Binding
binding = record { repository_id = "repo"; render_action_path = λ template inputs. some template }

abbrev catalog : CatalogAction
catalog = record {
  action = record {
    method = Policy.post;
    risk_tier = Policy.standard_write;
    side_effects = [];
    confidence = Policy.exact;
    observed_state = Policy.success;
  };
  action_id = "post-journal";
  version_id = "v1";
  connector_id = "erp";
  path_template = "/journals";
  environments = "sandbox" ∷ [];
  preflight_action_ids = [];
}

abbrev calls : List Call
calls =
    Call.create_preview (at 1) preview catalog
    ∷ Call.approve (at 2) "a" hash Policy.create
    ∷ Call.start_execution (at 3) "a"
    ∷ []

abbrev awaiting : PreparedRequest
awaiting = record preview { state = awaiting_confirmation }

abbrev running : PreparedRequest
running = record preview { state = executing; approval_count = 1 }

created : Preview.create_preview (at 1) binding preview catalog [] ≡ ok (awaiting, awaiting ∷ [])
unfolding Preview.create_preview Preview.validated_request Preview.verify_catalog_binding
    Preview.binding_matches Preview.preflight_matches Preview.risk_matches Preview.is_initial
    Preview.insert_preview Policy.effective_risk Policy.decide_risk Policy.runtime_risk
    Policy.initial_class Policy.has_sensitive_effect Store.assert_replay_allowed
    Store.blocking_state Store.updated fields_valid state_fields_valid reason_valid is_payload_hash
    insert_row
created = refl

create_preview-binding_example :
    (path : String) × (risk : Policy.RiskDecision) × (some "/journals" ≡ some path)
    × (Policy.effective_risk catalog.action ≡ ok risk)
    × IsOf catalog path awaiting
    × HasRisk risk awaiting
    × (awaiting_confirmation ≡ awaiting_confirmation)
    × (Store.blocking_state hash none [] ≡ none)
    × Holds (awaiting ∷ []) awaiting
create_preview-binding_example =
    create_preview-binding (at 1) binding preview catalog awaiting [] (awaiting ∷ []) created

serve-IsSound_example : IsSound (serve binding calls [])
serve-IsSound_example = serve-IsSound binding calls

served : serve binding calls [] ≡ running ∷ []
unfolding serve apply_call Preview.create_preview Preview.validated_request
    Preview.verify_catalog_binding Preview.binding_matches Preview.preflight_matches
    Preview.risk_matches Preview.is_initial Preview.insert_preview Policy.effective_risk
    Policy.decide_risk Policy.runtime_risk Policy.initial_class Policy.has_sensitive_effect
    Store.assert_replay_allowed Store.blocking_state Store.updated fields_valid state_fields_valid
    reason_valid is_payload_hash insert_row Store.approve Store.approval_candidate Store.fetch
    Store.expire_if_needed Store.store Store.start_execution Store.store_or_replay find_row
    update_row replace_row
served = refl

held : Holds (serve binding calls []) running
unfolding serve apply_call Preview.create_preview Preview.validated_request
    Preview.verify_catalog_binding Preview.binding_matches Preview.preflight_matches
    Preview.risk_matches Preview.is_initial Preview.insert_preview Policy.effective_risk
    Policy.decide_risk Policy.runtime_risk Policy.initial_class Policy.has_sensitive_effect
    Store.assert_replay_allowed Store.blocking_state Store.updated fields_valid state_fields_valid
    reason_valid is_payload_hash insert_row Store.approve Store.approval_candidate Store.fetch
    Store.expire_if_needed Store.store Store.start_execution Store.store_or_replay find_row
    update_row replace_row
held = refl

serve-confirmed_example : Approved running calls
serve-confirmed_example = serve-confirmed binding calls running held refl

abbrev creation : List Call
creation = Call.create_preview (at 1) preview catalog ∷ []

abbrev execution : List Call
execution = Call.approve (at 2) "a" hash Policy.create ∷ Call.start_execution (at 3) "a" ∷ []

previews_held : Holds (serve binding creation []) awaiting
unfolding find_row serve apply_call Preview.create_preview Preview.validated_request
    Preview.verify_catalog_binding Preview.binding_matches Preview.preflight_matches
    Preview.risk_matches Preview.is_initial Preview.insert_preview Policy.effective_risk
    Policy.decide_risk Policy.runtime_risk Policy.initial_class Policy.has_sensitive_effect
    Store.assert_replay_allowed Store.blocking_state Store.updated fields_valid state_fields_valid
    reason_valid is_payload_hash insert_row
previews_held = refl

serve-Kept_example : Kept awaiting (serve binding execution (serve binding creation []))
serve-Kept_example =
    serve-Kept binding execution (serve binding creation []) awaiting
      (serve-IsSound binding creation) previews_held

abbrev dropping : List Call
dropping =
    Call.create_preview (at 1) preview catalog
    ∷ Call.invalidate (at 2) "a" "credential_changed"
    ∷ []

abbrev dropped : PreparedRequest
dropped = record preview { state = failed; failure_reason = some "credential_changed" }

dropped_held : Holds (serve binding dropping []) dropped
unfolding find_row serve apply_call Store.invalidate Store.fetch Store.expire_if_needed Store.store
    is_reason update_row replace_row Preview.create_preview Preview.validated_request
    Preview.verify_catalog_binding Preview.binding_matches Preview.preflight_matches
    Preview.risk_matches Preview.is_initial Preview.insert_preview Policy.effective_risk
    Policy.decide_risk Policy.runtime_risk Policy.initial_class Policy.has_sensitive_effect
    Store.assert_replay_allowed Store.blocking_state Store.updated fields_valid state_fields_valid
    reason_valid is_payload_hash insert_row
dropped_held = refl

serve-final_example :
    (now : PreparedRequest) × Holds (serve binding execution (serve binding dropping [])) now
    × (frozen dropped ≡ frozen now)
    × (now.state ≡ failed)
serve-final_example =
    serve-final binding execution (serve binding dropping []) dropped
      (serve-IsSound binding dropping) dropped_held refl

abbrev ready : PreparedRequest
ready = record preview { state = ready_to_execute; approval_count = 1 }

abbrev paid : PreparedRequest
paid = record preview { request_id = "b"; state = succeeded; approval_count = 1 }

ready_found : find_row "a" (paid ∷ ready ∷ []) ≡ some ready
unfolding find_row
ready_found = refl

paid_held : Holds (paid ∷ ready ∷ []) paid
unfolding find_row
paid_held = refl

abbrev b : String
b = "b"

other_id : b ≢ "a"
other_id = ground (arith, str_eq_iff b "a")

start_execution-blocked_example :
    (e : RequestError) × (transaction (Store.start_execution (at 5) "a") (paid ∷ ready ∷ [])
      ≡ (err e, paid ∷ ready ∷ []))
start_execution-blocked_example =
    start_execution-blocked (at 5) "a" (paid ∷ ready ∷ []) ready paid ready_found paid_held refl
      refl other_id

hash_valid : is_payload_hash hash ≡ true
unfolding is_payload_hash
hash_valid = refl

unblocked : Store.blocking_state hash (some "a") (serve binding creation []) ≡ none
unfolding find_row serve apply_call Preview.create_preview Preview.validated_request
    Preview.verify_catalog_binding Preview.binding_matches Preview.preflight_matches
    Preview.risk_matches Preview.is_initial Preview.insert_preview Policy.effective_risk
    Policy.decide_risk Policy.runtime_risk Policy.initial_class Policy.has_sensitive_effect
    Store.assert_replay_allowed Store.blocking_state Store.updated fields_valid state_fields_valid
    reason_valid is_payload_hash insert_row
unblocked = refl

approve-start_execution_example :
    (rows1 rows2 : Rows) × (Store.approve (at 2) "a" hash Policy.create (serve binding creation [])
      ≡ ok (approved (at 2) awaiting, rows1))
    × (Store.start_execution (at 3) "a" rows1
        ≡ ok (started (at 3) (approved (at 2) awaiting), rows2))
    × Holds rows2 (started (at 3) (approved (at 2) awaiting))
approve-start_execution_example =
    approve-start_execution (at 2) (at 3) (serve binding creation []) awaiting
      (serve-IsSound binding creation) previews_held refl refl refl hash_valid unblocked

cleared :
    Pending.invalidate_pending (at 5) none none "credential_changed" (serve binding creation [])
    ≡ ok (1, dropped ∷ [])
unfolding find_row serve apply_call Preview.create_preview Preview.validated_request
    Preview.verify_catalog_binding Preview.binding_matches Preview.preflight_matches
    Preview.risk_matches Preview.is_initial Preview.insert_preview Policy.effective_risk
    Policy.decide_risk Policy.runtime_risk Policy.initial_class Policy.has_sensitive_effect
    Store.assert_replay_allowed Store.blocking_state Store.updated fields_valid state_fields_valid
    reason_valid is_payload_hash insert_row Pending.invalidate_pending Pending.expire_pending
    Pending.expire_rows Pending.drop_rows Pending.select Store.expire_if_needed Store.store
    update_row replace_row is_reason
cleared = refl

dropped_here : Holds (dropped ∷ []) dropped
unfolding find_row
dropped_here = refl

invalidate_pending-clears_example : is_pending failed ≡ false
invalidate_pending-clears_example =
    invalidate_pending-clears (at 5) none none "credential_changed" 1 (serve binding creation [])
      (dropped ∷ []) dropped (serve-IsSound binding creation) cleared dropped_here refl refl

-- ===== src/Execution/Requests/Calls/Creation.antt =====
-- `create_preview` of execution/store.py: what a new preview is bound to.
use mercury_tools.Prelude.{
  String, str_eq, str_eq_iff, true, none, some, any, ok, ◌≡◌, inl, inr, arith, Result-cases, subst,
  ap, sym, ◌∙◌,
}
use mercury_tools.Execution.Policy
use mercury_tools.Execution.Requests.Models.{awaiting_confirmation, PreparedRequest}
use mercury_tools.Execution.Requests.Table.{Rows}
use mercury_tools.Execution.Requests.Table.Laws.{find_row-insert}
use mercury_tools.Execution.Requests.Store.{Runtime, blocking_state}
use mercury_tools.Execution.Requests.Preview.{
  CatalogAction, Binding, binding_matches, risk_matches, verify_catalog_binding, validated_request,
  create_preview,
}
use mercury_tools.Execution.Requests.Sound.{Holds}
use mercury_tools.Execution.Requests.Methods.Create.{verify_catalog_binding-ok, enter-ok}

-- The preview is of this action, on this path and in one of its environments.
pub record IsOf (catalog : CatalogAction) (path : String) (r : PreparedRequest) : Type 0 where
  pub action_id : r.action_id ≡ catalog.action_id
  pub version_id : r.version_id ≡ catalog.version_id
  pub connector_id : r.connector_id ≡ catalog.connector_id
  pub method : r.method ≡ catalog.action.method
  pub path_template : r.path_template ≡ catalog.path_template
  pub final_path : r.final_path ≡ path
  pub environment :
      any (λ environment. str_eq environment r.environment) catalog.environments ≡ true

binding_matches-IsOf :
    (request : PreparedRequest) (catalog : CatalogAction) (path : String)
    → binding_matches request catalog path ≡ true
    → IsOf catalog path request
unfolding binding_matches
binding_matches-IsOf request catalog path h = record {
  action_id = ground (arith, str_eq_iff request.action_id catalog.action_id);
  version_id = ground (arith, str_eq_iff request.version_id catalog.version_id);
  connector_id = ground (arith, str_eq_iff request.connector_id catalog.connector_id);
  method = ground arith;
  path_template = ground (arith, str_eq_iff request.path_template catalog.path_template);
  final_path = ground (arith, str_eq_iff request.final_path path);
  environment = ground arith;
}

-- The preview has the risk that was decided.
pub record HasRisk (risk : Policy.RiskDecision) (r : PreparedRequest) : Type 0 where
  pub tier : r.risk_tier ≡ risk.tier
  pub approval_level : r.approval_level ≡ risk.approval_level
  pub mutation_class : r.mutation_class ≡ risk.mutation_class

risk_matches-HasRisk :
    (request : PreparedRequest) (risk : Policy.RiskDecision)
    → risk_matches request risk ≡ true
    → HasRisk risk request
unfolding risk_matches
risk_matches-HasRisk request risk h = record {
  tier = ground arith;
  approval_level = ground arith;
  mutation_class = ground arith;
}

IsOf-awaiting :
    (env : Runtime) (catalog : CatalogAction) (path : String) (request r : PreparedRequest)
    → r ≡ record request {
      state = awaiting_confirmation;
      response_summary = env.sanitize request.response_summary;
    }
    → IsOf catalog path request
    → IsOf catalog path r
IsOf-awaiting env catalog path request r e h = subst (IsOf catalog path) (sym e) (record {
  action_id = h.action_id;
  version_id = h.version_id;
  connector_id = h.connector_id;
  method = h.method;
  path_template = h.path_template;
  final_path = h.final_path;
  environment = h.environment;
})

HasRisk-awaiting :
    (env : Runtime) (risk : Policy.RiskDecision) (request r : PreparedRequest)
    → r ≡ record request {
      state = awaiting_confirmation;
      response_summary = env.sanitize request.response_summary;
    }
    → HasRisk risk request
    → HasRisk risk r
HasRisk-awaiting env risk request r e h =
    subst (HasRisk risk) (sym e) (record {
      tier = h.tier;
      approval_level = h.approval_level;
      mutation_class = h.mutation_class;
    })

-- If `create_preview` returns a preview, the table holds it awaiting confirmation; it is of the
-- catalog action, on the path that its own inputs render to; its risk is the one that `effective_risk`
-- decides for that action; and no request of the table blocked its payload.
pub create_preview-binding :
    (env : Runtime) (binding : Binding) (prepared : PreparedRequest) (catalog : CatalogAction)
    (r : PreparedRequest) (rows rows' : Rows)
    → create_preview env binding prepared catalog rows ≡ ok (r, rows')
    → (path : String) × (risk : Policy.RiskDecision) × (binding.render_action_path
          catalog.path_template r.request_inputs
        ≡ some path)
      × (Policy.effective_risk catalog.action ≡ ok risk)
      × IsOf catalog path r
      × HasRisk risk r
      × (r.state ≡ awaiting_confirmation)
      × (blocking_state r.payload_hash none rows ≡ none)
      × Holds rows' r
unfolding create_preview
create_preview-binding env binding prepared catalog r rows rows' h =
    elim (Result-cases (validated_request env prepared)) [
      | inr (e, p) ↦ absurd (ground arith)
      | inl (request, p) ↦
          elim (Result-cases (verify_catalog_binding binding request catalog rows)) [
            | inr (e, q) ↦ absurd (ground arith)
            | inl ((u, rows1), q) ↦
                let (path, risk, render, decided, same, _, same_risk, unchanged) =
                  verify_catalog_binding-ok binding request catalog rows rows1 q in
                let (repo, initial, free, valid, is_new, w) =
                  enter-ok env binding request r rows rows' (ground arith) in
                (
                  path,
                  risk,
                  ap
                        (λ (x : PreparedRequest).
                          binding.render_action_path catalog.path_template x.request_inputs)
                        is_new
                      ∙ render,
                  decided,
                  IsOf-awaiting env catalog path request r is_new
                      (binding_matches-IsOf request catalog path same),
                  HasRisk-awaiting env risk request r is_new
                      (risk_matches-HasRisk request risk same_risk),
                  ap (λ (x : PreparedRequest). x.state) is_new,
                  ap (λ (x : PreparedRequest). blocking_state x.payload_hash none rows) is_new
                      ∙ free,
                  ground (
                    arith,
                    find_row-insert r rows rows' r.request_id w,
                    str_eq_iff r.request_id r.request_id,
                  ),
                )
          ]
    ]

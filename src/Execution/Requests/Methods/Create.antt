-- ===== src/Execution/Requests/Methods/Create.antt =====
-- `create_preview` of execution/store.py.
use mercury_tools.Prelude.{
  String, str_eq, true, not, none, some, ok, ◌≡◌, inl, inr, arith, Option-cases, Result-cases, ◌∙◌,
}
use mercury_tools.Execution.Requests.Models.{awaiting_confirmation, PreparedRequest, fields_valid}
use mercury_tools.Execution.Requests.Table.{Rows, insert_row}
use mercury_tools.Execution.Requests.Transaction.{
  request_already_exists, repository_mismatch, invalid_initial_request_state, Tx, pure, lift, ◌>>=◌,
  ◌>>◌, raise_if,
}
use mercury_tools.Execution.Requests.Store.{Runtime, updated, blocking_state, assert_replay_allowed}
use mercury_tools.Execution.Requests.Changes.{
  Change, inserted, Nobody, Changes, here, next, written-ok, fields_valid-summary,
}
use mercury_tools.Execution.Policy
use mercury_tools.Execution.Requests.Preview.{
  CatalogAction, Binding, binding_matches, preflight_matches, risk_matches, verify_catalog_binding,
  is_initial, validated_request, insert_preview, create_preview,
}
use mercury_tools.Execution.Requests.Methods.Start.{assert_replay_allowed-ok}

insert_preview-ok :
    (new : PreparedRequest) (rows rows' : Rows)
    → insert_preview new rows ≡ ok (tt, rows')
    → insert_row new rows ≡ ok rows'
unfolding insert_preview
insert_preview-ok new rows rows' h = written-ok (insert_row new rows) request_already_exists rows' h

-- A preview that passes is the rendered action, with the risk that the policy gives it.
pub verify_catalog_binding-ok :
    (binding : Binding) (request : PreparedRequest) (catalog : CatalogAction) (rows rows' : Rows)
    → verify_catalog_binding binding request catalog rows ≡ ok (tt, rows')
    → (path : String) × (risk : Policy.RiskDecision) × (binding.render_action_path
          catalog.path_template request.request_inputs
        ≡ some path)
      × (Policy.effective_risk catalog.action ≡ ok risk)
      × (binding_matches request catalog path ≡ true)
      × (preflight_matches request catalog ≡ true)
      × (risk_matches request risk ≡ true)
      × (rows' ≡ rows)
unfolding verify_catalog_binding
verify_catalog_binding-ok binding request catalog rows rows' h =
    elim (Option-cases (binding.render_action_path catalog.path_template request.request_inputs)) [
      | inl bad ↦ absurd (ground arith)
      | inr (path, p) ↦ elim (Result-cases (Policy.effective_risk catalog.action)) [
        | inr (e, q) ↦ absurd (ground arith)
        | inl (risk, q) ↦ (path, risk, p, q, ground arith, ground arith, ground arith, ground arith)
      ]
    ]

-- What `create_preview` does once the binding is verified.
abbrev pub enter : Runtime → Binding → PreparedRequest → Tx PreparedRequest
enter env binding request = do
  raise_if (not (str_eq request.repository_id binding.repository_id)) repository_mismatch
  raise_if (not (is_initial request)) invalid_initial_request_state
  assert_replay_allowed request.payload_hash none
  awaiting ← lift (updated env (record request { state = awaiting_confirmation }))
  insert_preview awaiting
  pure awaiting

pub enter-ok :
    (env : Runtime) (binding : Binding) (request r : PreparedRequest) (rows rows' : Rows)
    → enter env binding request rows ≡ ok (r, rows')
    → (str_eq request.repository_id binding.repository_id ≡ true)
      × (is_initial request ≡ true)
      × (blocking_state request.payload_hash none rows ≡ none)
      × (fields_valid (record request { state = awaiting_confirmation }) ≡ true)
      × (r ≡ record request {
        state = awaiting_confirmation;
        response_summary = env.sanitize request.response_summary;
      })
      × (insert_row r rows ≡ ok rows')
unfolding updated
enter-ok env binding request r rows rows' h =
    elim (Result-cases (assert_replay_allowed request.payload_hash none rows)) [
      | inr (e, p) ↦ absurd (ground arith)
      | inl ((u, rows1), p) ↦
          let awaiting = record request {
            state = awaiting_confirmation;
            response_summary = env.sanitize request.response_summary;
          } in
          ground (
            arith,
            assert_replay_allowed-ok request.payload_hash none rows rows1 p,
            insert_preview-ok awaiting rows rows',
          )
    ]

is_initial-count :
    (request : PreparedRequest) → is_initial request ≡ true → request.approval_count ≡ 0
unfolding is_initial
is_initial-count request h = ground arith

preview-inserted :
    (env : Runtime) (request r : PreparedRequest) (rows rows' : Rows)
    → is_initial request ≡ true
    → fields_valid (record request { state = awaiting_confirmation }) ≡ true
    → r ≡ record request {
      state = awaiting_confirmation;
      response_summary = env.sanitize request.response_summary;
    }
    → insert_row r rows ≡ ok rows'
    → Change Nobody rows rows'
preview-inserted env request r rows rows' i v is_new w =
    inserted r (rw is_new) (rw is_new (is_initial-count request i))
      (rw is_new (
        fields_valid-summary (record request { state = awaiting_confirmation })
          (env.sanitize request.response_summary)
        ∙ v))
      w

pub create_preview-Changes :
    (env : Runtime) (binding : Binding) (prepared : PreparedRequest) (catalog : CatalogAction)
    (r : PreparedRequest) (rows rows' : Rows)
    → create_preview env binding prepared catalog rows ≡ ok (r, rows')
    → Changes Nobody rows rows'
unfolding create_preview
create_preview-Changes env binding prepared catalog r rows rows' h =
    elim (Result-cases (validated_request env prepared)) [
      | inr (e, p) ↦ absurd (ground arith)
      | inl (request, p) ↦
          elim (Result-cases (verify_catalog_binding binding request catalog rows)) [
            | inr (e, q) ↦ absurd (ground arith)
            | inl ((u, rows1), q) ↦
                let (path, risk, _, _, _, _, _, unchanged) =
                  verify_catalog_binding-ok binding request catalog rows rows1 q in
                let (repo, initial, free, valid, is_new, w) =
                  enter-ok env binding request r rows rows' (ground arith) in
                next here (preview-inserted env request r rows rows' initial valid is_new w)
          ]
    ]

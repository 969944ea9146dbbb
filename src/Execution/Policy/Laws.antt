-- ===== src/Execution/Policy/Laws.antt =====
-- What `effective_risk` decides, on every mutating action.
use mercury_tools.Prelude.{◌≤◌, Bool, true, any, ◌||◌, ok, ◌≡◌, ◌↔◌, arith}
use mercury_tools.Execution.Policy.{
  Action, RiskDecision, tier_value, elevated, sensitive, effective_risk, valid_approval_binding,
  valid_method_class, has_sensitive_effect, canonical_sensitive_effect, is_some, is_delete,
  is_inferred, is_untested,
}

-- The tier of a decision is at least the declared tier, and at least that of a standard write.
pub effective_risk-floor :
    (action : Action) (decision : RiskDecision)
    → effective_risk action ≡ ok decision
    → (tier_value action.risk_tier ≤ tier_value decision.tier) × (1 ≤ tier_value decision.tier)
unfolding effective_risk
effective_risk-floor action decision h = ground arith

-- The action deletes, has a side effect that is read as a sensitive one, was inferred or was never tested.
abbrev pub has_risk : Action → Bool
has_risk action =
    is_delete action.method
    || any (λ effect. is_some (canonical_sensitive_effect effect)) action.side_effects
    || is_inferred action.confidence
    || is_untested action.observed_state

-- Approval is elevated and the mutation sensitive exactly if the action deletes, declares a
-- sensitive side effect, was inferred, or was never tested.
pub effective_risk-sensitive :
    (action : Action) (decision : RiskDecision)
    → effective_risk action ≡ ok decision
    → ((decision.mutation_class ≡ sensitive) ↔ (has_risk action ≡ true))
      × ((decision.approval_level ≡ elevated) ↔ (has_risk action ≡ true))
unfolding effective_risk has_sensitive_effect
effective_risk-sensitive action decision h = ground arith

-- A decision passes the tests that a prepared request makes of its approval level and, by its
-- method, of its mutation class.
pub effective_risk-binds :
    (action : Action) (decision : RiskDecision)
    → effective_risk action ≡ ok decision
    → (valid_approval_binding decision.approval_level decision.mutation_class ≡ true)
      × (valid_method_class action.method decision.mutation_class ≡ true)
unfolding effective_risk valid_approval_binding valid_method_class
effective_risk-binds action decision h = ground arith

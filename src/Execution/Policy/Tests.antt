-- ===== src/Execution/Policy/Tests.antt =====
-- Risks of single actions, and the theorems at concrete inputs.
use mercury_tools.Prelude.{codes, true, none, some, [], ok, ◌≡◌, ◌↔◌, refl}
use mercury_tools.Execution.Policy
use mercury_tools.Execution.Policy.{
  canonical_sensitive_effect, Action, RiskDecision, tier_value, elevated, sensitive, effective_risk,
  decide_risk, runtime_risk, initial_class, has_sensitive_effect, valid_approval_binding,
  valid_method_class,
}
use mercury_tools.Execution.Policy.Laws.{effective_risk-sensitive, effective_risk-binds, has_risk}

sends_email : canonical_sensitive_effect (codes " Send-Emails ") ≡ some "email"
unfolding canonical_sensitive_effect
sends_email = refl

collapsed_alias : canonical_sensitive_effect (codes "voidDocument") ≡ some "void"
unfolding canonical_sensitive_effect
collapsed_alias = refl

leading_separator : canonical_sensitive_effect (codes "-email") ≡ none
unfolding canonical_sensitive_effect
leading_separator = refl

abbrev removal : Action
removal = record {
  method = Policy.delete;
  risk_tier = Policy.standard_write;
  confidence = Policy.exact;
  observed_state = Policy.success;
  side_effects = [];
}

abbrev removal_risk : RiskDecision
removal_risk = decide_risk removal

removal_decided : effective_risk removal ≡ ok removal_risk
unfolding effective_risk
removal_decided = refl

effective_risk-sensitive_example :
    ((removal_risk.mutation_class ≡ sensitive) ↔ (has_risk removal ≡ true))
    × ((removal_risk.approval_level ≡ elevated) ↔ (has_risk removal ≡ true))
effective_risk-sensitive_example = effective_risk-sensitive removal removal_risk removal_decided

effective_risk-binds_example :
    (valid_approval_binding removal_risk.approval_level removal_risk.mutation_class ≡ true)
    × (valid_method_class Policy.delete removal_risk.mutation_class ≡ true)
effective_risk-binds_example = effective_risk-binds removal removal_risk removal_decided

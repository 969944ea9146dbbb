-- ===== src/Execution/Policy.antt =====
-- src/mercury_tools/execution/policy.py: the risk of an ERP mutation. An action has here the fields
-- of `CatalogAction` that the policy reads; a side effect is the list of its code points.
pub mod Effects
pub mod Laws
mod Tests
pub use Effects.{sensitive_effect_aliases}
unfoldable pub use Effects.{canonical_sensitive_effect}
use mercury_tools.Prelude.{
  ℕ, ◌+◌, String, Bool, true, false, Option, none, some, List, [], ◌∷◌, ◌++◌, any, ltb,
  if◌then◌else◌, Result, ok, err, ◌||◌,
}

pub data HttpMethod : Type 0 where
  get post put patch delete : HttpMethod

pub data RiskTier : Type 0 where
  safe_read standard_write high_risk : RiskTier

-- The integer of the `IntEnum`.
abbrev pub tier_value : RiskTier → ℕ
tier_value safe_read = 0
tier_value standard_write = 1
tier_value high_risk = 2

pub data ActionConfidence : Type 0 where
  exact example_derived inferred : ActionConfidence

pub data ObservedState : Type 0 where
  untested success failed outcome_unknown : ObservedState

pub data ApprovalLevel : Type 0 where
  standard elevated : ApprovalLevel

pub data MutationClass : Type 0 where
  create update sensitive : MutationClass

pub record Action : Type 0 where
  pub method : HttpMethod
  pub risk_tier : RiskTier
  pub confidence : ActionConfidence
  pub observed_state : ObservedState
  pub side_effects : List (List ℕ)

pub record RiskDecision : Type 0 where
  pub tier : RiskTier
  pub approval_level : ApprovalLevel
  pub mutation_class : MutationClass
  pub reasons : List String

pub data PolicyError : Type 0 where
  read_action_has_no_mutation_class : PolicyError

abbrev pub is_some {ℓ} : {A : Type ℓ} → Option A → Bool
is_some none = false
is_some (some a) = true

unfoldable pub has_sensitive_effect : Action → Bool
has_sensitive_effect action =
    any (λ effect. is_some (canonical_sensitive_effect effect)) action.side_effects

-- `max`, which keeps its first argument on a tie.
abbrev pub max_tier : RiskTier → RiskTier → RiskTier
max_tier a b = if ltb (tier_value a) (tier_value b) then b else a

abbrev pub is_delete : HttpMethod → Bool
is_delete delete = true
is_delete _ = false

abbrev pub is_inferred : ActionConfidence → Bool
is_inferred inferred = true
is_inferred _ = false

abbrev pub is_untested : ObservedState → Bool
is_untested untested = true
is_untested _ = false

-- The local variables of `effective_risk`.
pub record Draft : Type 0 where
  pub mutation_class : MutationClass
  pub runtime_tier : RiskTier
  pub reasons : List String

unfoldable pub initial_class : HttpMethod → MutationClass
initial_class put = update
initial_class patch = update
initial_class _ = create

abbrev raise_risk : String → Draft → Draft
raise_risk reason draft = record {
  mutation_class = sensitive;
  runtime_tier = high_risk;
  reasons = draft.reasons ++ reason ∷ [];
}

-- The chain of tests on the method and the side effects, then the two on the evidence.
unfoldable pub runtime_risk : Action → Draft
unfolding initial_class
runtime_risk action =
    let start : Draft = record {
      mutation_class = initial_class action.method;
      runtime_tier = standard_write;
      reasons = [];
    } in
    let by_effect =
      (if is_delete action.method
        then raise_risk "delete_method" start
        else if has_sensitive_effect action
        then raise_risk "sensitive_side_effect" start
        else start) in
    let by_confidence =
      (if is_inferred action.confidence
        then raise_risk "inferred_mutation" by_effect
        else by_effect) in
    if is_untested action.observed_state
    then raise_risk "unobserved_mutation" by_confidence
    else by_confidence

abbrev approval_for : MutationClass → ApprovalLevel
approval_for sensitive = elevated
approval_for _ = standard

unfoldable pub decide_risk : Action → RiskDecision
unfolding runtime_risk
decide_risk action =
    let draft = runtime_risk action in
    record {
      tier = max_tier action.risk_tier draft.runtime_tier;
      approval_level = approval_for draft.mutation_class;
      mutation_class = draft.mutation_class;
      reasons =
          (if ltb (tier_value draft.runtime_tier) (tier_value action.risk_tier)
            then "declared_risk_floor" ∷ draft.reasons
            else draft.reasons);
    }

abbrev is_get : HttpMethod → Bool
is_get get = true
is_get _ = false

unfoldable pub effective_risk : Action → Result PolicyError RiskDecision
unfolding decide_risk
effective_risk action =
    if is_get action.method then err read_action_has_no_mutation_class else ok (decide_risk action)

-- `_valid_approval_binding` of execution/models.py.
unfoldable pub valid_approval_binding : ApprovalLevel → MutationClass → Bool
valid_approval_binding elevated sensitive = true
valid_approval_binding elevated _ = false
valid_approval_binding standard sensitive = false
valid_approval_binding standard _ = true

-- The last test of `PreparedRequest.validate_preview`: the class fits the method. A request has one
-- of the four mutating methods.
unfoldable pub valid_method_class : HttpMethod → MutationClass → Bool
valid_method_class delete sensitive = true
valid_method_class delete _ = false
valid_method_class post update = false
valid_method_class put create = false
valid_method_class patch create = false
valid_method_class _ _ = true

abbrev pub same_class : MutationClass → MutationClass → Bool
same_class create create = true
same_class update update = true
same_class sensitive sensitive = true
same_class _ _ = false

-- `_risk_covers_floor` of execution/models.py.
unfoldable pub risk_covers_floor : RiskDecision → RiskDecision → Bool
risk_covers_floor candidate floor =
    if ltb (tier_value candidate.tier) (tier_value floor.tier)
    then false
    else if same_class floor.mutation_class sensitive
    then same_class candidate.mutation_class sensitive
    else same_class candidate.mutation_class floor.mutation_class
      || same_class candidate.mutation_class sensitive

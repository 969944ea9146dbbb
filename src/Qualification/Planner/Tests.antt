-- ===== src/Qualification/Planner/Tests.antt =====
-- Runs of `stable_topological_sort` of qualification/planner.py, and the theorems at concrete inputs.
use mercury_tools.Prelude.{ℕ, true, List, [], ◌∷◌, ok, err, ◌≡◌, refl, arith, if◌then◌else◌}
use mercury_tools.Qualification.Planner.Sort.{
  ActionIdentity, DependencyIdentity, fixture_plan_cycle, mem, all_different, node_identity,
  node_identities, set_value, add_edge, add_edges, without_prerequisites, insert_sorted, sorted,
  without, least_from, pop_least, relax, relax_all, take_node, take_all, stable_topological_sort,
  node_eq,
}
use mercury_tools.Qualification.Planner.Order.{
  IsOrder, IsBetween, stable_topological_sort-IsOrder, stable_topological_sort-returns,
}

abbrev contact : ActionIdentity
contact = record { action_id = "contact"; version_id = "v1" }

abbrev invoice : ActionIdentity
invoice = record { action_id = "invoice"; version_id = "v1" }

abbrev account : ActionIdentity
account = record { action_id = "account"; version_id = "v1" }

abbrev needs : ActionIdentity → ActionIdentity → DependencyIdentity
needs d p = record { prerequisite = p; dependent = d }

abbrev actions : List ActionIdentity
actions = invoice ∷ contact ∷ account ∷ []

abbrev links : List DependencyIdentity
links = needs invoice contact ∷ needs contact account ∷ needs invoice contact ∷ []

sorted_actions : stable_topological_sort actions links ≡ ok (account ∷ contact ∷ invoice ∷ [])
unfolding stable_topological_sort node_identities node_identity all_different mem add_edges add_edge
    set_value without_prerequisites take_all pop_least least_from without take_node relax_all relax
    sorted insert_sorted
sorted_actions = refl

cycle_refused :
    stable_topological_sort actions (needs contact invoice ∷ links) ≡ err fixture_plan_cycle
unfolding stable_topological_sort node_identities node_identity all_different mem add_edges add_edge
    set_value without_prerequisites take_all pop_least least_from without take_node relax_all relax
    sorted insert_sorted
cycle_refused = refl

stable_topological_sort-IsOrder_example : IsOrder actions links (account ∷ contact ∷ invoice ∷ [])
stable_topological_sort-IsOrder_example =
    stable_topological_sort-IsOrder actions links sorted_actions

abbrev rank : ActionIdentity → ℕ
rank v = if node_eq v account then 0 else if node_eq v contact then 1 else 2

actions_different : all_different actions ≡ true
unfolding all_different mem
actions_different = refl

contact_named : node_identity contact ≡ ok contact
unfolding node_identity
contact_named = refl

invoice_named : node_identity invoice ≡ ok invoice
unfolding node_identity
invoice_named = refl

account_named : node_identity account ≡ ok account
unfolding node_identity
account_named = refl

invoice-IsBetween : IsBetween actions (needs invoice contact)
unfolding mem
invoice-IsBetween = record {
  prerequisite_named = contact_named;
  dependent_named = invoice_named;
  prerequisite_in = refl;
  dependent_in = refl;
}

contact-IsBetween : IsBetween actions (needs contact account)
unfolding mem
contact-IsBetween = record {
  prerequisite_named = account_named;
  dependent_named = contact_named;
  prerequisite_in = refl;
  dependent_in = refl;
}

stable_topological_sort-returns_example :
    (order : List ActionIdentity) × (stable_topological_sort actions links ≡ ok order)
stable_topological_sort-returns_example =
    stable_topological_sort-returns actions links rank actions_different
      (invoice_named, (contact_named, (account_named, tt)))
      (invoice-IsBetween, (contact-IsBetween, (invoice-IsBetween, tt)))
      (omega arith, (omega arith, (omega arith, tt)))

-- ===== src/Hosted/Transitions/Tests.antt =====
-- Runs of the transition tests of hosted/transitions.py, and the theorems at concrete inputs.
use mercury_tools.Prelude.{◌+◌, ◌*◌, ◌≤◌, true, false, [], ◌∷◌, ◌≡◌, refl, length}
use mercury_tools.Hosted.Transitions.{
  ParentOperationState as Parent, OperationItemState as Item, parent_step, item_step,
  parent_operation_transition_allowed, parent_operation_children_compatible,
  item_operation_transition_allowed, coerce_parent, coerce_item, coerce_items, children_compatible,
}
use mercury_tools.Hosted.Transitions.Coherence.{
  transition_allowed-compatible, item_step-children_compatible,
}
use mercury_tools.Hosted.Transitions.Progress.{
  Aggregate, Step, parent_moves, Run, here, next, IsCoherent, Run-IsCoherent, steps, steps_bounded,
  settled_absorbs,
}

dispatch_needs_children_ready :
    parent_operation_transition_allowed "awaiting_confirmation" "dispatching" ("prepared" ∷ [])
    ≡ false
unfolding parent_operation_transition_allowed coerce_parent coerce_item coerce_items parent_step
dispatch_needs_children_ready = refl

unknown_state_refused : item_operation_transition_allowed "preparing" "expired" "prepared" ≡ false
unfolding item_operation_transition_allowed coerce_parent coerce_item item_step
unknown_state_refused = refl

transition_allowed-compatible_example :
    parent_operation_children_compatible "succeeded" ("succeeded" ∷ []) ≡ true
unfolding parent_operation_transition_allowed coerce_parent coerce_item coerce_items parent_step
transition_allowed-compatible_example =
    transition_allowed-compatible "dispatching" "succeeded" ("succeeded" ∷ []) (λ e. cc) refl

item_step-children_compatible_example :
    children_compatible Parent.dispatching (Item.succeeded ∷ Item.dispatching ∷ []) ≡ true
unfolding item_step children_compatible
item_step-children_compatible_example =
    item_step-children_compatible (Item.succeeded ∷ []) Item.awaiting_confirmation Item.dispatching
      [] Parent.dispatching refl refl

abbrev fresh : Aggregate
fresh = record { parent = Parent.prepared; children = Item.prepared ∷ [] }

abbrev awaiting : Aggregate
awaiting = record { parent = Parent.awaiting_confirmation; children = Item.prepared ∷ [] }

awaiting_run : Run fresh awaiting
unfolding parent_step
awaiting_run = next here (parent_moves Parent.awaiting_confirmation refl refl)

Run-IsCoherent_example : IsCoherent awaiting
unfolding children_compatible
Run-IsCoherent_example = Run-IsCoherent {s = fresh} refl awaiting_run

steps_bounded_example : steps awaiting_run ≤ 5 * (length fresh.children + 1)
steps_bounded_example = steps_bounded awaiting_run

abbrev done : Aggregate
done = record { parent = Parent.succeeded; children = Item.succeeded ∷ [] }

settled_absorbs_example : ¬ Step done awaiting
settled_absorbs_example = settled_absorbs {a = done} {b = awaiting} refl

-- ===== src/Hosted/Operations/Values.antt =====
-- The states of hosted/transitions.py and their texts.
use mercury_tools.Prelude.{some, List, [], ◌∷◌, map, ◌≡◌, refl, arith}
use mercury_tools.Hosted.Transitions.{
  ParentOperationState as Parent, OperationItemState as Item, coerce_parent, coerce_item,
  coerce_items, parent_step, item_step, children_compatible, parent_operation_transition_allowed,
  item_operation_transition_allowed, parent_operation_children_compatible,
}
use mercury_tools.Hosted.Operations.Models.{parent_value, item_value}

pub coerce-parent_value : (s : Parent) → coerce_parent (parent_value s) ≡ some s
unfolding coerce_parent
coerce-parent_value Parent.prepared = refl
coerce-parent_value Parent.awaiting_confirmation = refl
coerce-parent_value Parent.dispatching = refl
coerce-parent_value Parent.succeeded = refl
coerce-parent_value Parent.failed_pre_dispatch = refl
coerce-parent_value Parent.provider_rejected = refl
coerce-parent_value Parent.outcome_unknown = refl
coerce-parent_value Parent.needs_manual_review = refl
coerce-parent_value Parent.expired = refl
coerce-parent_value Parent.cancelled = refl

pub coerce-item_value : (s : Item) → coerce_item (item_value s) ≡ some s
unfolding coerce_item
coerce-item_value Item.prepared = refl
coerce-item_value Item.awaiting_confirmation = refl
coerce-item_value Item.dispatching = refl
coerce-item_value Item.succeeded = refl
coerce-item_value Item.failed_pre_dispatch = refl
coerce-item_value Item.provider_rejected = refl
coerce-item_value Item.outcome_unknown = refl
coerce-item_value Item.needs_manual_review = refl
coerce-item_value Item.not_dispatched = refl
coerce-item_value Item.expired = refl
coerce-item_value Item.cancelled = refl

pub coerce-item_values : (xs : List Item) → coerce_items (map item_value xs) ≡ some xs
unfolding coerce_items
coerce-item_values [] = refl
coerce-item_values (x ∷ xs) = rw (coerce-item_value x, coerce-item_values xs) refl

pub transition_allowed-values :
    (source target : Parent) (children : List Item)
    → parent_operation_transition_allowed
        (parent_value source)
        (parent_value target)
        (map item_value children)
      ≡ parent_step source target children
unfolding parent_operation_transition_allowed
transition_allowed-values source target children =
    ground
      (arith, coerce-parent_value source, coerce-parent_value target, coerce-item_values children)

pub item_transition_allowed-values :
    (source target : Item) (parent : Parent)
    → item_operation_transition_allowed
        (item_value source)
        (item_value target)
        (parent_value parent)
      ≡ item_step source target parent
unfolding item_operation_transition_allowed
item_transition_allowed-values source target parent =
    ground (arith, coerce-item_value source, coerce-item_value target, coerce-parent_value parent)

pub children_compatible-values :
    (parent : Parent) (children : List Item)
    → parent_operation_children_compatible (parent_value parent) (map item_value children)
      ≡ children_compatible parent children
unfolding parent_operation_children_compatible
children_compatible-values parent children =
    ground (arith, coerce-parent_value parent, coerce-item_values children)

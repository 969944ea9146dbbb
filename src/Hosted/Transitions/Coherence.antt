-- ===== src/Hosted/Transitions/Coherence.antt =====
-- The two transition tests of hosted/transitions.py keep a parent and its items coherent.
use mercury_tools.Prelude.{
  String, Bool, true, false, ◌&&◌, ◌||◌, some, List, [], ◌∷◌, ◌++◌, and_left, and_right, and_intro,
  all, any, is_empty, ◌≡◌, ◌≢◌, refl, ◌⊎◌, inl, inr, arith, Bool-cases, Option-cases,
}
use mercury_tools.Hosted.Transitions.{
  ParentOperationState as Parent, OperationItemState as Item, dispatch_recovery_states, parent_in,
  item_in, same_item, parent_destination_allowed, children_allowed, item_terminal,
  parent_transitions, parent_step, coerce_items, coerce_parent, parent_operation_transition_allowed,
  parent_operation_children_compatible, children_compatible, item_step,
}

same_item-eq : (x a : Item) → same_item x a ≡ true → x ≡ a
same_item-eq x a h = ground arith

-- A pointwise implication carries `all` and `any` over.
item_in_subset :
    (small big : List Item) (x : Item)
    → all (item_in big) small ≡ true
    → item_in small x ≡ true
    → item_in big x ≡ true
item_in_subset [] big x sub h = cc
item_in_subset (a ∷ small) big x sub h = elim (Bool-cases (same_item x a)) [
  | inl e ↦ rw (same_item-eq x a e) (and_left _ _ sub)
  | inr e ↦ item_in_subset small big x (and_right _ _ sub) (rw e at h)
]

all_mono {ℓ} :
    {A : Type ℓ} (p q : A → Bool) (xs : List A)
    → ((x : A) → p x ≡ true → q x ≡ true)
    → all p xs ≡ true
    → all q xs ≡ true
all_mono p q [] h a = refl
all_mono p q (x ∷ xs) h a = ground (arith, h x, all_mono p q xs h)

any_mono {ℓ} :
    {A : Type ℓ} (p q : A → Bool) (xs : List A)
    → ((x : A) → p x ≡ true → q x ≡ true)
    → any p xs ≡ true
    → any q xs ≡ true
any_mono p q [] h a = cc
any_mono p q (x ∷ xs) h a = ground (arith, h x, any_mono p q xs h)

-- The sets of states in the code are literal lists: one holding all of another is tested by `all`.
all_subset :
    (small big xs : List Item)
    → all (item_in big) small ≡ true
    → all (item_in small) xs ≡ true
    → all (item_in big) xs ≡ true
all_subset small big xs sub =
    all_mono (item_in small) (item_in big) xs (λ x. item_in_subset small big x sub)

any_subset :
    (small big xs : List Item)
    → all (item_in big) small ≡ true
    → any (item_in small) xs ≡ true
    → any (item_in big) xs ≡ true
any_subset small big xs sub =
    any_mono (item_in small) (item_in big) xs (λ x. item_in_subset small big x sub)

destination-children_allowed :
    (destination : Parent) (children : List Item)
    → destination ≢ Parent.prepared
    → parent_destination_allowed destination children ≡ true
    → children_allowed destination children ≡ true
unfolding parent_destination_allowed children_allowed
destination-children_allowed Parent.prepared children h s = absurd (h refl)
destination-children_allowed Parent.awaiting_confirmation children h s =
    all_subset (Item.prepared ∷ [])
      (Item.prepared ∷ Item.awaiting_confirmation ∷ Item.failed_pre_dispatch ∷ Item.not_dispatched
        ∷ Item.expired ∷ Item.cancelled ∷ [])
      children refl s
destination-children_allowed Parent.dispatching children h s =
    all_subset (Item.awaiting_confirmation ∷ Item.failed_pre_dispatch ∷ [])
      (Item.awaiting_confirmation ∷ Item.failed_pre_dispatch ∷ Item.dispatching
        ∷ dispatch_recovery_states)
      children refl s
destination-children_allowed Parent.failed_pre_dispatch children h s =
    all_subset (Item.failed_pre_dispatch ∷ Item.not_dispatched ∷ [])
      (Item.failed_pre_dispatch ∷ Item.not_dispatched ∷ Item.cancelled ∷ []) children refl
      (and_right _ _ s)
destination-children_allowed Parent.outcome_unknown children h s =
    and_intro _ _ (and_right _ _ (and_left _ _ s)) (
      any_subset (Item.outcome_unknown ∷ [])
        (Item.succeeded ∷ Item.outcome_unknown ∷ Item.needs_manual_review ∷ []) children refl
        (and_right _ _ s))
destination-children_allowed destination children h s = ground arith

-- No table entry leads back to `prepared`.
transition_target :
    (source destination : Parent)
    → parent_in (parent_transitions source) destination ≡ true
    → destination ≢ Parent.prepared
transition_target source destination h e = grind arith

-- A parent with children may only move to a state that its children are coherent with.
pub parent_step-children_compatible :
    (source destination : Parent) (children : List Item)
    → children ≢ []
    → parent_step source destination children ≡ true
    → children_compatible destination children ≡ true
unfolding parent_step children_compatible
parent_step-children_compatible source destination [] h s = absurd (h refl)
parent_step-children_compatible source destination (x ∷ xs) h s =
    ground (
      arith,
      destination-children_allowed destination (x ∷ xs),
      transition_target source destination,
    )

-- Replacing one child: a test that held of all of them, and holds of the new one.
all_replace :
    (p : Item → Bool) (before : List Item) (old new : Item) (after : List Item)
    → p new ≡ true
    → all p (before ++ old ∷ after) ≡ true
    → all p (before ++ new ∷ after) ≡ true
all_replace p [] old new after n h = ground arith
all_replace p (x ∷ before) old new after n h = ground (arith, all_replace p before old new after n)

any_insert :
    (p : Item → Bool) (before : List Item) (new : Item) (after : List Item)
    → p new ≡ true
    → any p (before ++ new ∷ after) ≡ true
any_insert p [] new after n = ground arith
any_insert p (x ∷ before) new after n = ground (arith, any_insert p before new after n)

-- The states that children may have under a parent, and the states of which one must occur.
abbrev permitted : Parent → List Item
permitted Parent.prepared = Item.prepared ∷ Item.cancelled ∷ Item.expired ∷ []
permitted Parent.awaiting_confirmation =
    Item.prepared ∷ Item.awaiting_confirmation ∷ Item.failed_pre_dispatch ∷ Item.not_dispatched
    ∷ Item.expired ∷ Item.cancelled ∷ []
permitted Parent.failed_pre_dispatch =
    Item.failed_pre_dispatch ∷ Item.not_dispatched ∷ Item.cancelled ∷ []
permitted Parent.dispatching =
    Item.awaiting_confirmation ∷ Item.failed_pre_dispatch ∷ Item.dispatching
    ∷ dispatch_recovery_states
permitted Parent.succeeded = Item.succeeded ∷ []
permitted Parent.expired = Item.expired ∷ []
permitted Parent.cancelled = Item.cancelled ∷ Item.not_dispatched ∷ []
permitted _ = item_terminal

abbrev required : Parent → List Item
required Parent.provider_rejected = Item.provider_rejected ∷ []
required Parent.outcome_unknown =
    Item.succeeded ∷ Item.outcome_unknown ∷ Item.needs_manual_review ∷ []
required Parent.needs_manual_review = Item.needs_manual_review ∷ Item.outcome_unknown ∷ []
required _ = []

children_allowed-sets :
    (parent : Parent) (xs : List Item)
    → children_allowed parent xs ≡ (
        all (item_in (permitted parent)) xs
        && (is_empty (required parent) || any (item_in (required parent)) xs))
unfolding children_allowed
children_allowed-sets Parent.prepared xs = ground arith
children_allowed-sets _ xs = ground arith

-- What a child becomes is permitted, and is of a required kind wherever one is required.
item_step-permitted :
    (old new : Item) (parent : Parent)
    → item_step old new parent ≡ true
    → (item_in (permitted parent) new ≡ true)
      × ((is_empty (required parent) ≡ true) ⊎ (item_in (required parent) new ≡ true))
unfolding item_step
item_step-permitted old new parent h = ground arith

is_empty-insert :
    (before : List Item) (x : Item) (after : List Item) → is_empty (before ++ x ∷ after) ≡ false
is_empty-insert [] x after = refl
is_empty-insert (y ∷ before) x after = refl

-- If an item may move to a new state under its parent's state, then replacing it in a list of
-- children that is coherent with the parent, at any position, leaves the list coherent with it.
pub item_step-children_compatible :
    (before : List Item) (old new : Item) (after : List Item) (parent : Parent)
    → item_step old new parent ≡ true
    → children_compatible parent (before ++ old ∷ after) ≡ true
    → children_compatible parent (before ++ new ∷ after) ≡ true
unfolding children_compatible
item_step-children_compatible before old new after parent step h = ground (
  arith,
  children_allowed-sets parent (before ++ old ∷ after),
  children_allowed-sets parent (before ++ new ∷ after),
  item_step-permitted old new parent step,
  is_empty-insert before new after,
  all_replace (item_in (permitted parent)) before old new after,
  any_insert (item_in (required parent)) before new after,
)

coerce_items-nonempty :
    (values : List String) (items : List Item)
    → coerce_items values ≡ some items
    → values ≢ []
    → items ≢ []
unfolding coerce_items
coerce_items-nonempty [] items h v = absurd (v refl)
coerce_items-nonempty (x ∷ values) [] h v = ground arith
coerce_items-nonempty (x ∷ values) (i ∷ items) h v = λ e. cc

-- An allowed transition of a parent that has children leaves them coherent with its new state.
pub transition_allowed-compatible :
    (current target : String) (child_states : List String)
    → child_states ≢ []
    → parent_operation_transition_allowed current target child_states ≡ true
    → parent_operation_children_compatible target child_states ≡ true
unfolding parent_operation_transition_allowed parent_operation_children_compatible
transition_allowed-compatible current target child_states v h =
    elim (Option-cases (coerce_parent current)) [
      | inl bad ↦ ground arith
      | inr (source, p) ↦ elim (Option-cases (coerce_parent target)) [
        | inl bad ↦ ground arith
        | inr (destination, q) ↦ elim (Option-cases (coerce_items child_states)) [
          | inl bad ↦ ground arith
          | inr (items, r) ↦ ground (
            arith,
            parent_step-children_compatible source destination items
                (coerce_items-nonempty child_states items r v),
          )
        ]
      ]
    ]

-- Items that await confirmation may stand under an operation that does.
pub children_compatible-awaiting :
    (xs : List Item)
    → xs ≢ []
    → all (item_in (Item.awaiting_confirmation ∷ [])) xs ≡ true
    → children_compatible Parent.awaiting_confirmation xs ≡ true
unfolding children_compatible children_allowed
children_compatible-awaiting [] n h = absurd (n refl)
children_compatible-awaiting (x ∷ xs) n h =
    all_subset (Item.awaiting_confirmation ∷ [])
      (Item.prepared ∷ Item.awaiting_confirmation ∷ Item.failed_pre_dispatch ∷ Item.not_dispatched
        ∷ Item.expired ∷ Item.cancelled ∷ [])
      (x ∷ xs) refl h

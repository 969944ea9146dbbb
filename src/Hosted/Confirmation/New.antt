-- ===== src/Hosted/Confirmation/New.antt =====
-- `HostedOperation.from_preview` of execution/hosted/models.py makes a valid operation.
use mercury_tools.Prelude.{
  nat_refl, ℕ, suc, true, false, not, none, List, [], ◌∷◌, map, length, all, is_empty, leb, ◌==◌,
  ok, ◌≡◌, refl, ap, ◌∙◌, arith,
}
use mercury_tools.Hosted.Transitions.{
  ParentOperationState as Parent, OperationItemState as Item, item_in, coerce_parent,
  parent_operation_children_compatible,
}
use mercury_tools.Hosted.Transitions.Coherence.{children_compatible-awaiting}
use mercury_tools.Hosted.Operations.{
  Checks, OperationItem, OperationEvent, HostedOperation, checked_item, checked_event,
  checked_operation, item_valid, event_valid, operation_valid, item_states, item_ids, distinct,
  is_nil, indexed_from, max_batch_documents, event_belongs, records_item, records_parent,
  last_event, is_event_of, is_parent_event, item_value, parent_value,
}
use mercury_tools.Hosted.Operations.Values.{children_compatible-values}
use mercury_tools.Hosted.Previews.{
  StoredPreviewItem, DocumentPreview, preview_valid, preview_items_valid, preview_fixed,
  preview_item_valid, preview_indexed_from,
}
use mercury_tools.Hosted.Confirmation.{
  new_item, new_items, first_event, new_operation, from_preview,
}

-- The items of a new operation.
abbrev pub made : ℕ → ℕ → List ℕ → List StoredPreviewItem → List OperationItem
made now n (id ∷ ids) (p ∷ ps) = new_item now id n p ∷ made now (suc n) ids ps
made now n _ _ = []

new_item-valid :
    (now id n : ℕ) (p : StoredPreviewItem)
    → is_nil id ≡ false
    → (p.item_index == n) ≡ true
    → preview_item_valid p ≡ true
    → item_valid (new_item now id n p) ≡ true
unfolding item_valid preview_item_valid
new_item-valid now id n p h i v = ground arith

made-valid :
    (now n : ℕ) (ids : List ℕ) (ps : List StoredPreviewItem)
    → all (λ id. not (is_nil id)) ids ≡ true
    → preview_indexed_from n ps ≡ true
    → all preview_item_valid ps ≡ true
    → all item_valid (made now n ids ps) ≡ true
made-valid now n [] ps h i v = refl
made-valid now n (id ∷ ids) [] h i v = refl
made-valid now n (id ∷ ids) (p ∷ ps) h i v =
    ground (arith, new_item-valid now id n p, made-valid now (suc n) ids ps)

new_items-made :
    (now n : ℕ) (ids : List ℕ) (ps : List StoredPreviewItem)
    → (length ids == length ps) ≡ true
    → all (λ id. not (is_nil id)) ids ≡ true
    → preview_indexed_from n ps ≡ true
    → all preview_item_valid ps ≡ true
    → new_items now n ids ps ≡ ok (made now n ids ps)
unfolding new_items checked_item
new_items-made now n [] [] l h i v = refl
new_items-made now n [] (p ∷ ps) l h i v = absurd (ground arith)
new_items-made now n (id ∷ ids) [] l h i v = absurd (ground arith)
new_items-made now n (id ∷ ids) (p ∷ ps) l h i v =
    ground (arith, new_item-valid now id n p, new_items-made now (suc n) ids ps)

pub length-made :
    (now n : ℕ) (ids : List ℕ) (ps : List StoredPreviewItem)
    → (length ids == length ps) ≡ true
    → length (made now n ids ps) ≡ length ps
length-made now n [] [] l = refl
length-made now n [] (p ∷ ps) l = absurd (ground arith)
length-made now n (id ∷ ids) [] l = absurd (ground arith)
length-made now n (id ∷ ids) (p ∷ ps) l = ap suc (length-made now (suc n) ids ps (ground arith))

item_ids-made :
    (now n : ℕ) (ids : List ℕ) (ps : List StoredPreviewItem)
    → (length ids == length ps) ≡ true
    → item_ids (made now n ids ps) ≡ ids
item_ids-made now n [] [] l = refl
item_ids-made now n [] (p ∷ ps) l = absurd (ground arith)
item_ids-made now n (id ∷ ids) [] l = absurd (ground arith)
item_ids-made now n (id ∷ ids) (p ∷ ps) l =
    ap (λ (xs : List ℕ). id ∷ xs) (item_ids-made now (suc n) ids ps (ground arith))

made-indexed :
    (now n : ℕ) (ids : List ℕ) (ps : List StoredPreviewItem)
    → indexed_from n (made now n ids ps) ≡ true
made-indexed now n [] ps = refl
made-indexed now n (id ∷ ids) [] = refl
made-indexed now n (id ∷ ids) (p ∷ ps) = ground (arith, nat_refl n, made-indexed now (suc n) ids ps)

made-awaiting :
    (now n : ℕ) (ids : List ℕ) (ps : List StoredPreviewItem)
    → all (item_in (Item.awaiting_confirmation ∷ [])) (item_states (made now n ids ps)) ≡ true
made-awaiting now n [] ps = refl
made-awaiting now n (id ∷ ids) [] = refl
made-awaiting now n (id ∷ ids) (p ∷ ps) = made-awaiting now (suc n) ids ps

made-unrecorded :
    (e : OperationEvent) (is : List OperationItem)
    → e.operation_item_id ≡ none
    → all (λ i. records_item i (last_event (is_event_of i.operation_item_id) (e ∷ []))) is ≡ true
unfolding last_event
made-unrecorded e [] h = refl
made-unrecorded e (i ∷ is) h = ground (arith, made-unrecorded e is h)

first_event-valid :
    (checks : Checks) (operation_id event_id now : ℕ)
    → checks.safe_reason "explicit_confirmation" ≡ true
    → event_valid checks (first_event operation_id event_id now) ≡ true
unfolding event_valid coerce_parent
first_event-valid checks operation_id event_id now h = rw h refl

-- What is asked of the identifiers of a new operation, and of the reason that the code gives.
pub record AreFit (checks : Checks) (p : DocumentPreview) (operation_id : ℕ) (ids : List ℕ)
    : Type 0 where
  pub operation_set : is_nil operation_id ≡ false
  pub enough : (length ids == length p.items) ≡ true
  pub ids_set : all (λ id. not (is_nil id)) ids ≡ true
  pub ids_distinct : distinct ids ≡ true
  pub reason_safe : checks.safe_reason "explicit_confirmation" ≡ true

-- What the validity of a preview gives for its items.
record ItemsFit (p : DocumentPreview) : Type 0 where
  items : all preview_item_valid p.items ≡ true
  indexed : preview_indexed_from 0 p.items ≡ true
  bounded : leb (length p.items) max_batch_documents ≡ true
  some_item : is_empty p.items ≡ false

preview_items_valid-ItemsFit : (p : DocumentPreview) → preview_items_valid p ≡ true → ItemsFit p
unfolding preview_items_valid
preview_items_valid-ItemsFit p h = record {
  items = ground arith;
  indexed = ground arith;
  bounded = ground arith;
  some_item = ground arith;
}

is_empty-length :
    {A B : Type 0} (xs : List A) (ys : List B)
    → length xs ≡ length ys
    → is_empty ys ≡ false
    → is_empty xs ≡ false
is_empty-length [] [] l h = h
is_empty-length [] (y ∷ ys) l h = absurd (ground arith)
is_empty-length (x ∷ xs) ys l h = refl

states-nonempty : (is : List OperationItem) → is_empty is ≡ false → item_states is ≡ [] → ⊥
states-nonempty [] h e = cc h
states-nonempty (i ∷ is) h e = absurd (ground arith)

-- The lists of a new operation.
record ListsValid (checks : Checks) (op : HostedOperation) : Type 0 where
  items : all item_valid op.items ≡ true
  events : all (event_valid checks) op.events ≡ true
  some_item : is_empty op.items ≡ false
  bounded : leb (length op.items) max_batch_documents ≡ true
  ids : distinct (item_ids op.items) ≡ true
  indexed : indexed_from 0 op.items ≡ true
  belong : all (event_belongs op) op.events ≡ true
  parent : records_parent op.state_version op.state (last_event is_parent_event op.events) ≡ true
  each :
      all (λ i. records_item i (last_event (is_event_of i.operation_item_id) op.events)) op.items
      ≡ true
  compatible :
      parent_operation_children_compatible
        (parent_value op.state)
        (map item_value (item_states op.items))
      ≡ true

ListsValid-valid :
    (checks : Checks) (p : DocumentPreview) (operation_id : ℕ) (is : List OperationItem)
    (e : OperationEvent) (now : ℕ)
    → preview_fixed p ≡ true
    → is_nil operation_id ≡ false
    → ListsValid checks (new_operation p operation_id is e now)
    → operation_valid checks (new_operation p operation_id is e now) ≡ true
unfolding operation_valid preview_fixed
ListsValid-valid checks p operation_id is e now f s l =
    rw
      (
        l.items, l.events, l.some_item, l.bounded, l.ids, l.indexed, l.belong, l.parent, l.each,
        l.compatible,
      )
      (ground arith)

first_event-recorded :
    (operation_id event_id now : ℕ)
    → records_parent 1 Parent.awaiting_confirmation
        (last_event is_parent_event (first_event operation_id event_id now ∷ []))
      ≡ true
unfolding last_event
first_event-recorded operation_id event_id now = refl

first_event-belongs :
    (p : DocumentPreview) (operation_id event_id now : ℕ) (is : List OperationItem)
    (e : OperationEvent)
    → event_belongs (new_operation p operation_id is e now) (first_event operation_id event_id now)
      ≡ true
first_event-belongs p operation_id event_id now is e = ground (arith, nat_refl operation_id)

module _ (checks : Checks) (p : DocumentPreview) (operation_id : ℕ) (ids : List ℕ)
    (event_id now : ℕ) (fit : AreFit checks p operation_id ids)
    (v : preview_items_valid p ≡ true) where
  new_lists : ListsValid checks (
      new_operation p operation_id
        (made now 0 ids p.items)
        (first_event operation_id event_id now)
        now)
  new_lists =
      let ok = preview_items_valid-ItemsFit p v in
      let is = made now 0 ids p.items in
      let e = first_event operation_id event_id now in
      let long = length-made now 0 ids p.items fit.enough in
      let filled = is_empty-length is p.items long ok.some_item in
      record {
        items = made-valid now 0 ids p.items fit.ids_set ok.indexed ok.items;
        events = rw (first_event-valid checks operation_id event_id now fit.reason_safe) refl;
        some_item = filled;
        bounded = ap (λ n. leb n max_batch_documents) long ∙ ok.bounded;
        ids = ap distinct (item_ids-made now 0 ids p.items fit.enough) ∙ fit.ids_distinct;
        indexed = made-indexed now 0 ids p.items;
        belong = rw (first_event-belongs p operation_id event_id now is e) refl;
        parent = first_event-recorded operation_id event_id now;
        each = made-unrecorded e is refl;
        compatible =
            children_compatible-values Parent.awaiting_confirmation (item_states is)
            ∙ children_compatible-awaiting (item_states is)
                (λ none_there. states-nonempty is filled none_there)
                (made-awaiting now 0 ids p.items);
      }

  pub new_operation-valid :
      preview_fixed p ≡ true
      → operation_valid checks (
          new_operation p operation_id
            (made now 0 ids p.items)
            (first_event operation_id event_id now)
            now)
        ≡ true
  new_operation-valid fixed =
      ListsValid-valid checks p operation_id (made now 0 ids p.items)
        (first_event operation_id event_id now) now fixed fit.operation_set new_lists

-- `from_preview` of a valid preview, given as many distinct identifiers as it has items, returns an
-- operation with the preview's identity and one item for each item of the preview.
pub from_preview-made :
    (checks : Checks) (p : DocumentPreview) (operation_id : ℕ) (ids : List ℕ) (event_id now : ℕ)
    → preview_valid p ≡ true
    → AreFit checks p operation_id ids
    → from_preview checks p operation_id ids event_id now
      ≡ ok (
          new_operation p operation_id
            (made now 0 ids p.items)
            (first_event operation_id event_id now)
            now)
unfolding from_preview preview_valid checked_event checked_operation
from_preview-made checks p operation_id ids event_id now v fit =
    let fixed : preview_fixed p ≡ true = ground arith in
    let items : preview_items_valid p ≡ true = ground arith in
    let ok = preview_items_valid-ItemsFit p items in
    ground (
      arith,
      fit,
      new_items-made now 0 ids p.items fit.enough fit.ids_set ok.indexed ok.items,
      first_event-valid checks operation_id event_id now fit.reason_safe,
      new_operation-valid checks p operation_id ids event_id now fit items fixed,
    )

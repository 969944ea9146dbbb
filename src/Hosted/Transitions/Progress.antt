-- ===== src/Hosted/Transitions/Progress.antt =====
-- An operation with its items as a transition system over the two tests of hosted/transitions.py:
-- every run stays coherent and ends.
use mercury_tools.Prelude.{
  ℕ, suc, ◌+◌, ◌*◌, ◌≤◌, Bool, true, false, List, [], ◌∷◌, ◌++◌, length, ◌≡◌, ◌≢◌, refl, arith, ap,
  ◌∙◌,
}
use mercury_tools.Hosted.Transitions.{
  ParentOperationState as Parent, OperationItemState as Item, parent_step, item_step,
  children_compatible,
}
use mercury_tools.Hosted.Transitions.Coherence.{
  parent_step-children_compatible, item_step-children_compatible,
}

pub record Aggregate : Type 0 where
  pub parent : Parent
  pub children : List Item

-- One accepted transition, of the parent or of one item.
pub data Step (a b : Aggregate) : Type 0 where
  parent_moves :
      (target : Parent)
      → parent_step a.parent target a.children ≡ true
      → b ≡ record { parent = target; children = a.children }
      → Step a b
  item_moves :
      (before : List Item) (old new : Item) (after : List Item)
      → a.children ≡ before ++ old ∷ after
      → item_step old new a.parent ≡ true
      → b ≡ record { parent = a.parent; children = before ++ new ∷ after }
      → Step a b

pub data Run (s : Aggregate) : Aggregate → Type 0 where
  here : Run s s
  next : {a b : Aggregate} → Run s a → Step a b → Run s b

abbrev pub IsCoherent : Aggregate → Type 0
IsCoherent a = children_compatible a.parent a.children ≡ true

children_compatible-nonempty :
    (parent : Parent) (children : List Item)
    → children_compatible parent children ≡ true
    → children ≢ []
unfolding children_compatible
children_compatible-nonempty parent [] h e = cc
children_compatible-nonempty parent (x ∷ xs) h e = cc

Step-IsCoherent : {a b : Aggregate} → Step a b → IsCoherent a → IsCoherent b
Step-IsCoherent {a} (parent_moves target t e) h = rw e (
    parent_step-children_compatible a.parent target a.children
      (children_compatible-nonempty a.parent a.children h) t)
Step-IsCoherent {a} (item_moves before old new after c t e) h =
    rw e (item_step-children_compatible before old new after a.parent t (rw c at h))

-- If the items of an operation are coherent with its state, they are so after any run of accepted
-- transitions of the operation and of single items.
pub Run-IsCoherent : {s a : Aggregate} → IsCoherent s → Run s a → IsCoherent a
Run-IsCoherent h here = h
Run-IsCoherent h (next r t) = Step-IsCoherent t (Run-IsCoherent h r)

abbrev parent_rank : Parent → ℕ
parent_rank Parent.prepared = 0
parent_rank Parent.awaiting_confirmation = 1
parent_rank Parent.failed_pre_dispatch = 2
parent_rank Parent.dispatching = 3
parent_rank Parent.outcome_unknown = 4
parent_rank _ = 5

abbrev item_rank : Item → ℕ
item_rank Item.prepared = 0
item_rank Item.awaiting_confirmation = 1
item_rank Item.failed_pre_dispatch = 2
item_rank Item.dispatching = 3
item_rank Item.outcome_unknown = 4
item_rank _ = 5

abbrev items_rank : List Item → ℕ
items_rank [] = 0
items_rank (x ∷ xs) = item_rank x + items_rank xs

abbrev rank : Aggregate → ℕ
rank a = parent_rank a.parent + items_rank a.children

parent_step-rank :
    (source target : Parent) (children : List Item)
    → parent_step source target children ≡ true
    → suc (parent_rank source) ≤ parent_rank target
unfolding parent_step
parent_step-rank source target children h = ground arith

item_step-rank :
    (old new : Item) (parent : Parent)
    → item_step old new parent ≡ true
    → suc (item_rank old) ≤ item_rank new
unfolding item_step
item_step-rank old new parent h = ground arith

items_rank-replace :
    (before : List Item) (old new : Item) (after : List Item)
    → suc (item_rank old) ≤ item_rank new
    → suc (items_rank (before ++ old ∷ after)) ≤ items_rank (before ++ new ∷ after)
items_rank-replace [] old new after h = omega arith
items_rank-replace (x ∷ before) old new after h =
    omega (arith, items_rank-replace before old new after h)

Step-rank : {a b : Aggregate} → Step a b → suc (rank a) ≤ rank b
Step-rank {a} (parent_moves target t e) =
    rw e (omega (arith, parent_step-rank a.parent target a.children t))
Step-rank {a} (item_moves before old new after c t e) =
    rw (e, c)
      (omega (arith, items_rank-replace before old new after (item_step-rank old new a.parent t)))

item_rank-le : (x : Item) → item_rank x ≤ 5
item_rank-le x = ground arith

items_rank-le : (xs : List Item) → items_rank xs ≤ 5 * length xs
items_rank-le [] = omega arith
items_rank-le (x ∷ xs) = omega (arith, items_rank-le xs, item_rank-le x)

parent_rank-le : (x : Parent) → parent_rank x ≤ 5
parent_rank-le x = ground arith

length-replace :
    (before : List Item) (old new : Item) (after : List Item)
    → length (before ++ new ∷ after) ≡ length (before ++ old ∷ after)
length-replace [] old new after = refl
length-replace (x ∷ before) old new after = ap suc (length-replace before old new after)

Step-length : {a b : Aggregate} → Step a b → length b.children ≡ length a.children
Step-length {a} (parent_moves target t e) = rw e
Step-length {a} (item_moves before old new after c t e) =
    rw (e, c) (length-replace before old new after)

abbrev pub steps : {s a : Aggregate} → Run s a → ℕ
steps here = 0
steps (next r t) = suc (steps r)

pub Run-length : {s a : Aggregate} → Run s a → length a.children ≡ length s.children
Run-length here = refl
Run-length (next r t) = Step-length t ∙ Run-length r

Run-rank : {s a : Aggregate} (r : Run s a) → steps r + rank s ≤ rank a
Run-rank here = omega arith
Run-rank (next r t) = omega (arith, Run-rank r, Step-rank t)

-- A run of accepted transitions, from any states of an operation with n items, has at most
-- 5 * (n + 1) transitions.
pub steps_bounded : {s a : Aggregate} (r : Run s a) → steps r ≤ 5 * (length s.children + 1)
steps_bounded {s} {a} r =
    omega (arith, Run-rank r, Run-length r, items_rank-le a.children, parent_rank-le a.parent)

abbrev pub settled : Parent → Bool
settled Parent.succeeded = true
settled Parent.provider_rejected = true
settled Parent.needs_manual_review = true
settled Parent.expired = true
settled Parent.cancelled = true
settled _ = false

settled_parent :
    (source target : Parent) (children : List Item)
    → settled source ≡ true
    → parent_step source target children ≡ false
unfolding parent_step
settled_parent source target children h = ground arith

settled_item :
    (old new : Item) (parent : Parent) → settled parent ≡ true → item_step old new parent ≡ false
unfolding item_step
settled_item old new parent h = ground arith

-- Once the parent has succeeded, was rejected, needs manual review, has expired or was cancelled,
-- neither it nor any of its items moves again.
pub settled_absorbs : {a b : Aggregate} → settled a.parent ≡ true → ¬ Step a b
settled_absorbs {a} h (parent_moves target t e) = cc (settled_parent a.parent target a.children h)
settled_absorbs {a} h (item_moves before old new after c t e) = cc (settled_item old new a.parent h)

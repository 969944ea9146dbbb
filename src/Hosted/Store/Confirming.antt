-- ===== src/Hosted/Store/Confirming.antt =====
-- What `create_operation` of execution/hosted/store.py has established when it confirms a preview.
use mercury_tools.Prelude.{
  ℕ, str_eq_iff, true, false, none, some, List, [], ◌∷◌, ◌==◌, leb, Result, Result-cases, ok, err,
  ◌>>◌, Option-cases, inl, inr, ◌≡◌, refl, arith, subst, All,
}
use mercury_tools.Hosted.Transitions.{
  ParentOperationState as Parent, OperationItemState as Item, same_parent, same_item,
}
use mercury_tools.Hosted.Operations.{
  Checks, OperationItem, OperationEvent, HostedOperation, operation_valid,
}
use mercury_tools.Hosted.Operations.History.{IsFresh, IsFreshItem, IsFreshEvent}
use mercury_tools.Hosted.Previews.{DocumentPreview, StoredPreviewItem, confirmed, move_preview}
use mercury_tools.Hosted.Previews.Laws.{PreviewMoved, move_preview-ok}
use mercury_tools.Hosted.Confirmation.{operation_matches_preview, binds, event_matches, items_match}
use mercury_tools.Hosted.Store.Authority.{HostedError, operation_conflict}
use mercury_tools.Hosted.Store.State.{HostedStore, World}
use mercury_tools.Hosted.Store.Previews.{recoded}
use mercury_tools.Hosted.Store.Operations.{
  confirming, revalidate_operation_authority, confirm_preview, admit_operation,
}
use mercury_tools.Hosted.Store.Maps.{is_some-none}

pub record Confirming (checks : Checks) (world : World) (s : HostedStore) (op : HostedOperation)
    (expected : ℕ) (moved : DocumentPreview) : Type 0 where
  pub valid : operation_valid checks op ≡ true
  pub unlinked : s.operation_by_preview op.preview_id ≡ none
  pub preview : DocumentPreview
  pub held : s.previews op.preview_id ≡ some preview
  pub authority : revalidate_operation_authority world preview ≡ ok tt
  pub matches : operation_matches_preview op preview ≡ true
  pub new_id : s.operations op.operation_id ≡ none
  pub current : (preview.state_version == expected) ≡ true
  pub in_time : leb preview.expires_at world.now ≡ false
  pub confirms : PreviewMoved preview confirmed op.created_at moved

pub recoded-ok :
    {A : Type 0} (e : HostedError) (r : Result _ A) {a : A} → recoded e r ≡ ok a → r ≡ ok a
recoded-ok e (ok a) h = cc h
recoded-ok e (err x) h = absurd (ground arith)

pub unit_ok :
    (r : Result HostedError (Unit {0})) {A : Type 0} (k : Result HostedError A) {a : A}
    → r >> k ≡ ok a
    → (r ≡ ok tt) × (k ≡ ok a)
unit_ok (ok tt) k h = (refl, h)
unit_ok (err e) k h = absurd (ground arith)

confirm_preview-ok :
    (checks : Checks) (world : World) (s : HostedStore) (op : HostedOperation)
    (preview : DocumentPreview) (expected : ℕ) {moved : DocumentPreview}
    → operation_valid checks op ≡ true
    → s.operation_by_preview op.preview_id ≡ none
    → s.previews op.preview_id ≡ some preview
    → confirm_preview world s op preview expected ≡ ok moved
    → Confirming checks world s op expected moved
unfolding confirm_preview
confirm_preview-ok checks world s op preview expected {moved} valid unlinked held h =
    let (authority, rest) = unit_ok (revalidate_operation_authority world preview) _ h in
    let move = move_preview preview confirmed op.created_at (some op.payload_purge_after) in
    let final : recoded operation_conflict move ≡ ok moved = ground arith in
    record {
      valid = valid;
      unlinked = unlinked;
      preview = preview;
      held = held;
      authority = authority;
      matches = ground arith;
      new_id = is_some-none (s.operations op.operation_id) (ground arith);
      current = ground arith;
      in_time = ground arith;
      confirms =
          move_preview-ok preview confirmed op.created_at (some op.payload_purge_after)
            (recoded-ok operation_conflict move final);
    }

known_not_confirming :
    (checks : Checks) (world : World) (s : HostedStore) (op : HostedOperation) (expected : ℕ)
    (preview : DocumentPreview) (id : ℕ) {moved : DocumentPreview}
    → s.previews op.preview_id ≡ some preview
    → s.operation_by_preview op.preview_id ≡ some id
    → ¬ (admit_operation checks world s op expected ≡ ok (confirming moved))
unfolding admit_operation
known_not_confirming checks world s op expected preview id held linked h =
    elim (Option-cases (s.operations id)) [
      | inl missing ↦ absurd (ground arith)
      | inr (known, there) ↦ absurd (ground arith)
    ]

pub admit_operation-confirming :
    (checks : Checks) (world : World) (s : HostedStore) (op : HostedOperation) (expected : ℕ)
    {moved : DocumentPreview}
    → admit_operation checks world s op expected ≡ ok (confirming moved)
    → Confirming checks world s op expected moved
unfolding admit_operation
admit_operation-confirming checks world s op expected {moved} h =
    elim (Option-cases (s.previews op.preview_id)) [
      | inl missing ↦ absurd (ground arith)
      | inr (preview, held) ↦ elim (Option-cases (s.operation_by_preview op.preview_id)) [
        | inr (id, linked) ↦
            absurd (known_not_confirming checks world s op expected preview id held linked h)
        | inl unlinked ↦ elim (Result-cases (confirm_preview world s op preview expected)) [
          | inr (e, bad) ↦ absurd (ground arith)
          | inl (m, good) ↦
              let same : m ≡ moved = ground arith in
              confirm_preview-ok checks world s op preview expected (ground arith) unlinked held (
                subst (λ (x : DocumentPreview). confirm_preview world s op preview expected ≡ ok x)
                  same good)
        ]
      ]
    ]

same_item-eq :
    (x : Item) → same_item x Item.awaiting_confirmation ≡ true → x ≡ Item.awaiting_confirmation
same_item-eq x h = ground arith

same_parent-eq :
    (x : Parent)
    → same_parent x Parent.awaiting_confirmation ≡ true
    → x ≡ Parent.awaiting_confirmation
same_parent-eq x h = ground arith

-- The items of an operation that matches a preview are fresh.
items_match-fresh :
    (op : HostedOperation) (is : List OperationItem) (ps : List StoredPreviewItem)
    → items_match op is ps ≡ true
    → All IsFreshItem is
items_match-fresh op [] ps h = tt
items_match-fresh op (i ∷ is) [] h = absurd (ground arith)
items_match-fresh op (i ∷ is) (p ∷ ps) h =
    ((same_item-eq i.state (ground arith), ground arith), items_match-fresh op is ps (ground arith))

fresh_event :
    (op : HostedOperation) (e : OperationEvent) → event_matches op (e ∷ []) ≡ true → IsFreshEvent e
fresh_event op e h = record {
  about_parent = is_some-none e.operation_item_id (ground arith);
  from_nothing = is_some-none e.from_state (ground arith);
  to_awaiting = (str_eq_iff e.to_state "awaiting_confirmation").0 (ground arith);
  first = ground arith;
}

matches-IsFresh :
    (checks : Checks) (op : HostedOperation) (es : List OperationEvent)
    → op.events ≡ es
    → operation_valid checks op ≡ true
    → op.state ≡ Parent.awaiting_confirmation
    → op.state_version ≡ 1
    → All IsFreshItem op.items
    → event_matches op es ≡ true
    → IsFresh checks op
matches-IsFresh checks op [] e v s n is h = absurd (ground arith)
matches-IsFresh checks op (x ∷ []) e v s n is h = record {
  valid = v;
  awaiting = s;
  version = n;
  fresh_items = is;
  event = x;
  one_event = e;
  fresh_event = fresh_event op x h;
}
matches-IsFresh checks op (x ∷ y ∷ es) e v s n is h = absurd (ground arith)

-- An operation that is valid and matches a preview is as a confirmation makes it.
pub operation_matches-IsFresh :
    (checks : Checks) (op : HostedOperation) (p : DocumentPreview)
    → operation_valid checks op ≡ true
    → operation_matches_preview op p ≡ true
    → IsFresh checks op × (binds op p ≡ true)
unfolding operation_matches_preview
operation_matches-IsFresh checks op p v h = (
  matches-IsFresh checks op op.events refl v (same_parent-eq op.state (ground arith)) (ground arith)
      (items_match-fresh op op.items p.items (ground arith)) (ground arith),
  ground arith,
)

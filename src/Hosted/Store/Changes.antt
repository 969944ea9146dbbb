-- ===== src/Hosted/Store/Changes.antt =====
-- What each method of execution/hosted/store.py does to the store.
use mercury_tools.Prelude.{
  ℕ, String, true, Option, none, some, ◌==◌, Result, Result-cases, ok, err, ◌>>◌, Option-cases, inl,
  inr, ◌≡◌, sym, ap, ◌∙◌, arith,
}
use mercury_tools.Hosted.Transitions.{ParentOperationState as Parent, OperationItemState as Item}
use mercury_tools.Hosted.Operations.{
  Checks, OperationItem, HostedOperation, ModelError, move_operation, move_operation_item,
  matches_from, only_match,
}
use mercury_tools.Hosted.Previews.{DocumentPreview, PreviewState, move_preview}
use mercury_tools.Hosted.Previews.Laws.{PreviewMoved, move_preview-ok}
use mercury_tools.Hosted.Store.Authority.{preview_state_invalid}
use mercury_tools.Hosted.Store.State.{
  HostedStore, World, Scope, preview_in_scope, operation_in_scope, returned_preview,
  returned_operation,
}
use mercury_tools.Hosted.Store.Previews.{
  admit_preview, create_preview, get_preview, next_preview, transition_preview, recoded,
}
use mercury_tools.Hosted.Store.Operations.{
  existing, confirming, admit_operation, create_operation, get_operation, dispatch_allowed,
  next_operation, transition_operation, or_invalid, next_item, transition_operation_item,
}
use mercury_tools.Hosted.Store.Confirming.{admit_operation-confirming, recoded-ok, unit_ok}
use mercury_tools.Hosted.Store.Sound.Previews.{admit_preview-none}
use mercury_tools.Hosted.Store.Calls.{
  Call, creates_preview, transitions_preview, creates_operation, transitions_operation,
  transitions_item, apply_call, Change, unchanged, added, preview_moved, preview_confirmed,
  operation_moved, item_moved,
}

create_preview-Change :
    (checks : Checks) (p : DocumentPreview) (s : HostedStore)
    → Change checks s (create_preview p s).1
unfolding create_preview
create_preview-Change checks p s = elim (Result-cases (admit_preview s p)) [
  | inr (e, bad) ↦ unchanged (ground arith)
  | inl (none, good) ↦ added p (admit_preview-none s p good) (ground arith)
  | inl (some q, good) ↦ unchanged (ground arith)
]

returned_preview-ok :
    (p : DocumentPreview) {q : DocumentPreview} → returned_preview p ≡ ok q → q ≡ p
unfolding returned_preview
returned_preview-ok p h = ground arith

pub returned_operation-ok :
    (checks : Checks) (op : HostedOperation) {o : HostedOperation}
    → returned_operation checks op ≡ ok o
    → o ≡ op
unfolding returned_operation
returned_operation-ok checks op h = ground arith

-- What `get_preview` returns is in the store, in the caller's scope.
pub get_preview-ok :
    (scope : Scope) (id : ℕ) (s : HostedStore) {p : DocumentPreview}
    → get_preview scope id s ≡ ok p
    → (s.previews id ≡ some p) × (preview_in_scope scope p ≡ true)
unfolding get_preview
get_preview-ok scope id s {p} h = elim (Option-cases (s.previews id)) [
  | inl missing ↦ absurd (ground arith)
  | inr (q, found) ↦
      let same : p ≡ q = returned_preview-ok q (ground arith) in
      (found ∙ ap some (sym same), ground arith)
]

pub get_operation-ok :
    (checks : Checks) (scope : Scope) (id : ℕ) (s : HostedStore) {op : HostedOperation}
    → get_operation checks scope id s ≡ ok op
    → (s.operations id ≡ some op) × (operation_in_scope scope op ≡ true)
unfolding get_operation
get_operation-ok checks scope id s {op} h = elim (Option-cases (s.operations id)) [
  | inl missing ↦ absurd (ground arith)
  | inr (q, found) ↦
      let same : op ≡ q = returned_operation-ok checks q (ground arith) in
      (found ∙ ap some (sym same), ground arith)
]

-- What `transition_preview` has established when it assigns.
pub next_preview-ok :
    (scope : Scope) (id expected : ℕ) (target : PreviewState) (at : ℕ) (s : HostedStore)
    {p : DocumentPreview}
    → next_preview scope id expected target at s ≡ ok p
    → (self : DocumentPreview) × (s.previews id ≡ some self) × PreviewMoved self target at p
unfolding next_preview
next_preview-ok scope id expected target at s {p} h = elim (Result-cases (get_preview scope id s)) [
  | inr (e, bad) ↦ absurd (ground arith)
  | inl (self, good) ↦
      let found = get_preview-ok scope id s good in
      let final : recoded preview_state_invalid (move_preview self target at none) ≡ ok p =
        ground arith in
      (
        self,
        found.0,
        move_preview-ok self target at none (recoded-ok preview_state_invalid _ final),
      )
]

transition_preview-Change :
    (checks : Checks) (scope : Scope) (id expected : ℕ) (target : PreviewState) (at : ℕ)
    (s : HostedStore)
    → Change checks s (transition_preview scope id expected target at s).1
unfolding transition_preview
transition_preview-Change checks scope id expected target at s =
    elim (Result-cases (next_preview scope id expected target at s)) [
      | inr (e, bad) ↦ unchanged (ground arith)
      | inl (p, good) ↦
          let (self, found, m) = next_preview-ok scope id expected target at s good in
          preview_moved id self p target at found m (ground arith)
    ]

create_operation-Change :
    (checks : Checks) (world : World) (op : HostedOperation) (expected : ℕ) (s : HostedStore)
    → Change checks s (create_operation checks world op expected s).1
unfolding create_operation
create_operation-Change checks world op expected s =
    elim (Result-cases (admit_operation checks world s op expected)) [
      | inr (e, bad) ↦ unchanged (ground arith)
      | inl (existing known, good) ↦ unchanged (ground arith)
      | inl (confirming moved, good) ↦
          preview_confirmed world op expected moved
            (admit_operation-confirming checks world s op expected good) (ground arith)
    ]

or_invalid-ok : {A : Type 0} (r : Result ModelError A) {a : A} → or_invalid r ≡ ok a → r ≡ ok a
or_invalid-ok (ok a) h = cc h
or_invalid-ok (err e) h = absurd (ground arith)

-- What `transition_operation` has established when it assigns.
pub record NextOperation (checks : Checks) (world : World) (scope : Scope) (id expected : ℕ)
    (target : Parent) (event_id at : ℕ) (reason : String) (s : HostedStore) (op : HostedOperation)
    : Type 0 where
  pub self : HostedOperation
  pub found : s.operations id ≡ some self
  pub in_scope : operation_in_scope scope self ≡ true
  pub current : (self.state_version == expected) ≡ true
  pub allowed : dispatch_allowed world s self target ≡ ok tt
  pub moves : move_operation checks self target event_id at reason ≡ ok op

pub next_operation-ok :
    (checks : Checks) (world : World) (scope : Scope) (id expected : ℕ) (target : Parent)
    (event_id at : ℕ) (reason : String) (s : HostedStore) {op : HostedOperation}
    → next_operation checks world scope id expected target event_id at reason s ≡ ok op
    → NextOperation checks world scope id expected target event_id at reason s op
unfolding next_operation
next_operation-ok checks world scope id expected target event_id at reason s {op} h =
    elim (Result-cases (get_operation checks scope id s)) [
      | inr (e, bad) ↦ absurd (ground arith)
      | inl (self, good) ↦
          let found = get_operation-ok checks scope id s good in
          let move = move_operation checks self target event_id at reason in
          let rest : dispatch_allowed world s self target >> or_invalid move ≡ ok op =
            ground arith in
          let (allowed, final) =
            unit_ok (dispatch_allowed world s self target) (or_invalid move) rest in
          record {
            self = self;
            found = found.0;
            in_scope = found.1;
            current = ground arith;
            allowed = allowed;
            moves = or_invalid-ok move final;
          }
    ]

transition_operation-Change :
    (checks : Checks) (world : World) (scope : Scope) (id expected : ℕ) (target : Parent)
    (event_id at : ℕ) (reason : String) (s : HostedStore)
    → Change checks s
        (transition_operation checks world scope id expected target event_id at reason s).1
unfolding transition_operation
transition_operation-Change checks world scope id expected target event_id at reason s =
    elim (Result-cases
      (next_operation checks world scope id expected target event_id at reason s)) [
        | inr (e, bad) ↦ unchanged (ground arith)
        | inl (op, good) ↦
            let n =
              next_operation-ok checks world scope id expected target event_id at reason s good in
            operation_moved id n.self op target event_id at reason n.found n.moves (ground arith)
      ]

-- What `transition_operation_item` has established when it assigns.
pub record NextItem (checks : Checks) (scope : Scope) (id item_id expected : ℕ) (target : Item)
    (event_id at : ℕ) (reason : String) (given : Option String) (s : HostedStore)
    (op : HostedOperation) : Type 0 where
  pub self : HostedOperation
  pub found : s.operations id ≡ some self
  pub in_scope : operation_in_scope scope self ≡ true
  pub index : ℕ
  pub item : OperationItem
  pub matched : only_match (matches_from 0 item_id self.items) ≡ some (index, item)
  pub current : (item.state_version == expected) ≡ true
  pub moves : move_operation_item checks self item_id target event_id at reason given ≡ ok op

pub next_item-ok :
    (checks : Checks) (scope : Scope) (id item_id expected : ℕ) (target : Item) (event_id at : ℕ)
    (reason : String) (given : Option String) (s : HostedStore) {op : HostedOperation}
    → next_item checks scope id item_id expected target event_id at reason given s ≡ ok op
    → NextItem checks scope id item_id expected target event_id at reason given s op
unfolding next_item
next_item-ok checks scope id item_id expected target event_id at reason given s {op} h =
    elim (Result-cases (get_operation checks scope id s)) [
      | inr (e, bad) ↦ absurd (ground arith)
      | inl (self, good) ↦
          let found = get_operation-ok checks scope id s good in
          let move = move_operation_item checks self item_id target event_id at reason given in
          elim (Option-cases (only_match (matches_from 0 item_id self.items))) [
            | inl missing ↦ absurd (ground arith)
            | inr ((index, item), matched) ↦
                let final : or_invalid move ≡ ok op = ground arith in
                record {
                  self = self;
                  found = found.0;
                  in_scope = found.1;
                  index = index;
                  item = item;
                  matched = matched;
                  current = ground arith;
                  moves = or_invalid-ok move final;
                }
          ]
    ]

transition_operation_item-Change :
    (checks : Checks) (scope : Scope) (id item_id expected : ℕ) (target : Item) (event_id at : ℕ)
    (reason : String) (given : Option String) (s : HostedStore)
    → Change checks s
        (transition_operation_item checks scope id item_id expected target event_id at reason given
          s).1
unfolding transition_operation_item
transition_operation_item-Change checks scope id item_id expected target event_id at reason given
      s =
    elim (Result-cases
      (next_item checks scope id item_id expected target event_id at reason given s)) [
        | inr (e, bad) ↦ unchanged (ground arith)
        | inl (op, good) ↦
            let n =
              next_item-ok checks scope id item_id expected target event_id at reason given s
                good in
            item_moved id n.self op item_id target event_id at reason given n.found n.moves
              (ground arith)
      ]

-- Every call leaves the store, or adds a preview, or moves one preview, operation or item.
pub apply_call-Change :
    (checks : Checks) (world : World) (call : Call) (s : HostedStore)
    → Change checks s (apply_call checks world call s)
unfolding apply_call
apply_call-Change checks world (creates_preview p) s = create_preview-Change checks p s
apply_call-Change checks world (transitions_preview scope id expected target at) s =
    transition_preview-Change checks scope id expected target at s
apply_call-Change checks world (creates_operation op expected) s =
    create_operation-Change checks world op expected s
apply_call-Change checks world (transitions_operation scope id expected target event_id at reason)
      s =
    transition_operation-Change checks world scope id expected target event_id at reason s
apply_call-Change checks world
      (transitions_item scope id item_id expected target event_id at reason r) s =
    transition_operation_item-Change checks scope id item_id expected target event_id at reason r s

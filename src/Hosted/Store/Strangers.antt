-- ===== src/Hosted/Store/Strangers.antt =====
-- What a caller who does not own an operation of execution/hosted/store.py can do with it.
use mercury_tools.Prelude.{
  ℕ, String, true, false, ◌==◌, nat_eq, nat_ne, Bool-cases, Option, none, some, some_same, List, [],
  ◌∷◌, All, All-map, err, Result-cases, inl, inr, ◌≡◌, sym, ap, ◌∙◌, arith, subst, not_both,
}
use mercury_tools.Hosted.Transitions.{ParentOperationState as Parent, OperationItemState as Item}
use mercury_tools.Hosted.Operations.{Checks, HostedOperation}
use mercury_tools.Hosted.Operations.Identity.{identity}
use mercury_tools.Hosted.Operations.Progress.{Later-identity}
use mercury_tools.Hosted.Previews.{DocumentPreview, PreviewState}
use mercury_tools.Hosted.Store.Authority.{HostedError, operation_not_found}
use mercury_tools.Hosted.Store.State.{HostedStore, World, Scope, put, operation_in_scope}
use mercury_tools.Hosted.Store.Previews.{
  create_preview, admit_preview, transition_preview, next_preview,
}
use mercury_tools.Hosted.Store.Operations.{
  get_operation, next_operation, transition_operation, next_item, transition_operation_item,
  create_operation, admit_operation, with_operation, existing, confirming,
}
use mercury_tools.Hosted.Store.Maps.{put-other}
use mercury_tools.Hosted.Store.Confirming.{admit_operation-confirming}
use mercury_tools.Hosted.Store.Calls.{
  Call, creates_preview, transitions_preview, creates_operation, transitions_operation,
  transitions_item, apply_call, serve,
}
use mercury_tools.Hosted.Store.Changes.{next_operation-ok, next_item-ok}
use mercury_tools.Hosted.Store.Concurrency.{serve-Later}

-- The caller has the tenant, the user and the workspace of the operation.
abbrev pub IsOwner : Scope → HostedOperation → Type 0
IsOwner scope op =
    (op.tenant_id ≡ scope.tenant_id)
    × (op.auth_user_id ≡ scope.auth_user_id)
    × (op.workspace_id ≡ scope.workspace_id)

-- A call that is not a transition of an operation or an item by its owner.
abbrev pub IsForeign : HostedOperation → World × Call → Type 0
IsForeign op (world, transitions_operation scope id expected target event_id at reason) =
    ¬ (IsOwner scope op)
IsForeign op (world, transitions_item scope id item_id expected target event_id at reason r) =
    ¬ (IsOwner scope op)
IsForeign op (world, creates_preview p) = Unit
IsForeign op (world, transitions_preview scope id expected target at) = Unit
IsForeign op (world, creates_operation new expected) = Unit

in_scope-IsOwner :
    (scope : Scope) (op : HostedOperation) → operation_in_scope scope op ≡ true → IsOwner scope op
in_scope-IsOwner scope op h = (
  nat_eq op.tenant_id scope.tenant_id (ground arith),
  nat_eq op.auth_user_id scope.auth_user_id (ground arith),
  nat_eq op.workspace_id scope.workspace_id (ground arith),
)

out_of_scope :
    (scope : Scope) (op : HostedOperation)
    → ¬ (IsOwner scope op)
    → operation_in_scope scope op ≡ false
out_of_scope scope op h = elim (Bool-cases (operation_in_scope scope op)) [
  | inl e ↦ absurd (h (in_scope-IsOwner scope op e))
  | inr e ↦ e
]

get_operation-stranger :
    (checks : Checks) (scope : Scope) (id : ℕ) (s : HostedStore) (op : HostedOperation)
    → s.operations id ≡ some op
    → operation_in_scope scope op ≡ false
    → get_operation checks scope id s ≡ err operation_not_found
unfolding get_operation
get_operation-stranger checks scope id s op found h = ground arith

transition_operation-error :
    (checks : Checks) (world : World) (scope : Scope) (id expected : ℕ) (target : Parent)
    (event_id at : ℕ) (reason : String) (s : HostedStore) (e : HostedError)
    → get_operation checks scope id s ≡ err e
    → transition_operation checks world scope id expected target event_id at reason s ≡ (err e, s)
unfolding transition_operation next_operation
transition_operation-error checks world scope id expected target event_id at reason s e h =
    ground arith

transition_item-error :
    (checks : Checks) (scope : Scope) (id item_id expected : ℕ) (target : Item) (event_id at : ℕ)
    (reason : String) (given : Option String) (s : HostedStore) (e : HostedError)
    → get_operation checks scope id s ≡ err e
    → transition_operation_item checks scope id item_id expected target event_id at reason given s
      ≡ (err e, s)
unfolding transition_operation_item next_item
transition_item-error checks scope id item_id expected target event_id at reason given s e h =
    ground arith

still_there :
    (s t : HostedStore) (id : ℕ) (op : HostedOperation)
    → t ≡ s
    → s.operations id ≡ some op
    → t.operations id ≡ some op
still_there s t id op e found = ap (λ (x : HostedStore). x.operations id) e ∙ found

create_preview-operations :
    (p : DocumentPreview) (s : HostedStore) (id : ℕ) (op : HostedOperation)
    → s.operations id ≡ some op
    → (create_preview p s).1.operations id ≡ some op
unfolding create_preview
create_preview-operations p s id op found = elim (Result-cases (admit_preview s p)) [
  | inr (e, bad) ↦ ground (arith, found)
  | inl (none, good) ↦ ground (arith, found)
  | inl (some known, good) ↦ ground (arith, found)
]

transition_preview-operations :
    (scope : Scope) (k expected : ℕ) (target : PreviewState) (at : ℕ) (s : HostedStore) (id : ℕ)
    (op : HostedOperation)
    → s.operations id ≡ some op
    → (transition_preview scope k expected target at s).1.operations id ≡ some op
unfolding transition_preview
transition_preview-operations scope k expected target at s id op found =
    elim (Result-cases (next_preview scope k expected target at s)) [
      | inr (e, bad) ↦ ground (arith, found)
      | inl (p, good) ↦ ground (arith, found)
    ]

-- An operation that the caller does not own is not the one that its scope let it move.
not_moved :
    (s : HostedStore) (id k : ℕ) (op self : HostedOperation) (scope : Scope)
    → s.operations id ≡ some op
    → ¬ (IsOwner scope op)
    → s.operations k ≡ some self
    → operation_in_scope scope self ≡ true
    → (id == k) ≡ false
not_moved s id k op self scope found foreign there own = nat_ne id k (λ here.
    let same : self ≡ op = some_same (sym there ∙ ap s.operations (sym here) ∙ found) in
    foreign (subst (IsOwner scope) same (in_scope-IsOwner scope self own)))

create_operation-operations :
    (checks : Checks) (world : World) (new : HostedOperation) (expected : ℕ) (s : HostedStore)
    (id : ℕ) (op : HostedOperation)
    → s.operations id ≡ some op
    → (create_operation checks world new expected s).1.operations id ≡ some op
unfolding create_operation
create_operation-operations checks world new expected s id op found =
    elim (Result-cases (admit_operation checks world s new expected)) [
      | inr (e, bad) ↦
          still_there s (create_operation checks world new expected s).1 id op (ground arith) found
      | inl (existing known, good) ↦
          still_there s (create_operation checks world new expected s).1 id op (ground arith) found
      | inl (confirming moved, good) ↦
          let c = admit_operation-confirming checks world s new expected good in
          let other =
            nat_ne id new.operation_id
              (λ here. absurd (not_both c.new_id (ap s.operations (sym here) ∙ found))) in
          still_there (with_operation new moved s) (create_operation checks world new expected s).1
            id op (ground arith) (put-other new.operation_id new s.operations id other ∙ found)
    ]

transition_operation-foreign :
    (checks : Checks) (world : World) (scope : Scope) (k expected : ℕ) (target : Parent)
    (event_id at : ℕ) (reason : String) (s : HostedStore) (id : ℕ) (op : HostedOperation)
    → s.operations id ≡ some op
    → ¬ (IsOwner scope op)
    → (transition_operation checks world scope k expected target event_id at reason s).1.operations
        id
      ≡ some op
unfolding transition_operation
transition_operation-foreign checks world scope k expected target event_id at reason s id op found
      foreign =
    elim (Result-cases (next_operation checks world scope k expected target event_id at reason s)) [
      | inr (e, bad) ↦
          still_there s
            (transition_operation checks world scope k expected target event_id at reason s).1 id op
            (ground arith) found
      | inl (new, good) ↦
          let n =
            next_operation-ok checks world scope k expected target event_id at reason s good in
          let other = not_moved s id k op n.self scope found foreign n.found n.in_scope in
          still_there (record s { operations = put k new s.operations })
            (transition_operation checks world scope k expected target event_id at reason s).1 id op
            (ground arith) (put-other k new s.operations id other ∙ found)
    ]

transition_item-foreign :
    (checks : Checks) (scope : Scope) (k item_id expected : ℕ) (target : Item) (event_id at : ℕ)
    (reason : String) (given : Option String) (s : HostedStore) (id : ℕ) (op : HostedOperation)
    → s.operations id ≡ some op
    → ¬ (IsOwner scope op)
    → (transition_operation_item checks scope k item_id expected target event_id at reason given
          s).1.operations
        id
      ≡ some op
unfolding transition_operation_item
transition_item-foreign checks scope k item_id expected target event_id at reason given s id op
      found foreign =
    elim (Result-cases
      (next_item checks scope k item_id expected target event_id at reason given s)) [
        | inr (e, bad) ↦
            still_there s
              (transition_operation_item checks scope k item_id expected target event_id at reason
                given s).1
              id op (ground arith) found
        | inl (new, good) ↦
            let n =
              next_item-ok checks scope k item_id expected target event_id at reason given s good in
            let other = not_moved s id k op n.self scope found foreign n.found n.in_scope in
            still_there (record s { operations = put k new s.operations })
              (transition_operation_item checks scope k item_id expected target event_id at reason
                given s).1
              id op (ground arith) (put-other k new s.operations id other ∙ found)
      ]

-- A call of a stranger leaves the operation.
apply_call-foreign :
    (checks : Checks) (world : World) (call : Call) (s : HostedStore) (id : ℕ)
    (op : HostedOperation)
    → s.operations id ≡ some op
    → IsForeign op (world, call)
    → (apply_call checks world call s).operations id ≡ some op
unfolding apply_call
apply_call-foreign checks world (creates_preview p) s id op found foreign =
    create_preview-operations p s id op found
apply_call-foreign checks world (transitions_preview scope k expected target at) s id op found
      foreign =
    transition_preview-operations scope k expected target at s id op found
apply_call-foreign checks world (creates_operation new expected) s id op found foreign =
    create_operation-operations checks world new expected s id op found
apply_call-foreign checks world (transitions_operation scope k expected target event_id at reason) s
      id op found foreign =
    transition_operation-foreign checks world scope k expected target event_id at reason s id op
      found foreign
apply_call-foreign checks world
      (transitions_item scope k item_id expected target event_id at reason r) s id op found
      foreign =
    transition_item-foreign checks scope k item_id expected target event_id at reason r s id op
      found foreign

serve-foreign :
    (checks : Checks) (calls : List (World × Call)) (s : HostedStore) (id : ℕ)
    (op : HostedOperation)
    → s.operations id ≡ some op
    → All (IsForeign op) calls
    → (serve checks calls s).operations id ≡ some op
unfolding serve
serve-foreign checks [] s id op found foreign = found
serve-foreign checks ((world, call) ∷ calls) s id op found foreign =
    serve-foreign checks calls (apply_call checks world call s) id op
      (apply_call-foreign checks world call s id op found foreign.0) foreign.1

IsForeign-later :
    (op o : HostedOperation) (call : World × Call)
    → identity o ≡ identity op
    → IsForeign op call
    → IsForeign o call
IsForeign-later op o (world, creates_preview p) e h = tt
IsForeign-later op o (world, transitions_preview scope id expected target at) e h = tt
IsForeign-later op o (world, creates_operation new expected) e h = tt
IsForeign-later op o (world, transitions_operation scope id expected target event_id at reason) e
      h =
    λ own. h (subst (λ (x : HostedOperation). IsOwner scope x) e own)
IsForeign-later op o (world, transitions_item scope id item_id expected target event_id at reason r)
      e h =
    λ own. h (subst (λ (x : HostedOperation). IsOwner scope x) e own)

-- Whatever calls there were since an operation was in the store: a caller of another tenant, user or
-- workspace is told that it does not exist when it reads it, moves it or moves an item of it, which
-- changes nothing; and any calls of callers of other tenants, users or workspaces, with new previews and
-- operations and moves of previews by anyone between them, leave the operation as it is.
pub stranger_refused :
    (checks : Checks) (calls theirs : List (World × Call)) (world : World) (scope : Scope)
    (id item_id expected : ℕ) (target : Parent) (item_target : Item) (event_id at : ℕ)
    (reason : String) (given : Option String) (s : HostedStore) (op : HostedOperation)
    → s.operations id ≡ some op
    → ¬ (IsOwner scope op)
    → All (IsForeign op) theirs
    → let after = serve checks calls s in
      (get_operation checks scope id after ≡ err operation_not_found)
      × (transition_operation checks world scope id expected target event_id at reason after
          ≡ (err operation_not_found, after))
      × (transition_operation_item checks scope id item_id expected item_target event_id at reason
            given after
          ≡ (err operation_not_found, after))
      × ((serve checks theirs after).operations id ≡ after.operations id)
stranger_refused checks calls theirs world scope id item_id expected target item_target event_id at
      reason given s op found h foreign =
    let (o, there, l) = serve-Later checks calls s id op found in
    let out =
      out_of_scope scope o
        (λ own. h (subst (λ (x : HostedOperation). IsOwner scope x) (Later-identity l) own)) in
    let after = serve checks calls s in
    let missing = get_operation-stranger checks scope id after o there out in
    (
      missing,
      transition_operation-error checks world scope id expected target event_id at reason after
          operation_not_found missing,
      transition_item-error checks scope id item_id expected item_target event_id at reason given
          after operation_not_found missing,
      serve-foreign checks theirs after id o there (
            All-map
              (λ (c : World × Call) (f : IsForeign op c).
                IsForeign-later op o c (Later-identity l) f)
              theirs foreign)
          ∙ sym there,
    )

-- ===== src/Hosted/Store/Calls.antt =====
-- Sequences of calls of the store of execution/hosted/store.py. The lock of the store makes the calls
-- of several threads one sequence. The methods that only read leave the store alone by their types.
use mercury_tools.Prelude.{ℕ, String, Option, some, List, [], ◌∷◌, ok, ◌≡◌}
use mercury_tools.Hosted.Transitions.{ParentOperationState as Parent, OperationItemState as Item}
use mercury_tools.Hosted.Operations.{Checks, HostedOperation, move_operation, move_operation_item}
use mercury_tools.Hosted.Previews.{DocumentPreview, PreviewState}
use mercury_tools.Hosted.Previews.Laws.{PreviewMoved}
use mercury_tools.Hosted.Store.State.{HostedStore, World, Scope, put}
use mercury_tools.Hosted.Store.Previews.{create_preview, with_preview, transition_preview}
use mercury_tools.Hosted.Store.Operations.{
  create_operation, with_operation, transition_operation, transition_operation_item,
}
use mercury_tools.Hosted.Store.Confirming.{Confirming}
use mercury_tools.Hosted.Store.Sound.Previews.{Admitted}

-- One call of a method that writes, with its arguments.
pub data Call : Type 0 where
  creates_preview : DocumentPreview → Call
  transitions_preview : Scope → ℕ → ℕ → PreviewState → ℕ → Call
  creates_operation : HostedOperation → ℕ → Call
  transitions_operation : Scope → ℕ → ℕ → Parent → ℕ → ℕ → String → Call
  transitions_item : Scope → ℕ → ℕ → ℕ → Item → ℕ → ℕ → String → Option String → Call

-- The store after a call, which returned or raised.
unfoldable pub apply_call : Checks → World → Call → HostedStore → HostedStore
apply_call checks world (creates_preview p) s = (create_preview p s).1
apply_call checks world (transitions_preview scope id expected target at) s =
    (transition_preview scope id expected target at s).1
apply_call checks world (creates_operation op expected) s =
    (create_operation checks world op expected s).1
apply_call checks world (transitions_operation scope id expected target event_id at reason) s =
    (transition_operation checks world scope id expected target event_id at reason s).1
apply_call checks world (transitions_item scope id item_id expected target event_id at reason r) s =
    (transition_operation_item checks scope id item_id expected target event_id at reason r s).1

-- The store after calls, each with what it reads outside the store.
unfoldable pub serve : Checks → List (World × Call) → HostedStore → HostedStore
serve checks [] s = s
serve checks ((world, call) ∷ calls) s = serve checks calls (apply_call checks world call s)

-- What a call may do to the store.
pub data Change (checks : Checks) (s : HostedStore) (s' : HostedStore) : Type 0 where
  unchanged : s' ≡ s → Change checks s s'
  added : (p : DocumentPreview) → Admitted s p → s' ≡ with_preview p s → Change checks s s'
  preview_moved :
      (id : ℕ) (self p : DocumentPreview) (target : PreviewState) (at : ℕ)
      → s.previews id ≡ some self
      → PreviewMoved self target at p
      → s' ≡ record s { previews = put id p s.previews }
      → Change checks s s'
  preview_confirmed :
      (world : World) (op : HostedOperation) (expected : ℕ) (moved : DocumentPreview)
      → Confirming checks world s op expected moved
      → s' ≡ with_operation op moved s
      → Change checks s s'
  operation_moved :
      (id : ℕ) (self op : HostedOperation) (target : Parent) (event_id at : ℕ) (reason : String)
      → s.operations id ≡ some self
      → move_operation checks self target event_id at reason ≡ ok op
      → s' ≡ record s { operations = put id op s.operations }
      → Change checks s s'
  item_moved :
      (id : ℕ) (self op : HostedOperation) (item_id : ℕ) (target : Item) (event_id at : ℕ)
      (reason : String) (given : Option String)
      → s.operations id ≡ some self
      → move_operation_item checks self item_id target event_id at reason given ≡ ok op
      → s' ≡ record s { operations = put id op s.operations }
      → Change checks s s'

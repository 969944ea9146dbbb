-- ===== src/Hosted/Store/Invariant.antt =====
-- The invariant of the store of execution/hosted/store.py over every sequence of calls.
use mercury_tools.Prelude.{ℕ, some, List, [], ◌∷◌, ◌≡◌, sym, ap, ◌∙◌, subst}
use mercury_tools.Hosted.Operations.{Checks, HostedOperation}
use mercury_tools.Hosted.Operations.History.{moved as moved_history, item_moved as item_history}
use mercury_tools.Hosted.Operations.Identity.{moved-identity, item_moved-identity}
use mercury_tools.Hosted.Previews.{DocumentPreview}
use mercury_tools.Hosted.Store.State.{HostedStore, World, empty_store}
use mercury_tools.Hosted.Store.Operations.{with_operation}
use mercury_tools.Hosted.Store.Confirming.{Confirming}
use mercury_tools.Hosted.Store.Sound.Previews.{
  IsPreviewsSound, with_preview-IsPreviewsSound, put-PreviewsSound, PreviewMoved-SameCalls,
}
use mercury_tools.Hosted.Store.Sound.Operations.{
  IsOperationsSound, with_preview-IsOperationsSound, put_moved-OperationsSound,
  put_operation-OperationsSound, with_operation-IsOperationsSound,
}
use mercury_tools.Hosted.Store.Calls.{
  Call, apply_call, serve, Change, unchanged, added, preview_moved, preview_confirmed,
  operation_moved, item_moved,
}
use mercury_tools.Hosted.Store.Changes.{apply_call-Change}

-- The previews are sound by themselves, and the operations over them.
abbrev pub IsSound : Checks → HostedStore → Type 0
IsSound checks s = IsPreviewsSound s × IsOperationsSound checks s

pub empty_store-IsSound : (checks : Checks) → IsSound checks empty_store
empty_store-IsSound checks = (
  record {
    kept = λ id p h. absurd (cc h);
    called = λ id p h. absurd (cc h);
    known = λ key id h. absurd (cc h);
    item_called = λ id p key h k. absurd (cc h);
    item_unique = λ id id' p p' key h h' k k'. absurd (cc h);
  },
  record { held = λ id op h. absurd (cc h); linked_held = λ preview_id id h. absurd (cc h) },
)

module _ {checks : Checks} {s : HostedStore} where
  confirmed-IsSound :
      (world : World) (op : HostedOperation) (expected : ℕ) (moved : DocumentPreview)
      → Confirming checks world s op expected moved
      → IsSound checks s
      → IsSound checks (with_operation op moved s)
  confirmed-IsSound world op expected moved c i =
      let same = PreviewMoved-SameCalls c.confirms in
      let there : s.previews moved.preview_id ≡ some c.preview =
        ap s.previews (same.same_id ∙ (i.0.kept op.preview_id c.preview c.held).0) ∙ c.held in
      (
        put-PreviewsSound i.0 moved.preview_id c.preview moved there c.confirms.valid same,
        with_operation-IsOperationsSound checks s i.1 c,
      )

  pub Change-IsSound :
      {s' : HostedStore} → Change checks s s' → IsSound checks s → IsSound checks s'
  Change-IsSound (unchanged e) i = subst (IsSound checks) (sym e) i
  Change-IsSound (added p a e) i =
      subst (IsSound checks) (sym e)
        (with_preview-IsPreviewsSound i.0 a, with_preview-IsOperationsSound checks s i.1 p a)
  Change-IsSound (preview_moved id self p target at there m e) i = subst (IsSound checks) (sym e) (
    put-PreviewsSound i.0 id self p there m.valid (PreviewMoved-SameCalls m),
    put_moved-OperationsSound checks s i.1 id self p target at there m,
  )
  Change-IsSound (preview_confirmed world op expected moved c e) i =
      subst (IsSound checks) (sym e) (confirmed-IsSound world op expected moved c i)
  Change-IsSound (operation_moved id self op target event_id at reason there m e) i =
      subst (IsSound checks) (sym e) (
        i.0,
        put_operation-OperationsSound checks s i.1 id self op there
            (λ start h. moved_history target event_id at reason h m)
            (moved-identity checks self target event_id at reason m),
      )
  Change-IsSound (item_moved id self op item_id target event_id at reason given there m e) i =
      subst (IsSound checks) (sym e) (
        i.0,
        put_operation-OperationsSound checks s i.1 id self op there
            (λ start h. item_history item_id target event_id at reason given h m)
            (item_moved-identity checks self item_id target event_id at reason given m),
      )

-- Any calls keep the store sound: each operation comes from a confirmation by transitions that did not
-- raise, is linked to one confirmed preview with its identity, and the keys of provider calls are those
-- of the previews.
pub store_calls-IsSound :
    (checks : Checks) (calls : List (World × Call)) (s : HostedStore)
    → IsSound checks s
    → IsSound checks (serve checks calls s)
unfolding serve
store_calls-IsSound checks [] s i = i
store_calls-IsSound checks ((world, call) ∷ calls) s i =
    store_calls-IsSound checks calls (apply_call checks world call s)
      (Change-IsSound (apply_call-Change checks world call s) i)

-- ===== src/Hosted/Store/Acceptance.antt =====
-- A confirmation of a preview in time succeeds (execution/hosted/store.py with
-- `HostedOperation.from_preview`).
use mercury_tools.Prelude.{
  ℕ, ◌+◌, true, false, Option, none, some, List, ltb, leb, ◌==◌, ok, Option-cases, inl, inr, ◌≡◌,
  sym, ap, ◌∙◌, arith, some_same,
}
use mercury_tools.Hosted.Operations.{
  Checks, HostedOperation, operation_valid, confirmed_payload_retention,
}
use mercury_tools.Hosted.Previews.{
  DocumentPreview, awaiting_confirmation, confirmed, preview_valid, move_preview,
  with_preview_state, preview_ttl, unconfirmed_payload_retention, preview_fixed,
  preview_items_valid, preview_indexed_from, times_fit,
}
use mercury_tools.Hosted.Previews.Confirm.{move_preview-confirmed, expires-fixed}
use mercury_tools.Hosted.Confirmation.{
  new_operation, first_event, from_preview, operation_matches_preview,
}
use mercury_tools.Hosted.Confirmation.New.{made, AreFit, from_preview-made, new_operation-valid}
use mercury_tools.Hosted.Confirmation.Matching.{new_operation-matches}
use mercury_tools.Hosted.Store.State.{HostedStore, World}
use mercury_tools.Hosted.Store.Operations.{
  confirm_preview, admit_operation, create_operation, with_operation,
  revalidate_operation_authority,
}
use mercury_tools.Hosted.Store.Concurrency.{returned_valid}
use mercury_tools.Hosted.Store.Invariant.{IsSound}

-- What the validity of a preview that awaits confirmation gives.
record AwaitingFit (p : DocumentPreview) : Type 0 where
  fixed : preview_fixed p ≡ true
  items : preview_items_valid p ≡ true
  purge : p.payload_purge_after ≡ p.expires_at + unconfirmed_payload_retention
  expiry : p.expires_at ≡ p.created_at + preview_ttl

purge_exact :
    (confirmed_at cancelled_at : Option ℕ) (purge unconfirmed : ℕ)
    → times_fit awaiting_confirmation confirmed_at cancelled_at purge unconfirmed ≡ true
    → purge ≡ unconfirmed
purge_exact none none purge unconfirmed h = ground arith
purge_exact (some a) cancelled_at purge unconfirmed h = absurd (ground arith)
purge_exact none (some a) purge unconfirmed h = absurd (ground arith)

valid-AwaitingFit :
    (p : DocumentPreview) → preview_valid p ≡ true → p.state ≡ awaiting_confirmation → AwaitingFit p
unfolding preview_valid
valid-AwaitingFit p v a =
    let fixed : preview_fixed p ≡ true = ground arith in
    let times : times_fit awaiting_confirmation p.confirmed_at p.cancelled_at p.payload_purge_after
          (p.expires_at + unconfirmed_payload_retention)
        ≡ true =
      ground arith in
    record {
      fixed = fixed;
      items = ground arith;
      purge = purge_exact p.confirmed_at p.cancelled_at p.payload_purge_after _ times;
      expiry = expires-fixed p fixed;
    }

purge_late :
    (p : DocumentPreview) (now : ℕ)
    → AwaitingFit p
    → ltb now p.created_at ≡ false
    → ltb (now + confirmed_payload_retention) p.payload_purge_after ≡ false
purge_late p now f h = ground (arith, f.purge, f.expiry)

purge_long :
    (p : DocumentPreview) (now : ℕ)
    → AwaitingFit p
    → ltb now p.created_at ≡ false
    → leb (p.expires_at + unconfirmed_payload_retention) (now + confirmed_payload_retention) ≡ true
purge_long p now f h = ground (arith, f.expiry)

not_past : (a b : ℕ) → ltb a b ≡ true → leb b a ≡ false
not_past a b h = ground arith

leb_refl : (a : ℕ) → leb a a ≡ true
leb_refl a = ground arith

items-indexed :
    (p : DocumentPreview) → preview_items_valid p ≡ true → preview_indexed_from 0 p.items ≡ true
unfolding preview_items_valid
items-indexed p h = ground arith

-- A preview that awaits confirmation has no operation in a sound store.
awaiting-unlinked :
    (checks : Checks) (s : HostedStore) (id : ℕ) (p : DocumentPreview)
    → IsSound checks s
    → s.previews id ≡ some p
    → p.state ≡ awaiting_confirmation
    → s.operation_by_preview id ≡ none
awaiting-unlinked checks s id p i found a = elim (Option-cases (s.operation_by_preview id)) [
  | inl free ↦ free
  | inr (operation_id, linked) ↦
      let (op, there, of_preview) = i.1.linked_held id operation_id linked in
      let h = i.1.held operation_id op there in
      let is : h.preview ≡ p = some_same (sym h.preview_held ∙ ap s.previews of_preview ∙ found) in
      let bad : awaiting_confirmation ≡ confirmed =
        sym a ∙ ap (λ (x : DocumentPreview). x.state) (sym is) ∙ h.preview_confirmed in
      absurd (cc bad)
]

confirming_returns :
    (checks : Checks) (world : World) (s : HostedStore) (op : HostedOperation) (expected : ℕ)
    (p moved : DocumentPreview)
    → operation_valid checks op ≡ true
    → s.previews op.preview_id ≡ some p
    → s.operation_by_preview op.preview_id ≡ none
    → revalidate_operation_authority world p ≡ ok tt
    → operation_matches_preview op p ≡ true
    → s.operations op.operation_id ≡ none
    → (p.state_version == expected) ≡ true
    → leb p.expires_at world.now ≡ false
    → move_preview p confirmed op.created_at (some op.payload_purge_after) ≡ ok moved
    → create_operation checks world op expected s ≡ (ok op, with_operation op moved s)
unfolding create_operation admit_operation confirm_preview
confirming_returns checks world s op expected p moved v held free authority matches new current
      in_time m =
    ground (arith, returned_valid checks op v)

-- What a confirmation needs: a preview of the store that awaits confirmation in the version that the
-- caller expects, its authority, identifiers that are not used, and both clocks before its expiry.
pub record IsConfirmable (checks : Checks) (world : World) (s : HostedStore) (p : DocumentPreview)
    (operation_id : ℕ) (ids : List ℕ) (now expected : ℕ) : Type 0 where
  pub held : s.previews p.preview_id ≡ some p
  pub awaiting : p.state ≡ awaiting_confirmation
  pub current : (p.state_version == expected) ≡ true
  pub authority : revalidate_operation_authority world p ≡ ok tt
  pub fit : AreFit checks p operation_id ids
  pub new_id : s.operations operation_id ≡ none
  pub created_before : ltb now p.created_at ≡ false
  pub expires_after_now : ltb now p.expires_at ≡ true
  pub clock_in_time : leb p.expires_at world.now ≡ false

module _ (checks : Checks) (world : World) (s : HostedStore) (p : DocumentPreview)
    (operation_id : ℕ) (ids : List ℕ) (event_id now expected : ℕ) where
  -- In a sound store, `from_preview` makes an operation of a preview that is confirmable, and
  -- `create_operation` stores it, returns it and confirms the preview.
  pub confirmation_succeeds :
      IsSound checks s
      → IsConfirmable checks world s p operation_id ids now expected
      → (op : HostedOperation) × (from_preview checks p operation_id ids event_id now ≡ ok op)
        × (create_operation checks world op expected s ≡ (
          ok op,
          with_operation op
              (with_preview_state p confirmed now (now + confirmed_payload_retention))
              s,
        ))
  confirmation_succeeds i c =
      let v = (i.0.kept p.preview_id p c.held).1 in
      let f = valid-AwaitingFit p v c.awaiting in
      let op =
        new_operation p operation_id (made now 0 ids p.items)
          (first_event operation_id event_id now) now in
      (
        op,
        from_preview-made checks p operation_id ids event_id now v c.fit,
        confirming_returns checks world s op expected p
            (with_preview_state p confirmed now (now + confirmed_payload_retention))
            (new_operation-valid checks p operation_id ids event_id now c.fit f.items f.fixed)
            c.held (awaiting-unlinked checks s p.preview_id p i c.held c.awaiting) c.authority
            (new_operation-matches p operation_id ids event_id now c.fit.enough
              (items-indexed p f.items) c.created_before c.expires_after_now
              (purge_late p now f c.created_before))
            c.new_id c.current c.clock_in_time
            (move_preview-confirmed p now (now + confirmed_payload_retention) v c.awaiting
              c.created_before (not_past now p.expires_at c.expires_after_now)
              (purge_long p now f c.created_before) (leb_refl (now + confirmed_payload_retention))),
      )

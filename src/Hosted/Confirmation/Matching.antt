-- ===== src/Hosted/Confirmation/Matching.antt =====
-- The operation that `from_preview` makes matches its preview (`_operation_matches_preview` of
-- execution/hosted/store.py).
use mercury_tools.Prelude.{
  str_eq_refl, nat_refl, ℕ, suc, ◌+◌, true, false, List, [], ◌∷◌, length, ltb, ◌==◌, ◌≡◌, refl,
  arith,
}
use mercury_tools.Hosted.Operations.{HostedOperation, OperationItem, confirmed_payload_retention}
use mercury_tools.Hosted.Previews.{StoredPreviewItem, DocumentPreview, preview_indexed_from}
use mercury_tools.Hosted.Confirmation.{
  new_item, new_operation, first_event, binds, item_matches, items_match, operation_matches_preview,
}
use mercury_tools.Hosted.Confirmation.New.{made, length-made}

new_item-matches :
    (op : HostedOperation) (id n : ℕ) (p : StoredPreviewItem)
    → (p.item_index == n) ≡ true
    → item_matches op (new_item op.created_at id n p) p ≡ true
new_item-matches op id n p h = ground (
  arith,
  str_eq_refl p.client_item_id,
  str_eq_refl p.provider_call_hash,
  str_eq_refl p.preview_integrity_hash,
)

made-matches :
    (op : HostedOperation) (n : ℕ) (ids : List ℕ) (ps : List StoredPreviewItem)
    → (length ids == length ps) ≡ true
    → preview_indexed_from n ps ≡ true
    → items_match op (made op.created_at n ids ps) ps ≡ true
made-matches op n [] [] l i = refl
made-matches op n [] (p ∷ ps) l i = absurd (ground arith)
made-matches op n (id ∷ ids) [] l i = absurd (ground arith)
made-matches op n (id ∷ ids) (p ∷ ps) l i =
    ground (arith, new_item-matches op id n p, made-matches op (suc n) ids ps)

new_operation-binds :
    (p : DocumentPreview) (operation_id now : ℕ) (is : List OperationItem) (event_id : ℕ)
    → binds (new_operation p operation_id is (first_event operation_id event_id now) now) p ≡ true
new_operation-binds p operation_id now is event_id = ground (
  arith,
  str_eq_refl p.provider,
  str_eq_refl p.environment,
  str_eq_refl p.capability_id,
  str_eq_refl p.capability_version,
  str_eq_refl p.provider_call_hash,
  str_eq_refl p.preview_integrity_hash,
)

-- The operation matches the preview if it is made between the preview's creation and its expiry.
pub new_operation-matches :
    (p : DocumentPreview) (operation_id : ℕ) (ids : List ℕ) (event_id now : ℕ)
    → (length ids == length p.items) ≡ true
    → preview_indexed_from 0 p.items ≡ true
    → ltb now p.created_at ≡ false
    → ltb now p.expires_at ≡ true
    → ltb (now + confirmed_payload_retention) p.payload_purge_after ≡ false
    → operation_matches_preview
        (new_operation p operation_id
          (made now 0 ids p.items)
          (first_event operation_id event_id now)
          now)
        p
      ≡ true
unfolding operation_matches_preview
new_operation-matches p operation_id ids event_id now l i created expires purge =
    let is = made now 0 ids p.items in
    let op = new_operation p operation_id is (first_event operation_id event_id now) now in
    rw
      (
        new_operation-binds p operation_id now is event_id,
        length-made now 0 ids p.items l,
        made-matches op 0 ids p.items l i,
      )
      (ground (arith, nat_refl now, nat_refl (length p.items)))

-- ===== src/Hosted/Previews/Confirm.antt =====
-- A preview that awaits confirmation can be confirmed in time (execution/hosted/models.py).
use mercury_tools.Prelude.{
  ℕ, suc, ◌+◌, true, false, some, List, [], ◌∷◌, length, all, is_empty, ltb, leb, ok, ◌≡◌, refl, ap,
  arith,
}
use mercury_tools.Hosted.Operations.{confirmed_payload_retention}
use mercury_tools.Hosted.Previews.Models.{
  awaiting_confirmation, confirmed, StoredPreviewItem, DocumentPreview, preview_valid,
  checked_preview, with_preview_state, move_preview, each, with_purge, preview_fixed,
  preview_items_valid, preview_item_valid, item_bound, preview_ttl, unconfirmed_payload_retention,
  preview_indexed_from,
}

each-with_purge :
    {A : Type 0} (f : StoredPreviewItem → A) (purge : ℕ) (is : List StoredPreviewItem)
    → ((i : StoredPreviewItem) → f (with_purge purge i) ≡ f i)
    → each f (each (with_purge purge) is) ≡ each f is
each-with_purge f purge [] h = refl
each-with_purge f purge (i ∷ is) h = rw (h i, each-with_purge f purge is h) refl

length-each :
    {A : Type 0} (f : StoredPreviewItem → A) (is : List StoredPreviewItem)
    → length (each f is) ≡ length is
length-each f [] = refl
length-each f (i ∷ is) = ap suc (length-each f is)

indexed-with_purge :
    (purge n : ℕ) (is : List StoredPreviewItem)
    → preview_indexed_from n (each (with_purge purge) is) ≡ preview_indexed_from n is
indexed-with_purge purge n [] = refl
indexed-with_purge purge n (i ∷ is) = rw (indexed-with_purge purge (suc n) is) refl

is_empty-each :
    (f : StoredPreviewItem → StoredPreviewItem) (is : List StoredPreviewItem)
    → is_empty (each f is) ≡ is_empty is
is_empty-each f [] = refl
is_empty-each f (i ∷ is) = refl

pub expires-fixed :
    (p : DocumentPreview) → preview_fixed p ≡ true → p.expires_at ≡ p.created_at + preview_ttl
unfolding preview_fixed
expires-fixed p h = ground arith

module _ (self : DocumentPreview) (at purge : ℕ) where
  purged_item :
      (i : StoredPreviewItem)
      → leb (self.created_at + preview_ttl + unconfirmed_payload_retention) purge ≡ true
      → leb purge (self.created_at + preview_ttl + confirmed_payload_retention) ≡ true
      → preview_item_valid i ≡ true
      → item_bound self i ≡ true
      → (preview_item_valid (with_purge purge i) ≡ true)
        × (item_bound (with_preview_state self confirmed at purge) (with_purge purge i) ≡ true)
  unfolding preview_item_valid
  purged_item i from to v b = ground arith

  purged_items :
      (is : List StoredPreviewItem)
      → leb (self.created_at + preview_ttl + unconfirmed_payload_retention) purge ≡ true
      → leb purge (self.created_at + preview_ttl + confirmed_payload_retention) ≡ true
      → all preview_item_valid is ≡ true
      → all (item_bound self) is ≡ true
      → (all preview_item_valid (each (with_purge purge) is) ≡ true)
        × (all
              (item_bound (with_preview_state self confirmed at purge))
              (each (with_purge purge) is)
            ≡ true)
  purged_items [] from to v b = (refl, refl)
  purged_items (i ∷ is) from to v b = ground (arith, purged_item i from to, purged_items is from to)

  fixed-with_state : preview_fixed (with_preview_state self confirmed at purge) ≡ preview_fixed self
  unfolding preview_fixed
  fixed-with_state = refl

  items_valid-with_state :
      leb (self.created_at + preview_ttl + unconfirmed_payload_retention) purge ≡ true
      → leb purge (self.created_at + preview_ttl + confirmed_payload_retention) ≡ true
      → preview_items_valid self ≡ true
      → preview_items_valid (with_preview_state self confirmed at purge) ≡ true
  unfolding preview_items_valid
  items_valid-with_state from to v =
      let is = self.items in
      let (bounded, bound) = purged_items is from to (ground arith) (ground arith) in
      rw
        (
          is_empty-each (with_purge purge) is,
          length-each (with_purge purge) is,
          each-with_purge (λ i. i.client_item_id) purge is (λ i. refl),
          each-with_purge (λ i. i.preview_item_id) purge is (λ i. refl),
          each-with_purge (λ i. i.provider_call_hash) purge is (λ i. refl),
          each-with_purge (λ i. i.preview_integrity_hash) purge is (λ i. refl),
          indexed-with_purge purge 0 is,
          bounded,
          bound,
        )
        (ground arith)

  pub confirmed-preview_valid :
      preview_valid self ≡ true
      → self.state ≡ awaiting_confirmation
      → leb self.expires_at at ≡ false
      → leb (self.expires_at + unconfirmed_payload_retention) purge ≡ true
      → leb purge (at + confirmed_payload_retention) ≡ true
      → preview_valid (with_preview_state self confirmed at purge) ≡ true
  unfolding preview_valid
  confirmed-preview_valid v a in_time from to =
      let expiry : self.expires_at ≡ self.created_at + preview_ttl =
        expires-fixed self (ground arith) in
      ground (arith, a, expiry, fixed-with_state, items_valid-with_state)

  -- A valid preview that awaits confirmation is confirmed at any time from its creation to its
  -- expiry, with any purge time in the bounds.
  pub move_preview-confirmed :
      preview_valid self ≡ true
      → self.state ≡ awaiting_confirmation
      → ltb at self.created_at ≡ false
      → leb self.expires_at at ≡ false
      → leb (self.expires_at + unconfirmed_payload_retention) purge ≡ true
      → leb purge (at + confirmed_payload_retention) ≡ true
      → move_preview self confirmed at (some purge)
        ≡ ok (with_preview_state self confirmed at purge)
  unfolding move_preview checked_preview
  move_preview-confirmed v a late in_time from to =
      ground (arith, confirmed-preview_valid v a in_time from to)

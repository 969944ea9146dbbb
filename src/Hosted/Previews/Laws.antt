-- ===== src/Hosted/Previews/Laws.antt =====
-- What a transition of a preview in execution/hosted/models.py does.
use mercury_tools.Prelude.{
  ℕ, true, false, ◌&&◌, Option, ltb, leb, Result-cases, ok, Bool-cases, inl, inr, ◌≡◌, arith,
}
use mercury_tools.Hosted.Previews.Models.{
  PreviewState, confirmed, DocumentPreview, preview_in, preview_transitions, same_preview_state,
  preview_valid, checked_preview, purge_after, with_preview_state, move_preview,
}

checked_preview-ok :
    (p : DocumentPreview) {q : DocumentPreview}
    → checked_preview p ≡ ok q
    → (q ≡ p) × (preview_valid p ≡ true)
unfolding checked_preview
checked_preview-ok p {q} h = elim (Bool-cases (preview_valid p)) [
  | inl v ↦ (ground arith, v)
  | inr v ↦ absurd (ground arith)
]

-- What a transition of a preview does when it does not raise.
pub record PreviewMoved (self : DocumentPreview) (target : PreviewState) (at : ℕ)
    (p : DocumentPreview) : Type 0 where
  pub allowed : preview_in (preview_transitions self.state) target ≡ true
  pub created_first : ltb at self.created_at ≡ false
  pub in_time : same_preview_state target confirmed && leb self.expires_at at ≡ false
  pub purge : ℕ
  pub result : p ≡ with_preview_state self target at purge
  pub valid : preview_valid p ≡ true

pub move_preview-ok :
    (self : DocumentPreview) (target : PreviewState) (at : ℕ) (given : Option ℕ)
    {p : DocumentPreview}
    → move_preview self target at given ≡ ok p
    → PreviewMoved self target at p
unfolding move_preview
move_preview-ok self target at given {p} h =
    elim (Result-cases (purge_after target given self.payload_purge_after)) [
      | inr (e, bad) ↦ absurd (ground arith)
      | inl (purge, good) ↦
          let final : checked_preview (with_preview_state self target at purge) ≡ ok p =
            ground arith in
          let (same, valid) = checked_preview-ok (with_preview_state self target at purge) final in
          record {
            allowed = ground arith;
            created_first = ground arith;
            in_time = ground arith;
            purge = purge;
            result = same;
            valid = rw same valid;
          }
    ]

-- ===== src/Hosted/Store/Sound/Operations.antt =====
-- The operations of the store of execution/hosted/store.py and the previews that they confirm.
use mercury_tools.Prelude.{
  ℕ, true, Option, some, ◌==◌, Bool-cases, inl, inr, ◌≡◌, refl, sym, ap, ◌∙◌, arith, subst,
  not_both, some_same, nat_eq, nat_ne,
}
use mercury_tools.Hosted.Operations.{Checks, HostedOperation}
use mercury_tools.Hosted.Operations.History.{History, confirmed as new_history}
use mercury_tools.Hosted.Operations.Identity.{identity}
use mercury_tools.Hosted.Previews.{
  DocumentPreview, PreviewState, confirmed, preview_in, preview_transitions,
}
use mercury_tools.Hosted.Previews.Laws.{PreviewMoved}
use mercury_tools.Hosted.Confirmation.{binds}
use mercury_tools.Hosted.Store.State.{HostedStore, World, put}
use mercury_tools.Hosted.Store.Previews.{with_preview}
use mercury_tools.Hosted.Store.Operations.{with_operation}
use mercury_tools.Hosted.Store.Maps.{put-same, put-other, put-cases}
use mercury_tools.Hosted.Store.Confirming.{Confirming, operation_matches-IsFresh}
use mercury_tools.Hosted.Store.Sound.Previews.{Admitted}

-- What holds of an operation that the store has under an identifier.
pub record Held (checks : Checks) (previews : ℕ → Option DocumentPreview) (links : ℕ → Option ℕ)
    (id : ℕ) (op : HostedOperation) : Type 0 where
  pub own_id : op.operation_id ≡ id
  pub start : HostedOperation
  pub history : History checks start op
  pub linked : links op.preview_id ≡ some id
  pub preview : DocumentPreview
  pub preview_held : previews op.preview_id ≡ some preview
  pub preview_confirmed : preview.state ≡ confirmed
  pub bound : binds op preview ≡ true

pub record OperationsSound (checks : Checks) (previews : ℕ → Option DocumentPreview)
    (links : ℕ → Option ℕ) (operations : ℕ → Option HostedOperation) : Type 0 where
  pub held :
      (id : ℕ) (op : HostedOperation) → operations id ≡ some op → Held checks previews links id op
  pub linked_held :
      (preview_id id : ℕ)
      → links preview_id ≡ some id
      → (op : HostedOperation) × (operations id ≡ some op) × (op.preview_id ≡ preview_id)

abbrev pub IsOperationsSound : Checks → HostedStore → Type 0
IsOperationsSound checks s = OperationsSound checks s.previews s.operation_by_preview s.operations

-- The same operation, with the same preview and link elsewhere.
Held-elsewhere :
    {checks : Checks} {previews previews' : ℕ → Option DocumentPreview}
    {links links' : ℕ → Option ℕ} {id : ℕ} {op : HostedOperation}
    (h : Held checks previews links id op)
    → previews' op.preview_id ≡ some h.preview
    → links' op.preview_id ≡ some id
    → Held checks previews' links' id op
Held-elsewhere h there link = record {
  own_id = h.own_id;
  start = h.start;
  history = h.history;
  linked = link;
  preview = h.preview;
  preview_held = there;
  preview_confirmed = h.preview_confirmed;
  bound = h.bound;
}

binds-preview_id :
    (op : HostedOperation) (p : DocumentPreview) → binds op p ≡ true → op.preview_id ≡ p.preview_id
binds-preview_id op p h = ground arith

module _ (checks : Checks) (s : HostedStore) (i : IsOperationsSound checks s) where
  -- Assigning to a preview that no operation confirms.
  put_free :
      (id : ℕ) (p : DocumentPreview)
      → ((q : DocumentPreview) → s.previews id ≡ some q → ¬ (q.state ≡ confirmed))
      → OperationsSound checks (put id p s.previews) s.operation_by_preview s.operations
  put_free id p free = record {
    held = λ k op there.
        let h = i.held k op there in
        let other = nat_ne op.preview_id id (λ same.
          free h.preview (ap s.previews (sym same) ∙ h.preview_held) h.preview_confirmed) in
        Held-elsewhere h (put-other id p s.previews op.preview_id other ∙ h.preview_held) h.linked;
    linked_held = i.linked_held;
  }

  pub with_preview-IsOperationsSound :
      (p : DocumentPreview) → Admitted s p → IsOperationsSound checks (with_preview p s)
  with_preview-IsOperationsSound p a =
      put_free p.preview_id p (λ q there. absurd (not_both a.new_id there))

  confirmed_stays :
      (q : DocumentPreview) (target : PreviewState)
      → preview_in (preview_transitions q.state) target ≡ true
      → ¬ (q.state ≡ confirmed)
  confirmed_stays q target h e = absurd (ground arith)

  -- A transition of a preview other than its confirmation.
  pub put_moved-OperationsSound :
      (id : ℕ) (self p : DocumentPreview) (target : PreviewState) (at : ℕ)
      → s.previews id ≡ some self
      → PreviewMoved self target at p
      → OperationsSound checks (put id p s.previews) s.operation_by_preview s.operations
  put_moved-OperationsSound id self p target at there m = put_free id p (λ q found.
      confirmed_stays q target (
        subst (λ (x : DocumentPreview). preview_in (preview_transitions x.state) target ≡ true)
          (some_same (sym there ∙ found)) m.allowed))

  -- A transition of an operation, or of an item of it.
  pub put_operation-OperationsSound :
      (id : ℕ) (self op : HostedOperation)
      → s.operations id ≡ some self
      → ((start : HostedOperation) → History checks start self → History checks start op)
      → identity op ≡ identity self
      → OperationsSound checks s.previews s.operation_by_preview (put id op s.operations)
  put_operation-OperationsSound id self op there step same = record {
    held = λ k o found. elim (put-cases id op s.operations k found) [
      | inl (here, is) ↦
          let h = i.held id self there in
          subst (λ (k : ℕ). Held checks s.previews s.operation_by_preview k o) (sym here)
            (subst (Held checks s.previews s.operation_by_preview id) (sym is) (record {
              own_id = ap (λ (x : HostedOperation). x.operation_id) same ∙ h.own_id;
              start = h.start;
              history = step h.start h.history;
              linked =
                  ap s.operation_by_preview (ap (λ (x : HostedOperation). x.preview_id) same)
                  ∙ h.linked;
              preview = h.preview;
              preview_held =
                  ap s.previews (ap (λ (x : HostedOperation). x.preview_id) same) ∙ h.preview_held;
              preview_confirmed = h.preview_confirmed;
              bound = ap (λ (x : HostedOperation). binds x h.preview) same ∙ h.bound;
            }))
      | inr (other, old) ↦ i.held k o old
    ];
    linked_held = λ preview_id k link.
        let (o, found, of_preview) = i.linked_held preview_id k link in
        elim (Bool-cases (k == id)) [
          | inl e ↦
              let is : o ≡ self = some_same (sym found ∙ ap s.operations (nat_eq k id e) ∙ there) in
              (
                op,
                put-same id op s.operations k (nat_eq k id e),
                ap (λ (x : HostedOperation). x.preview_id) same
                    ∙ ap (λ (x : HostedOperation). x.preview_id) (sym is)
                    ∙ of_preview,
              )
          | inr e ↦ (o, put-other id op s.operations k e ∙ found, of_preview)
        ];
  }

  module _ {world : World} {op : HostedOperation} {expected : ℕ} {moved : DocumentPreview}
      (c : Confirming checks world s op expected moved) where
    moved_id : moved.preview_id ≡ op.preview_id
    moved_id =
        let (fresh, bound) = operation_matches-IsFresh checks op c.preview c.valid c.matches in
        ap (λ (p : DocumentPreview). p.preview_id) c.confirms.result
        ∙ sym (binds-preview_id op c.preview bound)

    moved_state : moved.state ≡ confirmed
    moved_state = ap (λ (p : DocumentPreview). p.state) c.confirms.result

    confirmed-Held :
        (id : ℕ) (o : HostedOperation)
        → put op.operation_id op s.operations id ≡ some o
        → Held checks
            (put moved.preview_id moved s.previews)
            (put op.preview_id op.operation_id s.operation_by_preview)
            id
            o
    confirmed-Held id o found = elim (put-cases op.operation_id op s.operations id found) [
      | inl (here, is) ↦
          let (fresh, bound) = operation_matches-IsFresh checks op c.preview c.valid c.matches in
          subst
            (λ (k : ℕ).
              Held checks (put moved.preview_id moved s.previews)
                (put op.preview_id op.operation_id s.operation_by_preview) k o)
            (sym here)
            (subst
              (Held checks (put moved.preview_id moved s.previews)
                (put op.preview_id op.operation_id s.operation_by_preview) op.operation_id)
              (sym is)
              (record {
                own_id = refl;
                start = op;
                history = new_history fresh;
                linked =
                    put-same op.preview_id op.operation_id s.operation_by_preview op.preview_id
                      refl;
                preview = moved;
                preview_held =
                    put-same moved.preview_id moved s.previews op.preview_id (sym moved_id);
                preview_confirmed = moved_state;
                bound = ap (binds op) c.confirms.result ∙ bound;
              }))
      | inr (other, old) ↦
          let h = i.held id o old in
          let away = nat_ne o.preview_id op.preview_id (λ same.
            absurd (not_both c.unlinked (ap s.operation_by_preview (sym same) ∙ h.linked))) in
          let away_too = nat_ne o.preview_id moved.preview_id (λ same. absurd (
            not_both c.unlinked
              (ap s.operation_by_preview (sym moved_id ∙ sym same) ∙ h.linked))) in
          Held-elsewhere h
            (put-other moved.preview_id moved s.previews o.preview_id away_too ∙ h.preview_held)
            (put-other op.preview_id op.operation_id s.operation_by_preview o.preview_id away
              ∙ h.linked)
    ]

    confirmed_linked :
        (preview_id id : ℕ)
        → put op.preview_id op.operation_id s.operation_by_preview preview_id ≡ some id
        → (o : HostedOperation) × (put op.operation_id op s.operations id ≡ some o)
          × (o.preview_id ≡ preview_id)
    confirmed_linked preview_id id link =
        elim (put-cases op.preview_id op.operation_id s.operation_by_preview preview_id link) [
          | inl (here, is) ↦ (op, put-same op.operation_id op s.operations id is, sym here)
          | inr (other, old) ↦
              let (o, found, of_preview) = i.linked_held preview_id id old in
              let away =
                nat_ne id op.operation_id
                  (λ same. absurd (not_both c.new_id (ap s.operations (sym same) ∙ found))) in
              (o, put-other op.operation_id op s.operations id away ∙ found, of_preview)
        ]

    pub with_operation-IsOperationsSound : IsOperationsSound checks (with_operation op moved s)
    with_operation-IsOperationsSound = record {
      held = confirmed-Held;
      linked_held = confirmed_linked;
    }

-- ===== src/Hosted/Store/Sound/Previews.antt =====
-- The previews of the store of execution/hosted/store.py and the keys of their provider calls.
use mercury_tools.Prelude.{
  ℕ, Bool, true, false, ◌||◌, Option, none, some, any, ◌==◌, ok, Bool-cases, Option-cases, inl, inr,
  ◌≡◌, refl, sym, ap, ◌∙◌, arith, subst, not_both, some_same, nat_eq,
}
use mercury_tools.Hosted.Previews.{
  DocumentPreview, StoredPreviewItem, PreviewState, preview_valid, with_preview_state,
}
use mercury_tools.Hosted.Previews.Laws.{PreviewMoved}
use mercury_tools.Hosted.Store.State.{
  CallKey, HostedStore, same_key, put, put_call, call_key, item_key, has_item_key,
}
use mercury_tools.Hosted.Store.Previews.{admit_preview, with_preview}
use mercury_tools.Hosted.Store.Maps.{
  is_some-none, put-same, put-other, put-cases, same_key-eq, put_call-cases, put_call-same,
  put_call-other, has_item_key-with_purge, has_item_key-new,
}

pub record PreviewsSound (previews : ℕ → Option DocumentPreview) (calls : CallKey → Option ℕ)
    (item_calls : CallKey → Bool) : Type 0 where
  pub kept :
      (id : ℕ) (p : DocumentPreview)
      → previews id ≡ some p
      → (p.preview_id ≡ id) × (preview_valid p ≡ true)
  pub called : (id : ℕ) (p : DocumentPreview) → previews id ≡ some p → calls (call_key p) ≡ some id
  pub known :
      (key : CallKey) (id : ℕ)
      → calls key ≡ some id
      → (p : DocumentPreview) × (previews id ≡ some p) × (call_key p ≡ key)
  pub item_called :
      (id : ℕ) (p : DocumentPreview) (key : CallKey)
      → previews id ≡ some p
      → has_item_key p p.items key ≡ true
      → item_calls key ≡ true
  pub item_unique :
      (id id' : ℕ) (p p' : DocumentPreview) (key : CallKey)
      → previews id ≡ some p
      → previews id' ≡ some p'
      → has_item_key p p.items key ≡ true
      → has_item_key p' p'.items key ≡ true
      → id ≡ id'

abbrev pub IsPreviewsSound : HostedStore → Type 0
IsPreviewsSound s = PreviewsSound s.previews s.preview_provider_calls s.item_provider_calls

-- What is asked of a preview that is added.
pub record Admitted (s : HostedStore) (p : DocumentPreview) : Type 0 where
  pub valid : preview_valid p ≡ true
  pub new_call : s.preview_provider_calls (call_key p) ≡ none
  pub new_id : s.previews p.preview_id ≡ none
  pub new_items :
      any (λ (i : StoredPreviewItem). s.item_provider_calls (item_key p i)) p.items ≡ false

pub admit_preview-none :
    (s : HostedStore) (p : DocumentPreview) → admit_preview s p ≡ ok none → Admitted s p
unfolding admit_preview
admit_preview-none s p h = elim (Option-cases (s.preview_provider_calls (call_key p))) [
  | inl free ↦ record {
    valid = ground arith;
    new_call = free;
    new_id = is_some-none (s.previews p.preview_id) (ground arith);
    new_items = ground arith;
  }
  | inr (id, taken) ↦ absurd (ground arith)
]

module _ {s : HostedStore} {p : DocumentPreview} (i : IsPreviewsSound s) (a : Admitted s p) where
  new_called :
      (id : ℕ) (q : DocumentPreview)
      → put p.preview_id p s.previews id ≡ some q
      → put_call (call_key p) p.preview_id s.preview_provider_calls (call_key q) ≡ some id
  new_called id q h = elim (put-cases p.preview_id p s.previews id h) [
    | inl (here, same) ↦
        rw (same, here) (put_call-same (call_key p) p.preview_id s.preview_provider_calls)
    | inr (other, old) ↦ elim (Bool-cases (same_key (call_key q) (call_key p))) [
      | inl e ↦ absurd (
          not_both a.new_call (
            ap s.preview_provider_calls (sym (same_key-eq (call_key q) (call_key p) e))
            ∙ i.called id q old))
      | inr e ↦
          put_call-other (call_key p) p.preview_id s.preview_provider_calls (call_key q) e
          ∙ i.called id q old
    ]
  ]

  new_known :
      (key : CallKey) (id : ℕ)
      → put_call (call_key p) p.preview_id s.preview_provider_calls key ≡ some id
      → (q : DocumentPreview) × (put p.preview_id p s.previews id ≡ some q) × (call_key q ≡ key)
  new_known key id h =
      elim (put_call-cases (call_key p) p.preview_id s.preview_provider_calls key h) [
        | inl (here, same) ↦ (p, put-same p.preview_id p s.previews id same, sym here)
        | inr old ↦
            let (q, held, k) = i.known key id old in
            elim (Bool-cases (id == p.preview_id)) [
              | inl e ↦ absurd (not_both (ap s.previews (nat_eq id p.preview_id e) ∙ a.new_id) held)
              | inr e ↦ (q, put-other p.preview_id p s.previews id e ∙ held, k)
            ]
      ]

  new_item_called :
      (id : ℕ) (q : DocumentPreview) (key : CallKey)
      → put p.preview_id p s.previews id ≡ some q
      → has_item_key q q.items key ≡ true
      → has_item_key p p.items key || s.item_provider_calls key ≡ true
  new_item_called id q key h k = elim (put-cases p.preview_id p s.previews id h) [
    | inl (here, same) ↦
        let mine : has_item_key p p.items key ≡ true =
          subst (λ (x : DocumentPreview). has_item_key x x.items key ≡ true) same k in
        ground arith
    | inr (other, old) ↦ ground (arith, i.item_called id q key old k)
  ]

  clash :
      (id : ℕ) (q : DocumentPreview) (key : CallKey)
      → s.previews id ≡ some q
      → has_item_key q q.items key ≡ true
      → ¬ (has_item_key p p.items key ≡ true)
  clash id q key held theirs mine = absurd (
      ground (
        arith,
        i.item_called id q key held theirs,
        has_item_key-new p s.item_provider_calls p.items key a.new_items mine,
      ))

  new_item_unique :
      (id id' : ℕ) (q q' : DocumentPreview) (key : CallKey)
      → put p.preview_id p s.previews id ≡ some q
      → put p.preview_id p s.previews id' ≡ some q'
      → has_item_key q q.items key ≡ true
      → has_item_key q' q'.items key ≡ true
      → id ≡ id'
  new_item_unique id id' q q' key h h' k k' = elim (put-cases p.preview_id p s.previews id h) [
    | inl (here, same) ↦ elim (put-cases p.preview_id p s.previews id' h') [
      | inl (here', same') ↦ here ∙ sym here'
      | inr (other', old') ↦ absurd (
          clash id' q' key old' k'
            (subst (λ (x : DocumentPreview). has_item_key x x.items key ≡ true) same k))
    ]
    | inr (other, old) ↦ elim (put-cases p.preview_id p s.previews id' h') [
      | inl (here', same') ↦ absurd (
          clash id q key old k
            (subst (λ (x : DocumentPreview). has_item_key x x.items key ≡ true) same' k'))
      | inr (other', old') ↦ i.item_unique id id' q q' key old old' k k'
    ]
  ]

  new_kept :
      (id : ℕ) (q : DocumentPreview)
      → put p.preview_id p s.previews id ≡ some q
      → (q.preview_id ≡ id) × (preview_valid q ≡ true)
  new_kept id q h = elim (put-cases p.preview_id p s.previews id h) [
    | inl (here, same) ↦ (rw (same, here) refl, rw same a.valid)
    | inr (other, old) ↦ i.kept id q old
  ]

  pub with_preview-IsPreviewsSound : IsPreviewsSound (with_preview p s)
  with_preview-IsPreviewsSound = record {
    kept = new_kept;
    called = new_called;
    known = new_known;
    item_called = new_item_called;
    item_unique = new_item_unique;
  }

-- A transition leaves what the keys of a preview are made of.
pub record SameCalls (p q : DocumentPreview) : Type 0 where
  pub same_id : q.preview_id ≡ p.preview_id
  pub same_call : call_key q ≡ call_key p
  pub same_items : (key : CallKey) → has_item_key q q.items key ≡ has_item_key p p.items key

pub PreviewMoved-SameCalls :
    {self p : DocumentPreview} {target : PreviewState} {at : ℕ}
    → PreviewMoved self target at p
    → SameCalls self p
PreviewMoved-SameCalls {self} {p} {target} {at} m = subst (SameCalls self) (sym m.result) (record {
  same_id = refl;
  same_call = refl;
  same_items = λ key.
      has_item_key-with_purge self (with_preview_state self target at m.purge) m.purge self.items
        key refl refl;
})

module _ {previews : ℕ → Option DocumentPreview} {calls : CallKey → Option ℕ}
    {item_calls : CallKey → Bool} (i : PreviewsSound previews calls item_calls) (id : ℕ)
    (p q : DocumentPreview) (held : previews id ≡ some p) (valid : preview_valid q ≡ true)
    (c : SameCalls p q) where
  -- What was there under a key, with the same keys as what is there after the assignment.
  moved_from :
      (k : ℕ) (r : DocumentPreview)
      → put id q previews k ≡ some r
      → (o : DocumentPreview) × (previews k ≡ some o) × SameCalls o r × (preview_valid r ≡ true)
  moved_from k r h = elim (put-cases id q previews k h) [
    | inl (here, same) ↦
        (p, ap previews here ∙ held, subst (SameCalls p) (sym same) c, rw same valid)
    | inr (other, old) ↦ (
      r,
      old,
      record { same_id = refl; same_call = refl; same_items = λ key. refl },
      (i.kept k r old).1,
    )
  ]

  moved_known :
      (key : CallKey) (k : ℕ)
      → calls key ≡ some k
      → (r : DocumentPreview) × (put id q previews k ≡ some r) × (call_key r ≡ key)
  moved_known key k h =
      let (o, there, call) = i.known key k h in
      elim (Bool-cases (k == id)) [
        | inl e ↦
            let same : o ≡ p = some_same (sym there ∙ ap previews (nat_eq k id e) ∙ held) in
            (
              q,
              put-same id q previews k (nat_eq k id e),
              c.same_call ∙ ap call_key (sym same) ∙ call,
            )
        | inr e ↦ (o, put-other id q previews k e ∙ there, call)
      ]

  -- Replacing a preview by one with the same keys keeps the invariant.
  pub put-PreviewsSound : PreviewsSound (put id q previews) calls item_calls
  put-PreviewsSound = record {
    kept = λ k r h.
        let (o, there, same, fine) = moved_from k r h in
        (same.same_id ∙ (i.kept k o there).0, fine);
    called = λ k r h.
        let (o, there, same, fine) = moved_from k r h in
        ap calls same.same_call ∙ i.called k o there;
    known = moved_known;
    item_called = λ k r key h mine.
        let (o, there, same, fine) = moved_from k r h in
        i.item_called k o key there (sym (same.same_items key) ∙ mine);
    item_unique = λ k k' r r' key h h' mine mine'.
        let (o, there, same, fine) = moved_from k r h in
        let (o', there', same', fine') = moved_from k' r' h' in
        i.item_unique k k' o o' key there there' (sym (same.same_items key) ∙ mine)
          (sym (same'.same_items key) ∙ mine');
  }

-- ===== src/Hosted/Store/Maps.antt =====
-- The dictionaries of execution/hosted/store.py after an assignment, and the keys of provider calls.
use mercury_tools.Prelude.{
  ℕ, str_eq_iff, Bool, true, false, Option, none, some, List, [], ◌∷◌, any, ◌==◌, Bool-cases, inl,
  inr, ◌≡◌, ◌⊎◌, refl, arith,
}
use mercury_tools.Hosted.Operations.{is_some}
use mercury_tools.Hosted.Previews.{DocumentPreview, StoredPreviewItem, each, with_purge}
use mercury_tools.Hosted.Store.State.{CallKey, same_key, put, put_call, item_key, has_item_key}

pub is_some-none : {A : Type 0} (o : Option A) → is_some o ≡ false → o ≡ none
is_some-none none h = refl
is_some-none (some a) h = absurd (ground arith)

module _ {A : Type 0} (id : ℕ) (a : A) (d : ℕ → Option A) where
  pub put-same : (k : ℕ) → k ≡ id → put id a d k ≡ some a
  unfolding put
  put-same k e = ground arith

  pub put-other : (k : ℕ) → (k == id) ≡ false → put id a d k ≡ d k
  unfolding put
  put-other k e = ground arith

  -- What is found under a key after an assignment is the new value or what was there.
  pub put-cases :
      (k : ℕ) {b : A}
      → put id a d k ≡ some b
      → (k ≡ id) × (b ≡ a) ⊎ ((k == id) ≡ false) × (d k ≡ some b)
  unfolding put
  put-cases k h = elim (Bool-cases (k == id)) [
    | inl e ↦ inl (ground arith, ground arith)
    | inr e ↦ inr (e, ground arith)
  ]

pub same_key-eq : (a b : CallKey) → same_key a b ≡ true → a ≡ b
same_key-eq a b h = ground (arith, (str_eq_iff a.provider_call_hash b.provider_call_hash).0)

pub same_key_refl : (a : CallKey) → same_key a a ≡ true
same_key_refl a = ground (arith, (str_eq_iff a.provider_call_hash a.provider_call_hash).1 refl)

module _ (key : CallKey) (id : ℕ) (d : CallKey → Option ℕ) where
  pub put_call-cases :
      (k : CallKey) {b : ℕ} → put_call key id d k ≡ some b → (k ≡ key) × (b ≡ id) ⊎ (d k ≡ some b)
  unfolding put_call
  put_call-cases k h = elim (Bool-cases (same_key k key)) [
    | inl e ↦ inl (same_key-eq k key e, ground arith)
    | inr e ↦ inr (ground arith)
  ]

  pub put_call-same : put_call key id d key ≡ some id
  unfolding put_call
  put_call-same = rw (same_key_refl key) refl

  pub put_call-other : (k : CallKey) → same_key k key ≡ false → put_call key id d k ≡ d k
  unfolding put_call
  put_call-other k e = rw e refl

-- The item keys of a preview do not depend on the purge time of the items.
pub has_item_key-with_purge :
    (p q : DocumentPreview) (purge : ℕ) (is : List StoredPreviewItem) (k : CallKey)
    → q.workspace_id ≡ p.workspace_id
    → q.connection_id ≡ p.connection_id
    → has_item_key q (each (with_purge purge) is) k ≡ has_item_key p is k
unfolding has_item_key
has_item_key-with_purge p q purge [] k w c = refl
has_item_key-with_purge p q purge (i ∷ is) k w c =
    rw (w, c, has_item_key-with_purge p q purge is k w c) refl

-- A key of an admitted preview was not in the set.
pub has_item_key-new :
    (p : DocumentPreview) (taken : CallKey → Bool) (is : List StoredPreviewItem) (k : CallKey)
    → any (λ (i : StoredPreviewItem). taken (item_key p i)) is ≡ false
    → has_item_key p is k ≡ true
    → taken k ≡ false
unfolding has_item_key
has_item_key-new p taken [] k free h = absurd (ground arith)
has_item_key-new p taken (i ∷ is) k free h = elim (Bool-cases (same_key k (item_key p i))) [
  | inl e ↦ rw (same_key-eq k (item_key p i) e) (ground arith)
  | inr e ↦ has_item_key-new p taken is k (ground arith) (ground arith)
]

-- ===== src/Hosted/Store/Retry.antt =====
-- `create_operation` of execution/hosted/store.py called again.
use mercury_tools.Prelude.{
  str_eq_refl, ℕ, true, some, List, [], ◌∷◌, ok, Result-cases, Option-cases, inl, inr, ◌≡◌, refl,
  sym, ap, ◌∙◌, arith, subst,
}
use mercury_tools.Hosted.Operations.{Checks, OperationItem, HostedOperation, operation_valid}
use mercury_tools.Hosted.Operations.History.{History-valid}
use mercury_tools.Hosted.Operations.Identity.{identity, item_identities}
use mercury_tools.Hosted.Operations.Progress.{Later, Later-identity}
use mercury_tools.Hosted.Previews.{DocumentPreview}
use mercury_tools.Hosted.Confirmation.{same_identities, same_confirmation_identity}
use mercury_tools.Hosted.Store.State.{HostedStore, World}
use mercury_tools.Hosted.Store.Operations.{
  existing, confirming, admit_operation, create_operation, with_operation, confirm_preview,
}
use mercury_tools.Hosted.Store.Maps.{put-same}
use mercury_tools.Hosted.Store.Confirming.{admit_operation-confirming}
use mercury_tools.Hosted.Store.Calls.{Call, creates_operation, apply_call, serve}
use mercury_tools.Hosted.Store.Changes.{apply_call-Change, returned_operation-ok}
use mercury_tools.Hosted.Store.Invariant.{IsSound, store_calls-IsSound, Change-IsSound}
use mercury_tools.Hosted.Store.Concurrency.{serve-Later, returned_valid}

same_identities_refl : (is : List OperationItem) → same_identities is is ≡ true
same_identities_refl [] = refl
same_identities_refl (i ∷ is) = ground (
  arith,
  str_eq_refl i.client_item_id,
  str_eq_refl i.provider_call_hash,
  str_eq_refl i.preview_integrity_hash,
  same_identities_refl is,
)

same_confirmation_identity_refl : (op : HostedOperation) → same_confirmation_identity op op ≡ true
unfolding same_confirmation_identity
same_confirmation_identity_refl op = ground (
  arith,
  str_eq_refl op.provider,
  str_eq_refl op.environment,
  str_eq_refl op.capability_id,
  str_eq_refl op.capability_version,
  str_eq_refl op.provider_call_hash,
  str_eq_refl op.preview_integrity_hash,
  same_identities_refl op.items,
)

same_identities-identities :
    (is js : List OperationItem) → same_identities (item_identities is) js ≡ same_identities is js
same_identities-identities [] [] = refl
same_identities-identities [] (j ∷ js) = refl
same_identities-identities (i ∷ is) [] = refl
same_identities-identities (i ∷ is) (j ∷ js) = rw (same_identities-identities is js) refl

-- The test reads nothing that a transition changes.
same_confirmation-identity :
    (a b : HostedOperation)
    → same_confirmation_identity (identity a) b ≡ same_confirmation_identity a b
unfolding same_confirmation_identity
same_confirmation-identity a b = rw (same_identities-identities a.items b.items) refl

same_preview :
    (a b : HostedOperation) → same_confirmation_identity a b ≡ true → a.preview_id ≡ b.preview_id
unfolding same_confirmation_identity
same_preview a b h = ground arith

-- What `create_operation` has established when it returns an operation.
record Created (checks : Checks) (s : HostedStore) (op known : HostedOperation) : Type 0 where
  id : ℕ
  valid : operation_valid checks op ≡ true
  found : s.operations id ≡ some known
  agrees : same_confirmation_identity known op ≡ true

existing-Created :
    (checks : Checks) (world : World) (s : HostedStore) (op : HostedOperation) (expected : ℕ)
    {known : HostedOperation}
    → admit_operation checks world s op expected ≡ ok (existing known)
    → Created checks s op known
unfolding admit_operation
existing-Created checks world s op expected {known} h =
    elim (Option-cases (s.previews op.preview_id)) [
      | inl missing ↦ absurd (ground arith)
      | inr (preview, held) ↦ elim (Option-cases (s.operation_by_preview op.preview_id)) [
        | inl unlinked ↦ elim (Result-cases (confirm_preview world s op preview expected)) [
          | inl (m, good) ↦ absurd (ground arith)
          | inr (e, bad) ↦ absurd (ground arith)
        ]
        | inr (id, linked) ↦ elim (Option-cases (s.operations id)) [
          | inl lost ↦ absurd (ground arith)
          | inr (o, found) ↦
              let is : o ≡ known = ground arith in
              record {
                id = id;
                valid = ground arith;
                found = found ∙ ap some is;
                agrees =
                    ap (λ (x : HostedOperation). same_confirmation_identity x op) (sym is)
                    ∙ ground arith;
              }
        ]
      ]
    ]

-- What a `create_operation` that returned has established, in the store that it left.
create_operation-Created :
    (checks : Checks) (world : World) (s : HostedStore) (op : HostedOperation) (expected : ℕ)
    {known : HostedOperation}
    → (create_operation checks world op expected s).0 ≡ ok known
    → Created checks (create_operation checks world op expected s).1 op known
unfolding create_operation
create_operation-Created checks world s op expected {known} h =
    elim (Result-cases (admit_operation checks world s op expected)) [
      | inr (e, bad) ↦ absurd (ground arith)
      | inl (existing o, good) ↦
          let is : o ≡ known = sym (returned_operation-ok checks o (ground arith)) in
          let after : s ≡ (create_operation checks world op expected s).1 = ground arith in
          subst (λ (t : HostedStore). Created checks t op known) after
            (subst (Created checks s op) is (existing-Created checks world s op expected good))
      | inl (confirming moved, good) ↦
          let c = admit_operation-confirming checks world s op expected good in
          let is : op ≡ known = sym (returned_operation-ok checks op (ground arith)) in
          let after : with_operation op moved s ≡ (create_operation checks world op expected s).1 =
            ground arith in
          subst (λ (t : HostedStore). Created checks t op known) after
            (subst (Created checks (with_operation op moved s) op) is (record {
              id = op.operation_id;
              valid = c.valid;
              found = put-same op.operation_id op s.operations op.operation_id refl;
              agrees = same_confirmation_identity_refl op;
            }))
    ]

-- A sound store that has an operation with the identity of another returns it for the other.
existing_returned :
    (checks : Checks) (world : World) (s : HostedStore) (op known : HostedOperation) (expected : ℕ)
    (preview : DocumentPreview) (id : ℕ)
    → operation_valid checks op ≡ true
    → operation_valid checks known ≡ true
    → s.previews op.preview_id ≡ some preview
    → s.operation_by_preview op.preview_id ≡ some id
    → s.operations id ≡ some known
    → same_confirmation_identity known op ≡ true
    → create_operation checks world op expected s ≡ (ok known, s)
unfolding create_operation admit_operation
existing_returned checks world s op known expected preview id v w held linked found agrees =
    ground (arith, returned_valid checks known w)

create_operation-IsSound :
    (checks : Checks) (world : World) (s : HostedStore) (op : HostedOperation) (expected : ℕ)
    → IsSound checks s
    → IsSound checks (create_operation checks world op expected s).1
unfolding apply_call
create_operation-IsSound checks world s op expected i =
    Change-IsSound (apply_call-Change checks world (creates_operation op expected) s) i

-- When `create_operation` has returned an operation, calling it again with the same argument, after any
-- calls and whatever the clock, the authority and the expected version then are, returns what
-- transitions have made of that operation and writes nothing.
pub create_operation-retry :
    (checks : Checks) (s : HostedStore) (world world' : World) (op : HostedOperation)
    (expected expected' : ℕ) (calls : List (World × Call)) {known : HostedOperation}
    → IsSound checks s
    → (create_operation checks world op expected s).0 ≡ ok known
    → let after = serve checks calls (create_operation checks world op expected s).1 in
      (o : HostedOperation) × Later checks known o
      × (create_operation checks world' op expected' after ≡ (ok o, after))
create_operation-retry checks s world world' op expected expected' calls {known} i h =
    let first = (create_operation checks world op expected s).1 in
    let after = serve checks calls first in
    let c = create_operation-Created checks world s op expected h in
    let (o, there, l) = serve-Later checks calls first c.id known c.found in
    let sound =
      store_calls-IsSound checks calls first
        (create_operation-IsSound checks world s op expected i) in
    let held = sound.1.held c.id o there in
    let agrees : same_confirmation_identity o op ≡ true =
      sym (same_confirmation-identity o op)
      ∙ ap (λ (x : HostedOperation). same_confirmation_identity x op) (Later-identity l)
      ∙ same_confirmation-identity known op
      ∙ c.agrees in
    let here = sym (same_preview o op agrees) in
    (
      o,
      l,
      existing_returned checks world' after op o expected' held.preview c.id c.valid
          (History-valid held.history) (ap after.previews here ∙ held.preview_held)
          (ap after.operation_by_preview here ∙ held.linked) there agrees,
    )

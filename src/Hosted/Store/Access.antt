-- ===== src/Hosted/Store/Access.antt =====
-- Who may do what with an operation of execution/hosted/store.py.
use mercury_tools.Prelude.{
  ℕ, String, true, some, ok, Result-cases, Option-cases, inl, inr, ◌≡◌, arith,
}
use mercury_tools.Hosted.Transitions.{ParentOperationState as Parent}
use mercury_tools.Hosted.Operations.{Checks, HostedOperation}
use mercury_tools.Hosted.Previews.{DocumentPreview}
use mercury_tools.Hosted.Store.Authority.{
  Connection, Qualification, Resolver, hosted, other_exception, connection_matches,
  qualification_identity_matches, qualification_is_current, projector_fits, validate_authority,
}
use mercury_tools.Hosted.Store.State.{HostedStore, World, Scope, operation_in_scope}
use mercury_tools.Hosted.Store.Operations.{
  transition_operation, dispatch_allowed, revalidate_operation_authority,
}
use mercury_tools.Hosted.Store.Concurrency.{transition_operation-ok}

-- The authority of a preview at a time: a connection and a qualification that the resolver gives, which
-- match the preview, are current, and have the preview's projector.
pub record Authorised (world : World) (p : DocumentPreview) : Type 0 where
  pub connection : Connection
  pub qualification : Qualification
  pub resolver : Resolver
  pub configured : world.authority_resolver ≡ some resolver
  pub resolves : resolver p ≡ ok (connection, qualification)
  pub connection_bound : connection_matches world.registry p connection ≡ true
  pub qualification_bound : qualification_identity_matches p qualification ≡ true
  pub is_current : qualification_is_current qualification connection world.authority_now ≡ true
  pub projected : projector_fits p (world.registry.resolve qualification) ≡ true

validated-Authorised :
    (world : World) (p : DocumentPreview) (resolver : Resolver) (c : Connection) (q : Qualification)
    → world.authority_resolver ≡ some resolver
    → resolver p ≡ ok (c, q)
    → validate_authority world.registry p c q world.authority_now ≡ ok tt
    → Authorised world p
unfolding validate_authority
validated-Authorised world p resolver c q has gives h = record {
  connection = c;
  qualification = q;
  resolver = resolver;
  configured = has;
  resolves = gives;
  connection_bound = ground arith;
  qualification_bound = ground arith;
  is_current = ground arith;
  projected = ground arith;
}

pub revalidate-Authorised :
    (world : World) (p : DocumentPreview)
    → revalidate_operation_authority world p ≡ ok tt
    → Authorised world p
unfolding revalidate_operation_authority
revalidate-Authorised world p h = elim (Option-cases world.authority_resolver) [
  | inl missing ↦ absurd (ground arith)
  | inr (resolver, has) ↦ elim (Result-cases (resolver p)) [
    | inr (hosted e, bad) ↦ absurd (ground arith)
    | inr (other_exception, bad) ↦ absurd (ground arith)
    | inl ((c, q), gives) ↦ validated-Authorised world p resolver c q has gives (ground arith)
  ]
]

dispatch_allowed-Authorised :
    (world : World) (s : HostedStore) (op : HostedOperation)
    → dispatch_allowed world s op Parent.dispatching ≡ ok tt
    → (p : DocumentPreview) × (s.previews op.preview_id ≡ some p) × Authorised world p
unfolding dispatch_allowed
dispatch_allowed-Authorised world s op h = elim (Option-cases (s.previews op.preview_id)) [
  | inl missing ↦ absurd (ground arith)
  | inr (p, found) ↦ (p, found, revalidate-Authorised world p (ground arith))
]

-- A transition to dispatching that returns has found the preview of the operation, and a connection and
-- a qualification for it that match it and are current at the time of the call.
pub dispatching-Authorised :
    (checks : Checks) (world : World) (scope : Scope) (id expected event_id at : ℕ)
    (reason : String) (s : HostedStore) {op : HostedOperation}
    → (transition_operation checks world scope id expected Parent.dispatching event_id at reason
        s).0
      ≡ ok op
    → (self : HostedOperation) × (s.operations id ≡ some self)
      × (operation_in_scope scope self ≡ true)
      × (p : DocumentPreview) × (s.previews self.preview_id ≡ some p)
      × Authorised world p
dispatching-Authorised checks world scope id expected event_id at reason s h =
    let (there, n) =
      transition_operation-ok checks world scope id expected Parent.dispatching event_id at reason s
        h in
    let (p, found, authorised) = dispatch_allowed-Authorised world s n.self n.allowed in
    (n.self, n.found, n.in_scope, p, found, authorised)

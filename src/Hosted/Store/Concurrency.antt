-- ===== src/Hosted/Store/Concurrency.antt =====
-- Calls of execution/hosted/store.py on one operation, in any order.
use mercury_tools.Prelude.{
  ℕ, ◌+◌, ◌≤◌, String, true, false, some, List, [], ◌∷◌, ◌==◌, Result, ok, err, Bool-cases, inl,
  inr, ◌≡◌, refl, sym, ap, ◌∙◌, arith, subst, not_both, some_same, nat_eq, nat_ne,
}
use mercury_tools.Hosted.Transitions.{ParentOperationState as Parent}
use mercury_tools.Hosted.Transitions.Progress.{settled}
use mercury_tools.Hosted.Operations.{Checks, HostedOperation, operation_valid}
use mercury_tools.Hosted.Operations.History.{History-valid}
use mercury_tools.Hosted.Operations.Steps.{move_operation-ok}
use mercury_tools.Hosted.Operations.Progress.{
  Later, same, moved, item_moved, Later-trans, Later-version, Later-settled, Later-identity,
}
use mercury_tools.Hosted.Store.Authority.{HostedError, operation_state_stale}
use mercury_tools.Hosted.Store.State.{
  HostedStore, World, Scope, put, operation_in_scope, returned_operation,
}
use mercury_tools.Hosted.Store.Operations.{
  get_operation, next_operation, transition_operation, with_moved,
}
use mercury_tools.Hosted.Store.Maps.{put-same, put-other}
use mercury_tools.Hosted.Store.Calls.{
  Call, transitions_operation, apply_call, serve, Change, unchanged, added, preview_moved,
  preview_confirmed, operation_moved, item_moved as item_change,
}
use mercury_tools.Hosted.Store.Changes.{
  apply_call-Change, NextOperation, next_operation-ok, returned_operation-ok,
}
use mercury_tools.Hosted.Store.Invariant.{IsSound, store_calls-IsSound, Change-IsSound}

-- What a store has under an identifier that had an operation: what transitions made of it.
abbrev IsLaterAt : Checks → HostedStore → ℕ → HostedOperation → Type 0
IsLaterAt checks s id op = (o : HostedOperation) × (s.operations id ≡ some o) × Later checks op o

put-Later :
    (checks : Checks) (s : HostedStore) (k id : ℕ) (op self new : HostedOperation)
    → s.operations id ≡ some op
    → s.operations k ≡ some self
    → (Later checks op self → Later checks op new)
    → (o : HostedOperation) × (put k new s.operations id ≡ some o) × Later checks op o
put-Later checks s k id op self new found there step = elim (Bool-cases (id == k)) [
  | inl e ↦
      let here = nat_eq id k e in
      let is : op ≡ self = some_same (sym found ∙ ap s.operations here ∙ there) in
      (new, put-same k new s.operations id here, step (subst (Later checks op) is same))
  | inr e ↦ (op, put-other k new s.operations id e ∙ found, same)
]

Change-Later :
    {checks : Checks} {s s' : HostedStore} (id : ℕ) (op : HostedOperation)
    → s.operations id ≡ some op
    → Change checks s s'
    → IsLaterAt checks s' id op
Change-Later {checks} id op found (unchanged e) =
    subst (λ (t : HostedStore). IsLaterAt checks t id op) (sym e) (op, found, same)
Change-Later {checks} id op found (added p a e) =
    subst (λ (t : HostedStore). IsLaterAt checks t id op) (sym e) (op, found, same)
Change-Later {checks} id op found (preview_moved k self p target at there m e) =
    subst (λ (t : HostedStore). IsLaterAt checks t id op) (sym e) (op, found, same)
Change-Later {checks} {s} id op found (preview_confirmed world new expected after c e) =
    let other =
      nat_ne id new.operation_id
        (λ here. absurd (not_both c.new_id (ap s.operations (sym here) ∙ found))) in
    subst (λ (t : HostedStore). IsLaterAt checks t id op) (sym e)
      (op, put-other new.operation_id new s.operations id other ∙ found, same)
Change-Later {checks} {s} id op found
      (operation_moved k self new target event_id at reason there m e) =
    subst (λ (t : HostedStore). IsLaterAt checks t id op) (sym e)
      (put-Later checks s k id op self new found there (λ l. moved target event_id at reason l m))
Change-Later {checks} {s} id op found
      (item_change k self new item_id target event_id at reason given there m e) =
    subst (λ (t : HostedStore). IsLaterAt checks t id op) (sym e)
      (put-Later checks s k id op self new found there
        (λ l. item_moved item_id target event_id at reason given l m))

-- No call removes an operation: it stays, and transitions that did not raise lead to what is there.
pub serve-Later :
    (checks : Checks) (calls : List (World × Call)) (s : HostedStore) (id : ℕ)
    (op : HostedOperation)
    → s.operations id ≡ some op
    → IsLaterAt checks (serve checks calls s) id op
unfolding serve
serve-Later checks [] s id op found = (op, found, same)
serve-Later checks ((world, call) ∷ calls) s id op found =
    let (o, there, l) = Change-Later id op found (apply_call-Change checks world call s) in
    let (o', there', l') = serve-Later checks calls (apply_call checks world call s) id o there in
    (o', there', Later-trans l l')

-- An operation that has succeeded, was rejected, needs manual review, has expired or was cancelled is
-- the same after any calls, its items and events included.
pub serve-settled :
    (checks : Checks) (calls : List (World × Call)) (s : HostedStore) (id : ℕ)
    (op : HostedOperation)
    → s.operations id ≡ some op
    → settled op.state ≡ true
    → (serve checks calls s).operations id ≡ some op
serve-settled checks calls s id op found h =
    let (o, there, l) = serve-Later checks calls s id op found in
    there ∙ ap some (Later-settled h l)

pub returned_valid :
    (checks : Checks) (op : HostedOperation)
    → operation_valid checks op ≡ true
    → returned_operation checks op ≡ ok op
unfolding returned_operation
returned_valid checks op h = ground arith

-- An operation in the store is returned to a caller in its scope.
pub get_operation-held :
    (checks : Checks) (scope : Scope) (id : ℕ) (s : HostedStore) (op : HostedOperation)
    → s.operations id ≡ some op
    → operation_valid checks op ≡ true
    → operation_in_scope scope op ≡ true
    → get_operation checks scope id s ≡ ok op
unfolding get_operation
get_operation-held checks scope id s op found v h = ground (arith, returned_valid checks op v)

stale_refused :
    (checks : Checks) (world : World) (scope : Scope) (id expected : ℕ) (target : Parent)
    (event_id at : ℕ) (reason : String) (s : HostedStore) (op : HostedOperation)
    → get_operation checks scope id s ≡ ok op
    → (op.state_version == expected) ≡ false
    → transition_operation checks world scope id expected target event_id at reason s
      ≡ (err operation_state_stale, s)
unfolding transition_operation next_operation
stale_refused checks world scope id expected target event_id at reason s op found stale =
    ground arith

with_moved-ok :
    (checks : Checks) (id : ℕ) (r : Result HostedError HostedOperation) (s : HostedStore)
    {op : HostedOperation}
    → (with_moved checks id r s).0 ≡ ok op
    → (r ≡ ok op) × ((with_moved checks id r s).1.operations id ≡ some op)
with_moved-ok checks id (err e) s h = absurd (ground arith)
with_moved-ok checks id (ok o) s {op} h =
    let is = sym (returned_operation-ok checks o h) in
    (ap ok is, put-same id o s.operations id refl ∙ ap some is)

-- What a successful `transition_operation` leaves in the store.
pub transition_operation-ok :
    (checks : Checks) (world : World) (scope : Scope) (id expected : ℕ) (target : Parent)
    (event_id at : ℕ) (reason : String) (s : HostedStore) {op : HostedOperation}
    → (transition_operation checks world scope id expected target event_id at reason s).0 ≡ ok op
    → ((transition_operation checks world scope id expected target event_id at reason
            s).1.operations
          id
        ≡ some op)
      × NextOperation checks world scope id expected target event_id at reason s op
unfolding transition_operation
transition_operation-ok checks world scope id expected target event_id at reason s h =
    let (good, there) =
      with_moved-ok checks id
        (next_operation checks world scope id expected target event_id at reason s) s h in
    (there, next_operation-ok checks world scope id expected target event_id at reason s good)

transition_operation-IsSound :
    (checks : Checks) (world : World) (scope : Scope) (id expected : ℕ) (target : Parent)
    (event_id at : ℕ) (reason : String) (s : HostedStore)
    → IsSound checks s
    → IsSound checks
        (transition_operation checks world scope id expected target event_id at reason s).1
unfolding apply_call
transition_operation-IsSound checks world scope id expected target event_id at reason s i =
    Change-IsSound
      (apply_call-Change checks world
        (transitions_operation scope id expected target event_id at reason) s)
      i

-- An operation that is later than another that had passed the version is past it.
past_version :
    (self op o : HostedOperation) (expected : ℕ)
    → (self.state_version == expected) ≡ true
    → op.state_version ≡ self.state_version + 1
    → op.state_version ≤ o.state_version
    → (o.state_version == expected) ≡ false
past_version self op o expected h v l = ground arith

-- When a transition of an operation of a sound store has returned, every later one in the same scope
-- that expects the same version is refused as stale and writes nothing, whatever calls come between.
pub transition_operation-stale :
    (checks : Checks) (s : HostedStore) (world world' : World) (scope : Scope) (id expected : ℕ)
    (target target' : Parent) (event_id event_id' at at' : ℕ) (reason reason' : String)
    (calls : List (World × Call)) {op : HostedOperation}
    → IsSound checks s
    → (transition_operation checks world scope id expected target event_id at reason s).0 ≡ ok op
    → let after =
        serve checks calls
          (transition_operation checks world scope id expected target event_id at reason s).1 in
      transition_operation checks world' scope id expected target' event_id' at' reason' after
      ≡ (err operation_state_stale, after)
transition_operation-stale checks s world world' scope id expected target target' event_id event_id'
      at at' reason reason' calls {op} i h =
    let first =
      (transition_operation checks world scope id expected target event_id at reason s).1 in
    let (there, n) =
      transition_operation-ok checks world scope id expected target event_id at reason s h in
    let (o, there', l) = serve-Later checks calls first id op there in
    let sound =
      store_calls-IsSound checks calls first (
        transition_operation-IsSound checks world scope id expected target event_id at reason s
          i) in
    let m = move_operation-ok checks n.self target event_id at reason n.moves in
    let own = Later-identity (moved target event_id at reason same n.moves) in
    let in_scope = ap (operation_in_scope scope) (Later-identity l ∙ own) ∙ n.in_scope in
    let found =
      get_operation-held checks scope id (serve checks calls first) o there'
        (History-valid (sound.1.held id o there').history) in_scope in
    stale_refused checks world' scope id expected target' event_id' at' reason'
      (serve checks calls first) o found
      (past_version n.self op o expected n.current
        (ap (λ (x : HostedOperation). x.state_version) m.result) (Later-version l))

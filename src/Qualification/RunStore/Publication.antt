-- ===== src/Qualification/RunStore/Publication.antt =====
-- When a run may be published: `publication_allowed` and `complete` of qualification/run_store.py.
use mercury_tools.Prelude.{
  ℕ, ◌≤◌, String, Bool, true, false, Option, none, some, List, ok, ltb, ◌≡◌, refl, arith,
}
use mercury_tools.Qualification.RunStore.Models.{
  RunRecord, valid_run, valid_run_state, is_completed, is_quarantined, all_cleaned,
}
use mercury_tools.Qualification.RunStore.Store
use mercury_tools.Qualification.RunStore.Store.{
  RunError, World, RunStore, stored, publication_allowed, validate_runtime_binding, timestamp,
  settle, end_write, write_run, replace_at, get_run,
}
use mercury_tools.Qualification.RunStore.Cleanup
use mercury_tools.Qualification.RunStore.Cleanup.{in_completion, finish, grant}
use mercury_tools.Qualification.RunStore.Calls.{serve, Call, open_store}
use mercury_tools.Qualification.RunStore.Runs.{IsSound, Steps-IsSound, serve-Steps}
use mercury_tools.Qualification.RunStore.Opening.{IsReadable, open_store-IsSound}

publication_allowed-ok :
    (world : World) (s s' : RunStore)
    → publication_allowed world s ≡ (ok true, s')
    → (is_completed s.run.state ≡ true) × (s.granted ≡ true)
unfolding publication_allowed validate_runtime_binding
publication_allowed-ok world s s' h = ground arith

completed_valid :
    (r : RunRecord)
    → valid_run r ≡ true
    → is_completed r.state ≡ true
    → (all_cleaned r.fixtures ≡ true) × (r.quarantine_reason ≡ none)
unfolding valid_run valid_run_state
completed_valid r v c = ground arith

-- If publication is allowed after any calls on a store that was opened on a readable file, the run is
-- completed, every fixture of it is cleaned, and it has no quarantine reason.
pub publication_allowed-cleaned :
    (world world' w : World) (id : String) (existing : Option (RunRecord × Bool)) (s s' : RunStore)
    (calls : List Call)
    → IsReadable existing
    → open_store world world' id existing ≡ ok s
    → publication_allowed w (serve calls s) ≡ (ok true, s')
    → (is_completed (serve calls s).run.state ≡ true)
      × (all_cleaned (serve calls s).run.fixtures ≡ true)
      × ((serve calls s).run.quarantine_reason ≡ none)
publication_allowed-cleaned world world' w id existing s s' calls v o h =
    let after = serve calls s in
    let (c, g) = publication_allowed-ok w after s' h in
    let sound =
      Steps-IsSound s after (serve-Steps calls s)
        (open_store-IsSound world world' id existing s v o) in
    let (cleaned, reason) = completed_valid after.run sound.run c in (c, cleaned, reason)

-- After any calls on a store that was opened on a readable file, the file has a valid record, which
-- does not allow publication.
pub serve-disk :
    (world world' : World) (id : String) (existing : Option (RunRecord × Bool)) (s : RunStore)
    (calls : List Call)
    → IsReadable existing
    → open_store world world' id existing ≡ ok s
    → (valid_run (serve calls s).disk ≡ true) × ((serve calls s).disk.publication_allowed ≡ false)
unfolding valid_run
serve-disk world world' id existing s calls v o =
    let after = serve calls s in
    let sound =
      Steps-IsSound s after (serve-Steps calls s)
        (open_store-IsSound world world' id existing s v o) in
    (sound.disk, ground (arith, sound.disk))

-- The world lets a write through, at a time.
pub record IsReady (world : World) (now : ℕ) (s : RunStore) : Type 0 where
  pub clock : world.clock ≡ some now
  pub bound : world.bound ≡ true
  pub bound_at_write : world.bound_at_write ≡ true
  pub write : world.write ≡ stored
  pub bound_after : world.bound_after ≡ true
  pub binding : s.binding_failed ≡ false

finished-valid :
    (now : ℕ) (r : RunRecord)
    → valid_run r ≡ true
    → r.updated_at ≤ now
    → all_cleaned r.fixtures ≡ true
    → valid_run (record (in_completion r) { updated_at = now }) ≡ true
unfolding valid_run valid_run_state
finished-valid now r v l c = ground arith

validate-succeeds :
    (bound : Bool) (s : RunStore)
    → s.binding_failed ≡ false
    → bound ≡ true
    → validate_runtime_binding bound s ≡ (ok tt, s)
unfolding validate_runtime_binding
validate-succeeds bound s f b = ground arith

-- The store after a write of the run.
abbrev written : RunRecord → RunStore → RunStore
written r s = record s { run = r; disk = r }

end_write-succeeds :
    (bound : Bool) (r : RunRecord) (s : RunStore)
    → s.binding_failed ≡ false
    → bound ≡ true
    → end_write stored bound r s ≡ (ok tt, written r s)
unfolding end_write settle
end_write-succeeds bound r s f b = simp (validate-succeeds bound (written r s) f b)

replace_at-succeeds :
    (world : World) (now : ℕ) (update : RunRecord → RunRecord) (s : RunStore)
    → IsReady world now s
    → s.run.updated_at ≤ now
    → valid_run (record (update s.run) { updated_at = now }) ≡ true
    → replace_at world now update s
      ≡ (ok tt, written (record (update s.run) { updated_at = now }) s)
unfolding replace_at write_run
replace_at-succeeds world now update s ready l v =
    let r : RunRecord = record (update s.run) { updated_at = now } in
    let late : ltb now s.run.updated_at ≡ false = ground arith in
    simp (
      late,
      v,
      ready.write,
      end_write-succeeds world.bound_after r s ready.binding ready.bound_after,
    )

timestamp-now : (world : World) (now : ℕ) → world.clock ≡ some now → timestamp world none ≡ ok now
unfolding timestamp
timestamp-now world now c = rw c refl

replace-succeeds :
    (world : World) (now : ℕ) (update : RunRecord → RunRecord) (s : RunStore)
    → IsReady world now s
    → s.run.updated_at ≤ now
    → valid_run (record (update s.run) { updated_at = now }) ≡ true
    → Store.replace world none update s
      ≡ (ok tt, written (record (update s.run) { updated_at = now }) (record s { granted = false }))
unfolding Store.replace
replace-succeeds world now update s ready l v =
    let off : RunStore = record s { granted = false } in
    let ready' : IsReady world now off = record {
      clock = ready.clock;
      bound = ready.bound;
      bound_at_write = ready.bound_at_write;
      write = ready.write;
      bound_after = ready.bound_after;
      binding = ready.binding;
    } in
    simp (
      validate-succeeds world.bound_at_write off ready.binding ready.bound_at_write,
      timestamp-now world now ready.clock,
      replace_at-succeeds world now update off ready' l v,
    )

get_run-succeeds :
    (world : World) (s : RunStore)
    → s.binding_failed ≡ false
    → world.bound ≡ true
    → get_run world s ≡ (ok s.run, s)
unfolding get_run
get_run-succeeds world s f b = simp (validate-succeeds world.bound s f b)

-- The store of a run that has just been completed.
abbrev pub published : ℕ → RunStore → RunStore
published now s = record s {
  run = record (in_completion s.run) { updated_at = now };
  granted = true;
  disk = record (in_completion s.run) { updated_at = now };
}

-- In a world whose clock is not before the last change and whose write goes through, `complete` of an
-- open run with every fixture cleaned returns; memory and file have the completed run, and then
-- `publication_allowed` returns true.
pub complete-publishes :
    (world : World) (now : ℕ) (s : RunStore)
    → IsSound s
    → IsReady world now s
    → s.run.updated_at ≤ now
    → is_completed s.run.state ≡ false
    → is_quarantined s.run.state ≡ false
    → all_cleaned s.run.fixtures ≡ true
    → (Cleanup.complete world s ≡ (ok tt, published now s))
      × (publication_allowed world (published now s) ≡ (ok true, published now s))
unfolding Cleanup.complete finish publication_allowed
complete-publishes world now s sound ready l c q a = (
  simp (
    get_run-succeeds world s ready.binding ready.bound,
    c,
    q,
    a,
    replace-succeeds world now in_completion s ready l (finished-valid now s.run sound.run l a),
  ),
  simp (validate-succeeds world.bound (published now s) ready.binding ready.bound),
)

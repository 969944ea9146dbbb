-- ===== src/Qualification/RunStore/Calls.antt =====
-- Calls of the methods of one `QualificationRunStore`, and its `__init__` (qualification/run_store.py).
use mercury_tools.Prelude.{
  ℕ, String, str_eq, Bool, true, false, ◌&&◌, Option, none, some, List, [], ◌∷◌, Result, ok, err,
  if◌then◌else◌,
}
use mercury_tools.Qualification.RunStore.Models.{
  QualificationRunState, FixtureReference, RunRecord, is_run_id,
}
use mercury_tools.Qualification.RunStore.Store
use mercury_tools.Qualification.RunStore.Store.{
  RunError, run_id_invalid, state_invalid, state_path_unsafe, clock_invalid, Write, refused,
  detached, stored, World, RunStore, some_or,
}
use mercury_tools.Qualification.RunStore.Cleanup

-- Each call has the world that it finds.
pub data Call : Type 0 where
  get_run publication_allowed complete : World → Call
  record_fixtures : World → List FixtureReference → Call
  mark_cleanup quarantine_cleanup : World → String → String → Call
  quarantine cleanup_status : World → String → Call

-- The store after a call.
unfoldable pub apply_call : Call → RunStore → RunStore
apply_call (Call.get_run world) s = (Store.get_run world s).1
apply_call (Call.publication_allowed world) s = (Store.publication_allowed world s).1
apply_call (Call.complete world) s = (Cleanup.complete world s).1
apply_call (Call.record_fixtures world references) s = (Store.record_fixtures world references s).1
apply_call (Call.mark_cleanup world handle status) s =
    (Cleanup.mark_cleanup world handle status s).1
apply_call (Call.quarantine_cleanup world handle status) s =
    (Cleanup.quarantine_cleanup world handle status s).1
apply_call (Call.quarantine world reason) s = (Cleanup.quarantine world reason s).1
apply_call (Call.cleanup_status world handle) s = (Cleanup.cleanup_status world handle s).1

-- The store after a list of calls.
unfoldable pub serve : List Call → RunStore → RunStore
serve [] s = s
serve (call ∷ calls) s = serve calls (apply_call call s)

-- The record of a run that begins.
abbrev pub initial : String → ℕ → RunRecord
initial run_id now = record {
  run_id = run_id;
  state = QualificationRunState.failed;
  publication_allowed = false;
  quarantine_reason = none;
  created_at = now;
  updated_at = now;
  fixtures = [];
}

abbrev pub fresh : RunRecord → RunStore
fresh r = record { run = r; granted = false; binding_failed = false; disk = r }

-- The checks of `__init__` after its write: the run directory, then the binding.
unfoldable pub bind_run : World → RunRecord → Result RunError RunStore
bind_run world r =
    if world.bound_at_write && world.bound_after then ok (fresh r) else err state_path_unsafe

unfoldable pub write_and_bind : World → RunRecord → Result RunError RunStore
write_and_bind world r = elim world.write [
  | refused ↦ err state_path_unsafe
  | detached ↦ err state_path_unsafe
  | stored ↦ bind_run world r
]

abbrev pub has_failed : QualificationRunState → Bool
has_failed QualificationRunState.failed = true
has_failed _ = false

abbrev pub outcome : Result RunError (Unit {0}) × RunStore → Result RunError RunStore
outcome (ok u, s) = ok s
outcome (err e, s) = err e

-- A run that was found as failed was lost with its process.
unfoldable pub recover : World → RunStore → Result RunError RunStore
recover world s =
    if has_failed s.run.state then outcome (Cleanup.quarantine world "process_lost" s) else ok s

abbrev pub recover_all : World → Result RunError RunStore → Result RunError RunStore
recover_all world (ok s) = recover world s
recover_all world (err e) = err e

abbrev pub begin : World → String → Result RunError ℕ → Result RunError RunStore
begin world run_id (ok now) = write_and_bind world (initial run_id now)
begin world run_id (err e) = err e

-- `__init__` once the file is read: nothing, or a record and whether it is of the legacy form.
unfoldable pub open_on :
    World → World → String → Option (RunRecord × Bool) → Result RunError RunStore
open_on world world' run_id none = begin world run_id (some_or world.clock clock_invalid)
open_on world world' run_id (some (r, legacy)) =
    if str_eq r.run_id run_id
    then recover_all world' (if legacy then write_and_bind world r else bind_run world r)
    else err state_invalid

-- `__init__`: the second world is that of the call of `quarantine`.
unfoldable pub open_store :
    World → World → String → Option (RunRecord × Bool) → Result RunError RunStore
open_store world world' run_id existing =
    if is_run_id run_id then open_on world world' run_id existing else err run_id_invalid

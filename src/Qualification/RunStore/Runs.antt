-- ===== src/Qualification/RunStore/Runs.antt =====
-- What holds of a run store of qualification/run_store.py once it is opened, after any calls.
use mercury_tools.Prelude.{String, true, not, List, [], ◌∷◌, ◌≡◌, inl, inr, ap, ◌∙◌}
use mercury_tools.Qualification.RunStore.Models.{
  RunRecord, valid_run, is_completed, is_fixture_handle,
}
use mercury_tools.Qualification.RunStore.Store
use mercury_tools.Qualification.RunStore.Store.{
  RunError, fixture_handle_invalid, fixture_missing, clock_invalid, World, RunStore, Op, ◌>>=◌,
  some_or, find_fixture, validate_runtime_binding, Write, refused, detached, stored,
}
use mercury_tools.Qualification.RunStore.Cleanup
use mercury_tools.Qualification.RunStore.Cleanup.{coerce_reason, in_quarantine}
use mercury_tools.Qualification.RunStore.Steps.{
  RunKept, Steps, Steps-refl, Steps-trans, IsStep, bind-Steps, lift-Steps, raise_if-Steps,
  validate-Steps, get_run-Steps,
}
use mercury_tools.Qualification.RunStore.Methods.{
  reads-Steps, record_fixtures-Steps, mark_cleanup-Steps, quarantine_cleanup-Steps,
  quarantine-Steps, complete-Steps,
}
use mercury_tools.Qualification.RunStore.Calls.{Call, apply_call, serve}

publication_allowed-Steps :
    (world : World) (s : RunStore) → IsStep (Store.publication_allowed world) s
unfolding Store.publication_allowed
publication_allowed-Steps world s =
    bind-Steps (validate_runtime_binding world.bound) _ s (validate-Steps world.bound s)
      (λ u s' e. Steps-refl s')

cleanup_status-Steps :
    (world : World) (handle : String) (s : RunStore)
    → IsStep (Cleanup.cleanup_status world handle) s
unfolding Cleanup.cleanup_status
cleanup_status-Steps world handle s = reads-Steps world _ s λ s'.
    raise_if-Steps (not (is_fixture_handle handle)) fixture_handle_invalid _ s' λ a.
      lift-Steps (some_or (find_fixture handle s'.run.fixtures) fixture_missing) _ s'
        λ f b. Steps-refl s'

call-Steps : (call : Call) (s : RunStore) → Steps s (apply_call call s)
unfolding apply_call
call-Steps (Call.get_run world) s = get_run-Steps world s
call-Steps (Call.publication_allowed world) s = publication_allowed-Steps world s
call-Steps (Call.complete world) s = complete-Steps world s
call-Steps (Call.record_fixtures world references) s = record_fixtures-Steps world references s
call-Steps (Call.mark_cleanup world handle status) s = mark_cleanup-Steps world handle status s
call-Steps (Call.quarantine_cleanup world handle status) s =
    quarantine_cleanup-Steps world handle status s
call-Steps (Call.quarantine world reason) s = quarantine-Steps world reason s
call-Steps (Call.cleanup_status world handle) s = cleanup_status-Steps world handle s

pub serve-Steps : (calls : List Call) (s : RunStore) → Steps s (serve calls s)
unfolding serve
serve-Steps [] s = Steps-refl s
serve-Steps (call ∷ calls) s =
    Steps-trans s (apply_call call s) (serve calls (apply_call call s)) (call-Steps call s)
      (serve-Steps calls (apply_call call s))

-- Whatever is called, a run stays the same run and its time does not go back; a quarantine stays with
-- its reason; and every fixture that was recorded is still there, the same, and with another cleanup
-- status only if it was pending.
pub serve-RunKept : (calls : List Call) (s : RunStore) → RunKept s.run (serve calls s).run
serve-RunKept calls s = (serve-Steps calls s).run

-- The records in memory and in the file are valid, and publication is granted to a completed run only.
pub record IsSound (s : RunStore) : Type 0 where
  pub run : valid_run s.run ≡ true
  pub disk : valid_run s.disk ≡ true
  pub granted : s.granted ≡ true → is_completed s.run.state ≡ true

pub Steps-IsSound : (s s' : RunStore) → Steps s s' → IsSound s → IsSound s'
Steps-IsSound s s' p q = record {
  run = p.valid q.run;
  disk = p.disk_valid q.disk;
  granted = λ w. elim (p.granted w) [
    | inr c ↦ c
    | inl (g, e) ↦ ap (λ (r : RunRecord). is_completed r.state) e ∙ q.granted g
  ];
}

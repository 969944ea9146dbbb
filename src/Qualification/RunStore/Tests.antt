-- ===== src/Qualification/RunStore/Tests.antt =====
-- A run of qualification/run_store.py at concrete inputs, and the theorems at it.
use mercury_tools.Prelude.{ℕ, String, true, false, none, some, List, [], ◌∷◌, ok, ◌≡◌, refl, arith}
use mercury_tools.Qualification.RunStore.Models.{
  CleanupStatus, QualificationRunState, quarantined, process_lost, FixtureReference, StoredFixture,
  RunRecord, is_run_id, is_fixture_handle, is_action_id, is_version_id, contains, has_duplicate,
  insert, sort, same_texts, valid_reference, valid_fixture, valid_run_state, valid_run,
  is_completed, all_cleaned,
}
use mercury_tools.Qualification.RunStore.Store
use mercury_tools.Qualification.RunStore.Store.{World, RunStore, stored}
use mercury_tools.Qualification.RunStore.Cleanup
use mercury_tools.Qualification.RunStore.Steps.{RunKept}
use mercury_tools.Qualification.RunStore.Calls.{
  Call, apply_call, serve, initial, fresh, bind_run, write_and_bind, recover, open_on, open_store,
}
use mercury_tools.Qualification.RunStore.Runs.{IsSound, serve-RunKept}
use mercury_tools.Qualification.RunStore.Opening.{open_store-IsSound, open_store-lost}
use mercury_tools.Qualification.RunStore.Publication.{
  publication_allowed-cleaned, serve-disk, complete-publishes, published,
}

abbrev run_id : String
run_id = "run_0123456789ABCDEFGHJKMNPQRS"

abbrev handle : String
handle = "fx_0123456789ABCDEFGHJKMNPQRS"

abbrev at : ℕ → World
at now = record {
  clock = some now;
  bound = true;
  bound_at_write = true;
  write = stored;
  bound_after = true;
}

abbrev reference : FixtureReference
reference = record {
  handle = handle;
  action_id = "act_0123456789abcdef01234567";
  version_id = "av_0123456789abcdef0123456789abcdef0123456789abcdef0123456789abcdef";
  cleanup_action_id = "act_0123456789abcdef01234567";
  cleanup_version_id = "av_0123456789abcdef0123456789abcdef0123456789abcdef0123456789abcdef";
  depends_on = [];
}

abbrev begun : RunStore
begun = fresh (initial run_id 5)

abbrev calls : List Call
calls =
    Call.record_fixtures (at 6) (reference ∷ [])
    ∷ Call.mark_cleanup (at 7) handle "cleaned"
    ∷ Call.complete (at 8)
    ∷ []

run_id_valid : is_run_id run_id ≡ true
unfolding is_run_id
run_id_valid = refl

opened : open_store (at 5) (at 5) run_id none ≡ ok begun
unfolding open_store open_on write_and_bind bind_run is_run_id
opened = refl

abbrev cleaned_fixture : StoredFixture
cleaned_fixture = record {
  reference = reference;
  registered_at = 6;
  cleanup_status = CleanupStatus.cleaned;
  cleanup_updated_at = some 7;
}

abbrev complete_run : RunRecord
complete_run = record (initial run_id 5) {
  state = QualificationRunState.completed;
  updated_at = 8;
  fixtures = cleaned_fixture ∷ [];
}

abbrev done : RunStore
done = record { run = complete_run; granted = true; binding_failed = false; disk = complete_run }

served : serve calls begun ≡ done
unfolding serve apply_call Store.record_fixtures Store.get_run Store.validate_runtime_binding
    Store.register Store.register_one Store.find_fixture Store.record_new Store.sort_fixtures
    Store.insert_fixture Store.replace Store.timestamp Store.replace_at Store.write_run
    Store.end_write Store.settle Store.publication_allowed Cleanup.mark_cleanup
    Cleanup.coerce_status Cleanup.mark Cleanup.keep_marked Cleanup.complete Cleanup.finish
    Cleanup.quarantine Cleanup.coerce_reason open_store open_on write_and_bind bind_run recover
    is_run_id is_fixture_handle is_action_id is_version_id contains has_duplicate insert sort
    same_texts valid_reference valid_fixture valid_run_state valid_run
served = refl

allowed : Store.publication_allowed (at 9) (serve calls begun) ≡ (ok true, done)
unfolding serve apply_call Store.record_fixtures Store.get_run Store.validate_runtime_binding
    Store.register Store.register_one Store.find_fixture Store.record_new Store.sort_fixtures
    Store.insert_fixture Store.replace Store.timestamp Store.replace_at Store.write_run
    Store.end_write Store.settle Store.publication_allowed Cleanup.mark_cleanup
    Cleanup.coerce_status Cleanup.mark Cleanup.keep_marked Cleanup.complete Cleanup.finish
    Cleanup.quarantine Cleanup.coerce_reason open_store open_on write_and_bind bind_run recover
    is_run_id is_fixture_handle is_action_id is_version_id contains has_duplicate insert sort
    same_texts valid_reference valid_fixture valid_run_state valid_run
allowed = refl

serve-RunKept_example : RunKept (initial run_id 5) (serve calls begun).run
serve-RunKept_example = serve-RunKept calls begun

publication_allowed-cleaned_example :
    (is_completed (serve calls begun).run.state ≡ true)
    × (all_cleaned (serve calls begun).run.fixtures ≡ true)
    × ((serve calls begun).run.quarantine_reason ≡ none)
publication_allowed-cleaned_example =
    publication_allowed-cleaned (at 5) (at 5) (at 9) run_id none begun done calls tt opened allowed

serve-disk_example :
    (valid_run (serve calls begun).disk ≡ true)
    × ((serve calls begun).disk.publication_allowed ≡ false)
serve-disk_example = serve-disk (at 5) (at 5) run_id none begun calls tt opened

abbrev lost : RunRecord
lost = record (initial run_id 5) {
  updated_at = 9;
  state = quarantined;
  quarantine_reason = some process_lost;
}

reopened : open_store (at 9) (at 9) run_id (some (initial run_id 5, false)) ≡ ok (fresh lost)
unfolding serve apply_call Store.record_fixtures Store.get_run Store.validate_runtime_binding
    Store.register Store.register_one Store.find_fixture Store.record_new Store.sort_fixtures
    Store.insert_fixture Store.replace Store.timestamp Store.replace_at Store.write_run
    Store.end_write Store.settle Store.publication_allowed Cleanup.mark_cleanup
    Cleanup.coerce_status Cleanup.mark Cleanup.keep_marked Cleanup.complete Cleanup.finish
    Cleanup.quarantine Cleanup.coerce_reason open_store open_on write_and_bind bind_run recover
    is_run_id is_fixture_handle is_action_id is_version_id contains has_duplicate insert sort
    same_texts valid_reference valid_fixture valid_run_state valid_run
reopened = refl

open_store-lost_example :
    (quarantined ≡ quarantined)
    × (some process_lost ≡ some process_lost)
    × (lost ≡ lost)
    × (lost.fixtures ≡ [])
open_store-lost_example =
    open_store-lost (at 9) (at 9) run_id (initial run_id 5) false (fresh lost) refl reopened

begun-IsSound : IsSound begun
begun-IsSound = open_store-IsSound (at 5) (at 5) run_id none begun tt opened

complete-publishes_example :
    (Cleanup.complete (at 8) begun ≡ (ok tt, published 8 begun))
    × (Store.publication_allowed (at 8) (published 8 begun) ≡ (ok true, published 8 begun))
complete-publishes_example =
    complete-publishes (at 8) 8 begun begun-IsSound
      (record {
        clock = refl;
        bound = refl;
        bound_at_write = refl;
        write = refl;
        bound_after = refl;
        binding = refl;
      })
      (omega arith) refl refl refl

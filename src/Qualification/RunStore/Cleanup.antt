-- ===== src/Qualification/RunStore/Cleanup.antt =====
-- The cleanup, the quarantine and the completion of a run, and the opening of its store, in
-- qualification/run_store.py.
use mercury_tools.Prelude.{
  ℕ, String, str_eq, Bool, true, false, not, ◌&&◌, Option, none, some, List, [], ◌∷◌, map, Result,
  ok, err, if◌then◌else◌,
}
use mercury_tools.Qualification.RunStore.Models.{
  completed, quarantined, CleanupStatus, pending, cleaned, QuarantineReason, cleanup_failed,
  process_lost, StoredFixture, RunRecord, is_fixture_handle, is_pending, is_completed,
  is_quarantined, is_cleaned, all_cleaned,
}
use mercury_tools.Qualification.RunStore.Store.{
  RunError, clock_invalid, run_finalized, run_quarantined, fixture_handle_invalid, fixture_missing,
  cleanup_status_invalid, cleanup_status_conflict, cleanup_incomplete, quarantine_reason_invalid,
  World, Op, pure, lift, raise_if, ◌>>=◌, ◌>>◌, some_or, replace, get_run, find_fixture,
  with_fixtures,
}

-- `CleanupStatus(status)`
unfoldable pub coerce_status : String → Option CleanupStatus
coerce_status text =
    if str_eq text "pending"
    then some pending
    else if str_eq text "cleaned"
    then some cleaned
    else if str_eq text "failed"
    then some CleanupStatus.failed
    else if str_eq text "outcome_unknown"
    then some CleanupStatus.outcome_unknown
    else none

abbrev pub cleaned_only : Option CleanupStatus → Bool
cleaned_only (some cleaned) = true
cleaned_only _ = false

abbrev pub with_status : CleanupStatus → ℕ → StoredFixture → StoredFixture
with_status status now f = record f { cleanup_status = status; cleanup_updated_at = some now }

-- What the loop of `mark_cleanup` found.
pub record Marked : Type 0 where
  pub updated : List StoredFixture
  pub found : Bool
  pub changed : Bool

abbrev pub mark_here : ℕ → StoredFixture → Marked → Result RunError Marked
mark_here now f rest =
    if is_cleaned f.cleanup_status
    then ok (record { updated = f ∷ rest.updated; found = true; changed = rest.changed })
    else if is_pending f.cleanup_status
    then ok (record {
      updated = with_status cleaned now f ∷ rest.updated;
      found = true;
      changed = true;
    })
    else err cleanup_status_conflict

-- The loop of `mark_cleanup`.
unfoldable pub mark : String → ℕ → List StoredFixture → Result RunError Marked
mark handle now [] = ok (record { updated = []; found = false; changed = false })
mark handle now (f ∷ fixtures) = elim (mark handle now fixtures) [
  | err e ↦ err e
  | ok rest ↦
      if str_eq f.reference.handle handle
      then mark_here now f rest
      else ok (record { updated = f ∷ rest.updated; found = rest.found; changed = rest.changed })
]

unfoldable pub keep_marked : World → ℕ → Marked → Op (Unit {0})
keep_marked world now marked =
    if marked.changed then replace world (some now) (with_fixtures marked.updated) else pure tt

-- `mark_cleanup`
unfoldable pub mark_cleanup : World → String → String → Op (Unit {0})
mark_cleanup world handle status s =
    (do
      raise_if (not (is_fixture_handle handle)) fixture_handle_invalid
      raise_if (not (cleaned_only (coerce_status status))) cleanup_status_invalid
      now ← lift (some_or world.clock clock_invalid)
      marked ← lift (mark handle now s.run.fixtures)
      raise_if (not marked.found) fixture_missing
      keep_marked world now marked)
      s

-- The table `reasons` of `quarantine_cleanup`.
abbrev pub reason_of : CleanupStatus → Option QuarantineReason
reason_of CleanupStatus.failed = some cleanup_failed
reason_of CleanupStatus.outcome_unknown = some QuarantineReason.outcome_unknown
reason_of _ = none

abbrev pub same_status : CleanupStatus → CleanupStatus → Bool
same_status pending pending = true
same_status cleaned cleaned = true
same_status CleanupStatus.failed CleanupStatus.failed = true
same_status CleanupStatus.outcome_unknown CleanupStatus.outcome_unknown = true
same_status _ _ = false

abbrev pub same_reason : Option QuarantineReason → QuarantineReason → Bool
same_reason (some cleanup_failed) cleanup_failed = true
same_reason (some QuarantineReason.outcome_unknown) QuarantineReason.outcome_unknown = true
same_reason (some process_lost) process_lost = true
same_reason _ _ = false

unfoldable pub set_status : String → CleanupStatus → ℕ → List StoredFixture → List StoredFixture
set_status handle status now fixtures =
    map (λ f. if str_eq f.reference.handle handle then with_status status now f else f) fixtures

abbrev pub in_quarantine : QuarantineReason → RunRecord → RunRecord
in_quarantine reason r = record r {
  state = quarantined;
  publication_allowed = false;
  quarantine_reason = some reason;
}

-- `quarantine_cleanup` of a run that is not in quarantine.
unfoldable pub quarantine_fixture :
    World → String → CleanupStatus → QuarantineReason → StoredFixture → Op (Unit {0})
unfolding set_status
quarantine_fixture world handle status reason target = do
  raise_if (not (is_pending target.cleanup_status)) cleanup_status_conflict
  now ← lift (some_or world.clock clock_invalid)
  replace world (some now)
      (λ r. in_quarantine reason (record r { fixtures = set_status handle status now r.fixtures }))

-- `quarantine_cleanup`
unfoldable pub quarantine_cleanup : World → String → String → Op (Unit {0})
quarantine_cleanup world handle text s =
    (do
      raise_if (not (is_fixture_handle handle)) fixture_handle_invalid
      status ← lift (some_or (coerce_status text) cleanup_status_invalid)
      reason ← lift (some_or (reason_of status) cleanup_status_invalid)
      target ← lift (some_or (find_fixture handle s.run.fixtures) fixture_missing)
      r ← get_run world
      raise_if (is_completed r.state) run_finalized
      if is_quarantined r.state
          then raise_if
              (not (
                same_reason r.quarantine_reason reason && same_status target.cleanup_status status))
              run_quarantined
          else quarantine_fixture world handle status reason target)
      s

unfoldable pub coerce_reason : String → Option QuarantineReason
coerce_reason text =
    if str_eq text "cleanup_failed"
    then some cleanup_failed
    else if str_eq text "outcome_unknown"
    then some QuarantineReason.outcome_unknown
    else if str_eq text "process_lost"
    then some process_lost
    else none

-- `quarantine`, which a completed run may enter too.
unfoldable pub quarantine : World → String → Op (Unit {0})
quarantine world text = do
  reason ← lift (some_or (coerce_reason text) quarantine_reason_invalid)
  r ← get_run world
  if is_quarantined r.state then pure tt else replace world none (in_quarantine reason)

abbrev pub in_completion : RunRecord → RunRecord
in_completion r = record r {
  state = completed;
  publication_allowed = false;
  quarantine_reason = none;
}

abbrev pub grant : Op (Unit {0})
grant s = (ok tt, record s { granted = true })

unfoldable pub finish : World → RunRecord → Op (Unit {0})
finish world r = do
  raise_if (is_quarantined r.state) run_quarantined
  raise_if (not (all_cleaned r.fixtures)) cleanup_incomplete
  replace world none in_completion
  grant

-- `complete`
unfoldable pub complete : World → Op (Unit {0})
complete world = do r ← get_run world; if is_completed r.state then pure tt else finish world r

-- `cleanup_status`
unfoldable pub cleanup_status : World → String → Op CleanupStatus
cleanup_status world handle = do
  r ← get_run world
  raise_if (not (is_fixture_handle handle)) fixture_handle_invalid
  f ← lift (some_or (find_fixture handle r.fixtures) fixture_missing)
  pure f.cleanup_status

-- ===== src/Qualification/RunStore/Methods.antt =====
-- Every method of qualification/run_store.py is a step.
use mercury_tools.Prelude.{
  ℕ, String, Bool, true, false, not, ◌&&◌, Option, none, some, List, ok, if◌then◌else◌, ◌≡◌, refl,
  inl, inr, arith, Bool-cases, ap, sym, ◌∙◌, subst,
}
use mercury_tools.Qualification.RunStore.Models.{
  CleanupStatus, pending, QuarantineReason, FixtureReference, StoredFixture, RunRecord,
  is_completed, is_quarantined, is_fixture_handle, is_pending, all_cleaned,
}
use mercury_tools.Qualification.RunStore.Store.{
  RunError, run_finalized, run_quarantined, clock_invalid, cleanup_incomplete,
  fixture_handle_invalid, cleanup_status_invalid, fixture_missing, quarantine_reason_invalid,
  cleanup_status_conflict, World, RunStore, Op, ◌>>=◌, raise_if, some_or, get_run, replace,
  register, record_new, record_fixtures, sort_fixtures, with_fixtures, find_fixture,
}
use mercury_tools.Qualification.RunStore.Cleanup.{
  coerce_status, cleaned_only, Marked, mark, keep_marked, mark_cleanup, reason_of, same_reason,
  same_status, set_status, in_quarantine, quarantine_fixture, quarantine_cleanup, coerce_reason,
  quarantine, in_completion, grant, finish, complete,
}
use mercury_tools.Qualification.RunStore.Kept.{
  FixturesKept, FixturesKept-refl, FixturesKept-trans, FixturesKept-sort, register-Kept, mark-Kept,
  set_status-Kept,
}
use mercury_tools.Qualification.RunStore.Steps.{
  RunKept-refl, Steps-refl, IsStep, bind-Steps, lift-Steps, raise_if-Steps, get_run-Steps,
  get_run-ok,
}
use mercury_tools.Qualification.RunStore.Writes.{MovesOn, replace-Steps, replace-ok}

fixtures_move :
    (r : RunRecord) (ys : List StoredFixture)
    → FixturesKept r.fixtures ys
    → MovesOn r (with_fixtures ys r)
fixtures_move r ys k = record {
  run_id = refl;
  created_at = refl;
  later = omega arith;
  quarantine = λ q. (refl, refl);
  fixtures = k;
}

-- A run that is not in quarantine may change its state.
state_moves :
    (r new : RunRecord)
    → is_quarantined r.state ≡ false
    → new.run_id ≡ r.run_id
    → new.created_at ≡ r.created_at
    → FixturesKept r.fixtures new.fixtures
    → MovesOn r new
state_moves r new out i c k = record {
  run_id = i;
  created_at = c;
  later = omega arith;
  quarantine = λ q. absurd (ground arith);
  fixtures = k;
}

-- A method that reads the run first.
pub reads-Steps :
    {B : Type 0} (world : World) (f : RunRecord → Op B) (s : RunStore)
    → ((s' : RunStore) → IsStep (f s'.run) s')
    → IsStep (get_run world >>= f) s
reads-Steps world f s k = bind-Steps (get_run world) f s (get_run-Steps world s) (λ r s' e.
    let (kept, same) = get_run-ok world s s' r e in
    subst (λ x. IsStep (f x) s') (kept ∙ sym same) (k s'))

record_new-Steps :
    (world : World) (now : ℕ) (ys : List StoredFixture) (changed : Bool) (s : RunStore)
    → FixturesKept s.run.fixtures ys
    → IsStep (record_new world now (ys, changed)) s
unfolding record_new
record_new-Steps world now ys true s k =
    replace-Steps world (some now) (with_fixtures (sort_fixtures ys)) s (
      fixtures_move s.run (sort_fixtures ys)
        (FixturesKept-trans s.run.fixtures ys (sort_fixtures ys) k (FixturesKept-sort ys)))
record_new-Steps world now ys false s k = Steps-refl s

pub record_fixtures-Steps :
    (world : World) (references : List FixtureReference) (s : RunStore)
    → IsStep (record_fixtures world references) s
unfolding record_fixtures
record_fixtures-Steps world references s = reads-Steps world _ s λ s'.
    raise_if-Steps (is_completed s'.run.state) run_finalized _ s' λ a.
      raise_if-Steps (is_quarantined s'.run.state) run_quarantined _ s' λ b.
        lift-Steps (some_or world.clock clock_invalid) _ s' λ now c.
          lift-Steps (register now references (s'.run.fixtures, false)) _ s' λ found e.
            record_new-Steps world now found.0 found.1 s'
              (register-Kept now references s'.run.fixtures found.0 false found.1 e)

keep_marked-Steps :
    (world : World) (now : ℕ) (m : Marked) (s : RunStore)
    → FixturesKept s.run.fixtures m.updated
    → IsStep (keep_marked world now m) s
unfolding keep_marked
keep_marked-Steps world now m s k = elim (Bool-cases m.changed) [
  | inr e ↦ rw e (Steps-refl s)
  | inl e ↦
      rw e (
        replace-Steps world (some now) (with_fixtures m.updated) s
          (fixtures_move s.run m.updated k))
]

pub mark_cleanup-Steps :
    (world : World) (handle status : String) (s : RunStore)
    → IsStep (mark_cleanup world handle status) s
unfolding mark_cleanup
mark_cleanup-Steps world handle status s =
    raise_if-Steps (not (is_fixture_handle handle)) fixture_handle_invalid _ s λ a.
      raise_if-Steps (not (cleaned_only (coerce_status status))) cleanup_status_invalid _ s λ b.
        lift-Steps (some_or world.clock clock_invalid) _ s λ now c.
          lift-Steps (mark handle now s.run.fixtures) _ s λ m e.
            raise_if-Steps (not m.found) fixture_missing _ s
              λ d. keep_marked-Steps world now m s (mark-Kept handle now s.run.fixtures m e)

quarantine_fixture-Steps :
    (world : World) (handle : String) (status : CleanupStatus) (reason : QuarantineReason)
    (target : StoredFixture) (s : RunStore)
    → is_quarantined s.run.state ≡ false
    → find_fixture handle s.run.fixtures ≡ some target
    → IsStep (quarantine_fixture world handle status reason target) s
unfolding quarantine_fixture
quarantine_fixture-Steps world handle status reason target s out f =
    raise_if-Steps (not (is_pending target.cleanup_status)) cleanup_status_conflict _ s λ p.
      lift-Steps (some_or world.clock clock_invalid) _ s λ now c.
        replace-Steps world (some now)
          (λ r.
            in_quarantine reason (record r { fixtures = set_status handle status now r.fixtures }))
          s
          (state_moves s.run
            (in_quarantine reason
              (record s.run { fixtures = set_status handle status now s.run.fixtures }))
            out refl refl
            (set_status-Kept handle status now s.run.fixtures target f
              (pending_is target.cleanup_status p)))
  where
    pending_is : (c : CleanupStatus) → not (is_pending c) ≡ false → c ≡ pending
    pending_is c p = ground arith

some_or-ok : {A : Type 0} (o : Option A) (e : RunError) (a : A) → some_or o e ≡ ok a → o ≡ some a
some_or-ok none e a h = absurd (ground arith)
some_or-ok (some b) e a h = ground arith

test-Steps : (b : Bool) (e : RunError) (s : RunStore) → IsStep (raise_if b e) s
test-Steps true e s = Steps-refl s
test-Steps false e s = Steps-refl s

if-Steps :
    {A : Type 0} (b : Bool) (m k : Op A) (s : RunStore)
    → (b ≡ true → IsStep m s)
    → (b ≡ false → IsStep k s)
    → IsStep (if b then m else k) s
if-Steps true m k s p q = p refl
if-Steps false m k s p q = q refl

pub quarantine_cleanup-Steps :
    (world : World) (handle text : String) (s : RunStore)
    → IsStep (quarantine_cleanup world handle text) s
unfolding quarantine_cleanup
quarantine_cleanup-Steps world handle text s =
    raise_if-Steps (not (is_fixture_handle handle)) fixture_handle_invalid _ s λ a.
      lift-Steps (some_or (coerce_status text) cleanup_status_invalid) _ s λ status b.
        lift-Steps (some_or (reason_of status) cleanup_status_invalid) _ s λ reason c.
          lift-Steps (some_or (find_fixture handle s.run.fixtures) fixture_missing) _ s λ target d.
            bind-Steps (get_run world) _ s (get_run-Steps world s) λ r s' e.
              let (kept, same) = get_run-ok world s s' r e in
              raise_if-Steps (is_completed r.state) run_finalized _ s' λ p.
                if-Steps (is_quarantined r.state) _ _ s'
                  (λ q.
                    test-Steps
                      (not (
                        same_reason r.quarantine_reason reason
                        && same_status target.cleanup_status status))
                      run_quarantined s')
                  λ q.
                    quarantine_fixture-Steps world handle status reason target s'
                      (ap (λ (x : RunRecord). is_quarantined x.state) (kept ∙ sym same) ∙ q)
                      (ap (λ (x : RunRecord). find_fixture handle x.fixtures) kept
                        ∙ some_or-ok (find_fixture handle s.run.fixtures) fixture_missing target d)

pub quarantine-Steps :
    (world : World) (text : String) (s : RunStore) → IsStep (quarantine world text) s
unfolding quarantine
quarantine-Steps world text s =
    lift-Steps (some_or (coerce_reason text) quarantine_reason_invalid) _ s λ reason a.
      reads-Steps world _ s λ s'.
        if-Steps (is_quarantined s'.run.state) _ _ s' (λ q. Steps-refl s')
          λ q. replace-Steps world none (in_quarantine reason) s' (
            state_moves s'.run (in_quarantine reason s'.run) q refl refl
              (FixturesKept-refl s'.run.fixtures))

grant-Steps : (s : RunStore) → is_completed s.run.state ≡ true → IsStep grant s
grant-Steps s c = record {
  run = RunKept-refl s.run;
  disk = inl refl;
  valid = λ v. v;
  disk_valid = λ v. v;
  granted = λ w. inr c;
}

finish-Steps : (world : World) (s : RunStore) → IsStep (finish world s.run) s
unfolding finish
finish-Steps world s = raise_if-Steps (is_quarantined s.run.state) run_quarantined _ s λ q.
    raise_if-Steps (not (all_cleaned s.run.fixtures)) cleanup_incomplete _ s λ c.
      bind-Steps (replace world none in_completion) (λ u. grant) s
        (replace-Steps world none in_completion s
          (state_moves s.run (in_completion s.run) q refl refl (FixturesKept-refl s.run.fixtures)))
        λ u s' e.
          let (now, run, _, _) = replace-ok world none in_completion s s' e in
          grant-Steps s' (ap (λ (r : RunRecord). is_completed r.state) run)

pub complete-Steps : (world : World) (s : RunStore) → IsStep (complete world) s
unfolding complete
complete-Steps world s = reads-Steps world _ s λ s'.
    if-Steps (is_completed s'.run.state) _ _ s' (λ c. Steps-refl s') λ c. finish-Steps world s'

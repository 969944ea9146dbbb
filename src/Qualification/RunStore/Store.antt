-- ===== src/Qualification/RunStore/Store.antt =====
-- `QualificationRunStore` of qualification/run_store.py. A method that raises keeps what it had set, as
-- the attributes of an object do.
use mercury_tools.Prelude.{
  ℕ, String, str_eq, str_lt, Bool, true, false, ◌&&◌, Option, none, some, List, [], ◌∷◌, ◌++◌,
  Result, ok, err, ltb, if◌then◌else◌,
}
use mercury_tools.Qualification.RunStore.Models.{
  pending, FixtureReference, StoredFixture, RunRecord, same_texts, valid_reference, valid_run,
  is_completed, is_quarantined,
}

pub data RunError : Type 0 where
  run_id_invalid state_invalid state_path_unsafe clock_invalid clock_regressed : RunError
  run_finalized run_quarantined fixture_handle_invalid fixture_invalid fixture_mismatch : RunError
  fixture_missing cleanup_status_invalid cleanup_status_conflict cleanup_incomplete : RunError
  quarantine_reason_invalid : RunError

-- How the write of the state file ends: it raises with the old file in place, it raises after the new
-- file is in place, or it returns.
pub data Write : Type 0 where
  refused detached stored : Write

-- What a call finds outside the object: its clock, whether the run directory is still bound before the
-- write, at it and after it, and how the write ends.
pub record World : Type 0 where
  pub clock : Option ℕ
  pub bound : Bool
  pub bound_at_write : Bool
  pub write : Write
  pub bound_after : Bool

-- `_record`, `_runtime_publication_granted`, `_runtime_binding_failed`, and the state file.
pub record RunStore : Type 0 where
  pub run : RunRecord
  pub granted : Bool
  pub binding_failed : Bool
  pub disk : RunRecord

abbrev pub Op : Type 0 → Type 0
Op A = RunStore → Result RunError A × RunStore

abbrev pub pure : {A : Type 0} → A → Op A
pure a s = (ok a, s)

abbrev pub raise : {A : Type 0} → RunError → Op A
raise e s = (err e, s)

abbrev pub go_on :
    {A B : Type 0} → (A → Op B) → Result RunError A × RunStore → Result RunError B × RunStore
go_on f (ok a, s) = f a s
go_on f (err e, s) = (err e, s)

infixl 5 ◌>>=◌ ◌>>◌
abbrev pub ◌>>=◌ : {A B : Type 0} → Op A → (A → Op B) → Op B
◌>>=◌ m f s = go_on f (m s)

abbrev pub ◌>>◌ : {B : Type 0} → Op (Unit {0}) → Op B → Op B
m >> k = m >>= λ _. k

abbrev pub lift : {A : Type 0} → Result RunError A → Op A
lift r s = (r, s)

-- `if test: raise e`
abbrev pub raise_if : Bool → RunError → Op (Unit {0})
raise_if true e s = (err e, s)
raise_if false e s = (ok tt, s)

abbrev pub some_or : {A : Type 0} → Option A → RunError → Result RunError A
some_or (some a) e = ok a
some_or none e = err e

-- `_validate_runtime_binding`, which fails for ever once it has failed.
unfoldable pub validate_runtime_binding : Bool → Op (Unit {0})
validate_runtime_binding bound s =
    if s.binding_failed
    then (err state_path_unsafe, s)
    else if bound
    then (ok tt, s)
    else (err state_path_unsafe, record s { binding_failed = true })

-- `_timestamp`
unfoldable pub timestamp : World → Option ℕ → Result RunError ℕ
timestamp world (some at) = ok at
timestamp world none = some_or world.clock clock_invalid

abbrev pub settled :
    RunRecord → Result RunError (Unit {0}) × RunStore → Result RunError (Unit {0}) × RunStore
settled previous (ok a, s) = (ok a, s)
settled previous (err e, s) = (err e, record s { run = previous })

-- The check after the write, which takes the new record back.
unfoldable pub settle : Bool → RunRecord → RunRecord → Op (Unit {0})
settle bound previous candidate s =
    settled previous (validate_runtime_binding bound (record s { run = candidate }))

unfoldable pub end_write : Write → Bool → RunRecord → Op (Unit {0})
end_write refused bound candidate s = (err state_path_unsafe, s)
end_write detached bound candidate s = (err state_path_unsafe, record s { disk = candidate })
end_write stored bound candidate s = settle bound s.run candidate (record s { disk = candidate })

unfoldable pub write_run : World → RunRecord → Op (Unit {0})
write_run world candidate = end_write world.write world.bound_after candidate

-- `_replace` once the time is known.
unfoldable pub replace_at : World → ℕ → (RunRecord → RunRecord) → Op (Unit {0})
unfolding write_run
replace_at world now update s =
    let candidate : RunRecord = record (update s.run) { updated_at = now } in
    if ltb now s.run.updated_at
    then (err clock_regressed, s)
    else if valid_run candidate
    then write_run world candidate s
    else (err state_invalid, s)

-- `_replace`
unfoldable pub replace : World → Option ℕ → (RunRecord → RunRecord) → Op (Unit {0})
unfolding validate_runtime_binding timestamp replace_at
replace world transition_at update s =
    (do
      validate_runtime_binding world.bound_at_write
      now ← lift (timestamp world transition_at)
      replace_at world now update)
      (record s { granted = false })

-- The properties `state` and `quarantine_reason`.
unfoldable pub get_run : World → Op RunRecord
unfolding validate_runtime_binding
get_run world s = (validate_runtime_binding world.bound >>= λ u s'. (ok s'.run, s')) s

-- `publication_allowed`
unfoldable pub publication_allowed : World → Op Bool
unfolding validate_runtime_binding
publication_allowed world s =
    (validate_runtime_binding world.bound >>= λ u s'.
    (ok (is_completed s'.run.state && s'.granted), s'))
      s

unfoldable pub find_fixture : String → List StoredFixture → Option StoredFixture
find_fixture handle [] = none
find_fixture handle (f ∷ fixtures) =
    if str_eq f.reference.handle handle then some f else find_fixture handle fixtures

unfoldable pub same_reference : FixtureReference → FixtureReference → Bool
same_reference a b =
    str_eq a.handle b.handle
    && str_eq a.action_id b.action_id
    && str_eq a.version_id b.version_id
    && str_eq a.cleanup_action_id b.cleanup_action_id
    && str_eq a.cleanup_version_id b.cleanup_version_id
    && same_texts a.depends_on b.depends_on

-- The fixture that a new reference is stored as.
abbrev pub registered : ℕ → FixtureReference → StoredFixture
registered now reference = record {
  reference = reference;
  registered_at = now;
  cleanup_status = pending;
  cleanup_updated_at = none;
}

-- One turn of the loop of `record_fixtures`: the fixtures, and whether any is new.
unfoldable pub register_one :
    ℕ
    → FixtureReference
    → Option StoredFixture
    → List StoredFixture × Bool
    → Result RunError (List StoredFixture × Bool)
unfolding same_reference
register_one now reference none (existing, changed) =
    ok (existing ++ registered now reference ∷ [], true)
register_one now reference (some current) (existing, changed) =
    if same_reference current.reference reference
    then ok (existing, changed)
    else err fixture_mismatch

unfoldable pub register :
    ℕ
    → List FixtureReference
    → List StoredFixture × Bool
    → Result RunError (List StoredFixture × Bool)
unfolding register_one find_fixture
register now [] found = ok found
register now (reference ∷ references) (existing, changed) =
    if valid_reference reference
    then elim (register_one now reference (find_fixture reference.handle existing)
        (existing, changed)) [ ok found ↦ register now references found | err e ↦ err e ]
    else err fixture_invalid

unfoldable pub insert_fixture : StoredFixture → List StoredFixture → List StoredFixture
insert_fixture f [] = f ∷ []
insert_fixture f (g ∷ fixtures) =
    let rest = insert_fixture f fixtures in
    if str_lt g.reference.handle f.reference.handle then g ∷ rest else f ∷ g ∷ fixtures

-- `existing[key] for key in sorted(existing)`
unfoldable pub sort_fixtures : List StoredFixture → List StoredFixture
unfolding insert_fixture
sort_fixtures [] = []
sort_fixtures (f ∷ fixtures) = insert_fixture f (sort_fixtures fixtures)

abbrev pub with_fixtures : List StoredFixture → RunRecord → RunRecord
with_fixtures fixtures r = record r { fixtures = fixtures }

unfoldable pub record_new : World → ℕ → List StoredFixture × Bool → Op (Unit {0})
record_new world now (existing, true) =
    replace world (some now) (with_fixtures (sort_fixtures existing))
record_new world now (existing, false) = pure tt

-- `record_fixtures`
unfoldable pub record_fixtures : World → List FixtureReference → Op (Unit {0})
unfolding get_run
record_fixtures world fixtures = do
  r ← get_run world
  raise_if (is_completed r.state) run_finalized
  raise_if (is_quarantined r.state) run_quarantined
  now ← lift (some_or world.clock clock_invalid)
  found ← lift (register now fixtures (r.fixtures, false))
  record_new world now found

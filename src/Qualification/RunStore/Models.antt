-- ===== src/Qualification/RunStore/Models.antt =====
-- The records of qualification/run_store.py and their validation.
use mercury_tools.Prelude.{
  ℕ, String, str_eq, str_lt, codes, Bool, true, false, not, ◌&&◌, ◌||◌, Option, none, some, List,
  [], ◌∷◌, map, any, all, length, leb, ◌==◌, if◌then◌else◌,
}

-- `QualificationRunState` of qualification/models.py
pub data QualificationRunState : Type 0 where
  completed quarantined failed : QualificationRunState

pub data CleanupStatus : Type 0 where
  pending cleaned failed outcome_unknown : CleanupStatus

pub data QuarantineReason : Type 0 where
  cleanup_failed outcome_unknown process_lost : QuarantineReason

pub record FixtureReference : Type 0 where
  pub handle : String
  pub action_id : String
  pub version_id : String
  pub cleanup_action_id : String
  pub cleanup_version_id : String
  pub depends_on : List String

-- `_StoredFixture`. Times are microseconds in UTC.
pub record StoredFixture : Type 0 where
  pub reference : FixtureReference
  pub registered_at : ℕ
  pub cleanup_status : CleanupStatus
  pub cleanup_updated_at : Option ℕ

-- `_RunRecord`
pub record RunRecord : Type 0 where
  pub run_id : String
  pub state : QualificationRunState
  pub publication_allowed : Bool
  pub quarantine_reason : Option QuarantineReason
  pub created_at : ℕ
  pub updated_at : ℕ
  pub fixtures : List StoredFixture

-- The characters of the prefix, then `count` characters of the class.
is_tagged : List ℕ → (ℕ → Bool) → ℕ → List ℕ → Bool
is_tagged [] class count text = all class text && length text == count
is_tagged (p ∷ prefix) class count [] = false
is_tagged (p ∷ prefix) class count (c ∷ text) = c == p && is_tagged prefix class count text

-- The class `[0-9A-HJKMNP-TV-Z]`.
abbrev is_crockford : ℕ → Bool
is_crockford c =
    leb b'0' c && leb c b'9'
    || leb b'A' c && leb c b'Z' && not (c == b'I' || c == b'L' || c == b'O' || c == b'U')

-- The class `[0-9a-f]`.
abbrev is_hex : ℕ → Bool
is_hex c = leb b'0' c && leb c b'9' || leb b'a' c && leb c b'f'

-- `_RUN_ID`
unfoldable pub is_run_id : String → Bool
unfolding is_tagged
is_run_id value = is_tagged (codes "run_") is_crockford 26 (codes value)

-- `_FIXTURE_HANDLE`
unfoldable pub is_fixture_handle : String → Bool
unfolding is_tagged
is_fixture_handle value = is_tagged (codes "fx_") is_crockford 26 (codes value)

-- `_ACTION_ID`
unfoldable pub is_action_id : String → Bool
unfolding is_tagged
is_action_id value = is_tagged (codes "act_") is_hex 24 (codes value)

-- `_VERSION_ID`
unfoldable pub is_version_id : String → Bool
unfolding is_tagged
is_version_id value = is_tagged (codes "av_") is_hex 64 (codes value)

-- `value in values`
unfoldable pub contains : String → List String → Bool
contains value values = any (λ other. str_eq value other) values

-- `len(values) != len(set(values))`
unfoldable pub has_duplicate : List String → Bool
unfolding contains
has_duplicate [] = false
has_duplicate (v ∷ values) = contains v values || has_duplicate values

unfoldable pub insert : String → List String → List String
insert v [] = v ∷ []
insert v (w ∷ values) =
    let rest = insert v values in if str_lt w v then w ∷ rest else v ∷ w ∷ values

-- `sorted`
unfoldable pub sort : List String → List String
unfolding insert
sort [] = []
sort (v ∷ values) = insert v (sort values)

unfoldable pub same_texts : List String → List String → Bool
same_texts [] [] = true
same_texts (v ∷ values) (w ∷ others) = str_eq v w && same_texts values others
same_texts _ _ = false

-- The fields of `FixtureReference` with `validate_dependencies`.
unfoldable pub valid_reference : FixtureReference → Bool
unfolding is_fixture_handle is_action_id is_version_id has_duplicate
valid_reference reference =
    is_fixture_handle reference.handle
    && is_action_id reference.action_id
    && is_version_id reference.version_id
    && is_action_id reference.cleanup_action_id
    && is_version_id reference.cleanup_version_id
    && not (has_duplicate reference.depends_on)
    && all is_fixture_handle reference.depends_on

abbrev pub is_some {ℓ} : {A : Type ℓ} → Option A → Bool
is_some none = false
is_some (some a) = true

abbrev pub is_pending : CleanupStatus → Bool
is_pending CleanupStatus.pending = true
is_pending _ = false

abbrev pub is_cleaned : CleanupStatus → Bool
is_cleaned CleanupStatus.cleaned = true
is_cleaned _ = false

-- `validate_cleanup_timestamp`; every time of the model is in UTC.
unfoldable pub valid_fixture : StoredFixture → Bool
unfolding valid_reference
valid_fixture fixture =
    valid_reference fixture.reference
    && (if is_pending fixture.cleanup_status
        then not (is_some fixture.cleanup_updated_at)
        else is_some fixture.cleanup_updated_at)

abbrev pub handles : RunRecord → List String
handles r = map (λ fixture. fixture.reference.handle) r.fixtures

abbrev pub is_quarantined : QualificationRunState → Bool
is_quarantined QualificationRunState.quarantined = true
is_quarantined _ = false

abbrev pub is_completed : QualificationRunState → Bool
is_completed QualificationRunState.completed = true
is_completed _ = false

-- `fixture.cleanup_status is CLEANED` for all of them.
abbrev pub all_cleaned : List StoredFixture → Bool
all_cleaned = all (λ fixture. is_cleaned fixture.cleanup_status)

-- `validate_run_state`
unfoldable pub valid_run_state : RunRecord → Bool
valid_run_state r =
    leb r.created_at r.updated_at
    && same_texts (handles r) (sort (handles r))
    && not (has_duplicate (handles r))
    && all
        (λ fixture.
          all (λ dependency. contains dependency (handles r)) fixture.reference.depends_on)
        r.fixtures
    && (if is_quarantined r.state
        then is_some r.quarantine_reason
        else not (is_some r.quarantine_reason))
    && not (is_completed r.state && not (all_cleaned r.fixtures))

-- `_PersistedRun`
unfoldable pub valid_run : RunRecord → Bool
valid_run r =
    is_run_id r.run_id
    && all valid_fixture r.fixtures
    && valid_run_state r
    && not r.publication_allowed

-- ===== src/Qualification/RunStore/Steps.antt =====
-- What a method of qualification/run_store.py may do to the store: the run only moves on, on disk too,
-- and publication is granted to a completed run only.
use mercury_tools.Prelude.{
  ◌≤◌, Bool, true, false, Result, ok, err, ◌≡◌, refl, ◌⊎◌, inl, inr, arith, ap, sym, ◌∙◌, subst,
}
use mercury_tools.Qualification.RunStore.Models.{RunRecord, valid_run, is_completed, is_quarantined}
use mercury_tools.Qualification.RunStore.Store.{
  RunError, World, RunStore, Op, ◌>>=◌, ◌>>◌, go_on, lift, raise_if, validate_runtime_binding,
  get_run,
}
use mercury_tools.Qualification.RunStore.Kept.{FixturesKept, FixturesKept-refl, FixturesKept-trans}

-- The same run, later: a quarantine stays with its reason, and no fixture is lost.
pub record RunKept (r r' : RunRecord) : Type 0 where
  pub run_id : r'.run_id ≡ r.run_id
  pub created_at : r'.created_at ≡ r.created_at
  pub later : r.updated_at ≤ r'.updated_at
  pub quarantine :
      is_quarantined r.state ≡ true
      → (r'.state ≡ r.state) × (r'.quarantine_reason ≡ r.quarantine_reason)
  pub fixtures : FixturesKept r.fixtures r'.fixtures

pub RunKept-refl : (r : RunRecord) → RunKept r r
RunKept-refl r = record {
  run_id = refl;
  created_at = refl;
  later = omega arith;
  quarantine = λ q. (refl, refl);
  fixtures = FixturesKept-refl r.fixtures;
}

pub RunKept-trans : (a b c : RunRecord) → RunKept a b → RunKept b c → RunKept a c
RunKept-trans a b c p q = record {
  run_id = q.run_id ∙ p.run_id;
  created_at = q.created_at ∙ p.created_at;
  later = omega (arith, p.later, q.later);
  quarantine = λ w. ground (arith, p.quarantine w, q.quarantine);
  fixtures = FixturesKept-trans a.fixtures b.fixtures c.fixtures p.fixtures q.fixtures;
}

pub record Steps (s s' : RunStore) : Type 0 where
  pub run : RunKept s.run s'.run
  pub disk : (s'.disk ≡ s.disk) ⊎ RunKept s.run s'.disk
  pub valid : valid_run s.run ≡ true → valid_run s'.run ≡ true
  pub disk_valid : valid_run s.disk ≡ true → valid_run s'.disk ≡ true
  pub granted :
      s'.granted ≡ true
      → ((s.granted ≡ true) × (s'.run ≡ s.run)) ⊎ (is_completed s'.run.state ≡ true)

-- The run, the file and the grant are as they were.
pub Steps-same :
    (s s' : RunStore) → s'.run ≡ s.run → s'.disk ≡ s.disk → s'.granted ≡ s.granted → Steps s s'
Steps-same s s' r d g = record {
  run = subst (RunKept s.run) (sym r) (RunKept-refl s.run);
  disk = inl d;
  valid = λ v. ap valid_run r ∙ v;
  disk_valid = λ v. ap valid_run d ∙ v;
  granted = λ w. inl (sym g ∙ w, r);
}

pub Steps-refl : (s : RunStore) → Steps s s
Steps-refl s = Steps-same s s refl refl refl

pub Steps-trans : (a b c : RunStore) → Steps a b → Steps b c → Steps a c
Steps-trans a b c p q = record {
  run = RunKept-trans a.run b.run c.run p.run q.run;
  disk = elim q.disk [
    | inr k ↦ inr (RunKept-trans a.run b.run c.disk p.run k)
    | inl e ↦ elim p.disk [ inl d ↦ inl (e ∙ d) | inr k ↦ inr (subst (RunKept a.run) (sym e) k) ]
  ];
  valid = λ v. q.valid (p.valid v);
  disk_valid = λ v. q.disk_valid (p.disk_valid v);
  granted = λ w. elim (q.granted w) [
    | inr done ↦ inr done
    | inl (g, e) ↦ elim (p.granted g) [
      | inl (g', e') ↦ inl (g', e ∙ e')
      | inr done ↦ inr (ap (λ (r : RunRecord). is_completed r.state) e ∙ done)
    ]
  ];
}

-- The method takes the store a step on.
abbrev pub IsStep : {A : Type 0} → Op A → RunStore → Type 0
IsStep m s = Steps s (m s).1

go_on-Steps :
    {A B : Type 0} (s : RunStore) (x : Result RunError A × RunStore) (f : A → Op B)
    → Steps s x.1
    → ((a : A) (s' : RunStore) → x ≡ (ok a, s') → IsStep (f a) s')
    → Steps s (go_on f x).1
go_on-Steps s (ok a, s') f p q = Steps-trans s s' (f a s').1 p (q a s' refl)
go_on-Steps s (err e, s') f p q = p

pub bind-Steps :
    {A B : Type 0} (m : Op A) (f : A → Op B) (s : RunStore)
    → IsStep m s
    → ((a : A) (s' : RunStore) → m s ≡ (ok a, s') → IsStep (f a) s')
    → IsStep (m >>= f) s
bind-Steps m f s p q = go_on-Steps s (m s) f p q

-- After a value that is computed, or a test.
pub lift-Steps :
    {A B : Type 0} (r : Result RunError A) (f : A → Op B) (s : RunStore)
    → ((a : A) → r ≡ ok a → IsStep (f a) s)
    → IsStep (lift r >>= f) s
lift-Steps (ok a) f s q = q a refl
lift-Steps (err e) f s q = Steps-refl s

pub raise_if-Steps :
    {B : Type 0} (b : Bool) (e : RunError) (k : Op B) (s : RunStore)
    → (b ≡ false → IsStep k s)
    → IsStep (raise_if b e >> k) s
raise_if-Steps true e k s q = Steps-refl s
raise_if-Steps false e k s q = q refl

pub validate-run :
    (bound : Bool) (s s' : RunStore) (r : Result RunError (Unit {0}))
    → validate_runtime_binding bound s ≡ (r, s')
    → (s'.run ≡ s.run) × (s'.disk ≡ s.disk) × (s'.granted ≡ s.granted)
unfolding validate_runtime_binding
validate-run bound s s' r h = ground arith

pub validate-Steps : (bound : Bool) (s : RunStore) → IsStep (validate_runtime_binding bound) s
validate-Steps bound s =
    let x = validate_runtime_binding bound s in
    let (run, disk, g) = validate-run bound s x.1 x.0 refl in Steps-same s x.1 run disk g

pub get_run-Steps : (world : World) (s : RunStore) → IsStep (get_run world) s
unfolding get_run
get_run-Steps world s =
    bind-Steps (validate_runtime_binding world.bound) (λ u s'. (ok s'.run, s')) s
      (validate-Steps world.bound s) (λ u s' e. Steps-refl s')

-- `get_run` reads the run and leaves it.
pub get_run-ok :
    (world : World) (s s' : RunStore) (r : RunRecord)
    → get_run world s ≡ (ok r, s')
    → (s'.run ≡ s.run) × (r ≡ s.run)
unfolding get_run validate_runtime_binding
get_run-ok world s s' r h = ground arith

go_on-ok :
    {A B : Type 0} (x : Result RunError A × RunStore) (f : A → Op B) (s' : RunStore) (b : B)
    → go_on f x ≡ (ok b, s')
    → (a : A) × (s1 : RunStore) × (x ≡ (ok a, s1)) × (f a s1 ≡ (ok b, s'))
go_on-ok (ok a, s1) f s' b h = (a, s1, refl, h)
go_on-ok (err e, s1) f s' b h = absurd (ground arith)

-- If a method returns, each of its parts has.
pub bind-ok :
    {A B : Type 0} (m : Op A) (f : A → Op B) (s s' : RunStore) (b : B)
    → (m >>= f) s ≡ (ok b, s')
    → (a : A) × (s1 : RunStore) × (m s ≡ (ok a, s1)) × (f a s1 ≡ (ok b, s'))
bind-ok m f s s' b h = go_on-ok (m s) f s' b h

pub lift-ok :
    {A B : Type 0} (r : Result RunError A) (f : A → Op B) (s s' : RunStore) (b : B)
    → (lift r >>= f) s ≡ (ok b, s')
    → (a : A) × (r ≡ ok a) × (f a s ≡ (ok b, s'))
lift-ok (ok a) f s s' b h = (a, refl, h)
lift-ok (err e) f s s' b h = absurd (ground arith)

-- ===== src/Qualification/RunStore/Opening.antt =====
-- The opening of a run store, in qualification/run_store.py.
use mercury_tools.Prelude.{
  ℕ, String, str_eq, Bool, true, false, Option, none, some, Result, ok, err, if◌then◌else◌, ◌≡◌,
  refl, ◌⊎◌, inl, inr, arith, Bool-cases, Result-cases, ap, sym, ◌∙◌, subst,
}
use mercury_tools.Qualification.RunStore.Models.{
  QualificationRunState, quarantined, process_lost, RunRecord, valid_run, valid_run_state, sort,
  same_texts, has_duplicate, is_quarantined, is_run_id,
}
use mercury_tools.Qualification.RunStore.Store
use mercury_tools.Qualification.RunStore.Store.{
  RunError, fixture_handle_invalid, fixture_missing, clock_invalid, World, RunStore, Op, ◌>>=◌,
  some_or, find_fixture, validate_runtime_binding, Write, refused, detached, stored,
}
use mercury_tools.Qualification.RunStore.Cleanup
use mercury_tools.Qualification.RunStore.Cleanup.{coerce_reason, in_quarantine}
use mercury_tools.Qualification.RunStore.Steps.{Steps, get_run-ok, bind-ok, lift-ok}
use mercury_tools.Qualification.RunStore.Writes.{replace-ok}
use mercury_tools.Qualification.RunStore.Runs.{IsSound, Steps-IsSound}
use mercury_tools.Qualification.RunStore.Methods.{quarantine-Steps}
use mercury_tools.Qualification.RunStore.Calls.{
  initial, fresh, bind_run, write_and_bind, has_failed, outcome, recover, begin, open_on,
  open_store,
}

fresh-IsSound : (r : RunRecord) → valid_run r ≡ true → IsSound (fresh r)
fresh-IsSound r v = record { run = v; disk = v; granted = λ w. absurd (ground arith) }

initial-state : (id : String) (now : ℕ) → valid_run_state (initial id now) ≡ true
unfolding valid_run_state sort same_texts has_duplicate
initial-state id now = ground arith

initial-valid : (id : String) (now : ℕ) → is_run_id id ≡ true → valid_run (initial id now) ≡ true
unfolding valid_run
initial-valid id now h = ground (arith, initial-state id now)

-- The file, if there is one, has a valid record.
abbrev pub IsReadable : Option (RunRecord × Bool) → Type 0
IsReadable none = Unit
IsReadable (some (r, legacy)) = valid_run r ≡ true

bind_run-ok : (world : World) (r : RunRecord) (s : RunStore) → bind_run world r ≡ ok s → s ≡ fresh r
unfolding bind_run
bind_run-ok world r s h = ground arith

write_and_bind-ok :
    (world : World) (r : RunRecord) (s : RunStore) → write_and_bind world r ≡ ok s → s ≡ fresh r
unfolding write_and_bind bind_run
write_and_bind-ok world r s h = ground arith

outcome-ok :
    (x : Result RunError (Unit {0}) × RunStore) (s : RunStore) → outcome x ≡ ok s → x ≡ (ok tt, s)
outcome-ok (ok u, s') s h = ground arith
outcome-ok (err e, s') s h = absurd (ground arith)

-- The store that recovery returns is the fresh one, or what a quarantine made of it.
recover-ok :
    (world : World) (s s' : RunStore)
    → recover world s ≡ ok s'
    → ((has_failed s.run.state ≡ false) × (s' ≡ s))
      ⊎ ((has_failed s.run.state ≡ true)
          × (Cleanup.quarantine world "process_lost" s ≡ (ok tt, s')))
unfolding recover
recover-ok world s s' h = elim (Bool-cases (has_failed s.run.state)) [
  | inr e ↦ inl (e, ground arith)
  | inl e ↦ inr (e, outcome-ok (Cleanup.quarantine world "process_lost" s) s' (ground arith))
]

recover-IsSound :
    (world : World) (s s' : RunStore) → recover world s ≡ ok s' → IsSound s → IsSound s'
recover-IsSound world s s' h q = elim (recover-ok world s s' h) [
  | inl (e, same) ↦ subst IsSound (sym same) q
  | inr (e, p) ↦
      Steps-IsSound s s'
        (subst (Steps s) (ap (λ (x : Result RunError (Unit {0}) × RunStore). x.1) p)
          (quarantine-Steps world "process_lost" s))
        q
]

-- What the store is recovered from.
found-ok :
    (world : World) (r : RunRecord) (legacy : Bool) (s : RunStore)
    → (if legacy then write_and_bind world r else bind_run world r) ≡ ok s
    → s ≡ fresh r
found-ok world r true s h = write_and_bind-ok world r s h
found-ok world r false s h = bind_run-ok world r s h

open_on-found :
    (world world' : World) (id : String) (r : RunRecord) (legacy : Bool) (s : RunStore)
    → open_on world world' id (some (r, legacy)) ≡ ok s
    → recover world' (fresh r) ≡ ok s
unfolding open_on
open_on-found world world' id r legacy s h = elim (Bool-cases (str_eq r.run_id id)) [
  | inr n ↦ absurd (ground arith)
  | inl y ↦ elim (Result-cases (if legacy then write_and_bind world r else bind_run world r)) [
    | inr (e, p) ↦ absurd (ground arith)
    | inl (s0, p) ↦
        subst (λ x. recover world' x ≡ ok s) (found-ok world r legacy s0 p) (ground arith)
  ]
]

begin-IsSound :
    (world : World) (id : String) (at : Result RunError ℕ) (s : RunStore)
    → is_run_id id ≡ true
    → begin world id at ≡ ok s
    → IsSound s
begin-IsSound world id (ok now) s i p =
    subst IsSound (sym (write_and_bind-ok world (initial id now) s p))
      (fresh-IsSound (initial id now) (initial-valid id now i))
begin-IsSound world id (err e) s i p = absurd (ground arith)

open_on-none :
    (world world' : World) (id : String) (s : RunStore)
    → open_on world world' id none ≡ ok s
    → begin world id (some_or world.clock clock_invalid) ≡ ok s
unfolding open_on
open_on-none world world' id s h = h

open_on-IsSound :
    (world world' : World) (id : String) (existing : Option (RunRecord × Bool)) (s : RunStore)
    → is_run_id id ≡ true
    → IsReadable existing
    → open_on world world' id existing ≡ ok s
    → IsSound s
open_on-IsSound world world' id (some (r, legacy)) s i v h =
    recover-IsSound world' (fresh r) s (open_on-found world world' id r legacy s h)
      (fresh-IsSound r v)
open_on-IsSound world world' id none s i v h =
    begin-IsSound world id (some_or world.clock clock_invalid) s i
      (open_on-none world world' id s h)

open_store-ok :
    (world world' : World) (id : String) (existing : Option (RunRecord × Bool)) (s : RunStore)
    → open_store world world' id existing ≡ ok s
    → (is_run_id id ≡ true) × (open_on world world' id existing ≡ ok s)
unfolding open_store
open_store-ok world world' id existing s h = elim (Bool-cases (is_run_id id)) [
  | inl i ↦ (i, ground arith)
  | inr n ↦ absurd (ground arith)
]

-- A store that opens on a readable file is sound.
pub open_store-IsSound :
    (world world' : World) (id : String) (existing : Option (RunRecord × Bool)) (s : RunStore)
    → IsReadable existing
    → open_store world world' id existing ≡ ok s
    → IsSound s
open_store-IsSound world world' id existing s v h =
    let (i, p) = open_store-ok world world' id existing s h in
    open_on-IsSound world world' id existing s i v p

lost_reason : coerce_reason "process_lost" ≡ some process_lost
unfolding coerce_reason
lost_reason = refl

failed_open : (q : QualificationRunState) → has_failed q ≡ true → is_quarantined q ≡ false
failed_open q h = ground arith

else-ok :
    {A : Type 0} (b : Bool) (m k : Op A) (s : RunStore) (x : Result RunError A × RunStore)
    → b ≡ false
    → (if b then m else k) s ≡ x
    → k s ≡ x
else-ok true m k s x e h = absurd (ground arith)
else-ok false m k s x e h = h

-- A quarantine that returns has put the run in quarantine, in the file too.
quarantine-ok :
    (world : World) (s s' : RunStore)
    → is_quarantined s.run.state ≡ false
    → Cleanup.quarantine world "process_lost" s ≡ (ok tt, s')
    → (now : ℕ) × (s'.run ≡ record (in_quarantine process_lost s.run) { updated_at = now })
      × (s'.disk ≡ s'.run)
      × (valid_run s'.run ≡ true)
unfolding Cleanup.quarantine
quarantine-ok world s s' out h =
    let (reason, a, k) =
      lift-ok (some_or (coerce_reason "process_lost") Store.quarantine_reason_invalid) _ s s' tt
        h in
    let (r, s1, b, m) = bind-ok (Store.get_run world) _ s s' tt k in
    let (kept, same) = get_run-ok world s s1 r b in
    let q : is_quarantined r.state ≡ false =
      ap (λ (x : RunRecord). is_quarantined x.state) same ∙ out in
    let lost : reason ≡ process_lost = ground (arith, lost_reason) in
    let w : Store.replace world none (in_quarantine process_lost) s1 ≡ (ok tt, s') =
      subst (λ z. Store.replace world none (in_quarantine z) s1 ≡ (ok tt, s')) lost
        (else-ok (is_quarantined r.state) (Store.pure tt)
          (Store.replace world none (in_quarantine reason)) s1 (ok tt, s') q m) in
    let (now, run, disk, v) = replace-ok world none (in_quarantine process_lost) s1 s' w in
    (
      now,
      subst (λ x. s'.run ≡ record (in_quarantine process_lost x) { updated_at = now }) kept run,
      disk,
      v,
    )

-- A run whose file says that it failed is in quarantine, as lost with its process, when its store is
-- opened again; the file says so too, and has every fixture that it had.
pub open_store-lost :
    (world world' : World) (id : String) (r : RunRecord) (legacy : Bool) (s : RunStore)
    → has_failed r.state ≡ true
    → open_store world world' id (some (r, legacy)) ≡ ok s
    → (s.run.state ≡ quarantined)
      × (s.run.quarantine_reason ≡ some process_lost)
      × (s.disk ≡ s.run)
      × (s.run.fixtures ≡ r.fixtures)
open_store-lost world world' id r legacy s f h =
    let (i, p) = open_store-ok world world' id (some (r, legacy)) s h in
    elim (recover-ok world' (fresh r) s (open_on-found world world' id r legacy s p)) [
      | inl (n, same) ↦ absurd (ground arith)
      | inr (e, q) ↦
          let (now, run, disk, v) = quarantine-ok world' (fresh r) s (failed_open r.state f) q in
          (
            ap (λ (x : RunRecord). x.state) run,
            ap (λ (x : RunRecord). x.quarantine_reason) run,
            disk,
            ap (λ (x : RunRecord). x.fixtures) run,
          )
    ]

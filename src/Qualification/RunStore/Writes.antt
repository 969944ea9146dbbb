-- ===== src/Qualification/RunStore/Writes.antt =====
-- `_replace` of qualification/run_store.py: what a write may do, and what it has done if it returns.
use mercury_tools.Prelude.{
  ℕ, ◌≤◌, Bool, true, false, Option, Result, ok, err, ltb, ◌≡◌, refl, inl, inr, arith, Bool-cases,
  ap, sym, ◌∙◌, subst,
}
use mercury_tools.Qualification.RunStore.Models.{RunRecord, valid_run}
use mercury_tools.Qualification.RunStore.Store.{
  RunError, Write, refused, detached, stored, World, RunStore, ◌>>=◌, lift,
  validate_runtime_binding, timestamp, settled, settle, write_run, end_write, replace_at, replace,
}
use mercury_tools.Qualification.RunStore.Steps.{
  RunKept, RunKept-refl, Steps, Steps-refl, Steps-trans, IsStep, bind-Steps, lift-Steps,
  validate-Steps, validate-run, bind-ok, lift-ok,
}

-- The run that is written is later than the run of the store, and valid.
settled-Steps :
    (s s' : RunStore) (r : Result RunError (Unit {0})) (candidate : RunRecord)
    → s.granted ≡ false
    → RunKept s.run candidate
    → valid_run candidate ≡ true
    → s'.run ≡ candidate
    → s'.disk ≡ candidate
    → s'.granted ≡ s.granted
    → Steps s (settled s.run (r, s')).1
settled-Steps s s' (ok a) candidate off k v run disk g = record {
  run = subst (RunKept s.run) (sym run) k;
  disk = inr (subst (RunKept s.run) (sym disk) k);
  valid = λ w. ap valid_run run ∙ v;
  disk_valid = λ w. ap valid_run disk ∙ v;
  granted = λ w. absurd (ground arith);
}
settled-Steps s s' (err e) candidate off k v run disk g = record {
  run = RunKept-refl s.run;
  disk = inr (subst (RunKept s.run) (sym disk) k);
  valid = λ w. w;
  disk_valid = λ w. ap valid_run disk ∙ v;
  granted = λ w. absurd (ground arith);
}

settle-Steps :
    (bound : Bool) (s : RunStore) (candidate : RunRecord)
    → s.granted ≡ false
    → RunKept s.run candidate
    → valid_run candidate ≡ true
    → Steps s (settle bound s.run candidate (record s { disk = candidate })).1
unfolding settle
settle-Steps bound s candidate off k v =
    let before : RunStore = record s { disk = candidate; run = candidate } in
    let x = validate_runtime_binding bound before in
    let (run, disk, g) = validate-run bound before x.1 x.0 refl in
    settled-Steps s x.1 x.0 candidate off k v run disk g

end_write-Steps :
    (write : Write) (bound : Bool) (candidate : RunRecord) (s : RunStore)
    → s.granted ≡ false
    → RunKept s.run candidate
    → valid_run candidate ≡ true
    → IsStep (end_write write bound candidate) s
unfolding end_write
end_write-Steps refused bound candidate s off k v = Steps-refl s
end_write-Steps detached bound candidate s off k v = record {
  run = RunKept-refl s.run;
  disk = inr k;
  valid = λ w. w;
  disk_valid = λ w. v;
  granted = λ w. inl (w, refl);
}
end_write-Steps stored bound candidate s off k v = settle-Steps bound s candidate off k v

-- An update moves the run on, but for its time.
abbrev pub MovesOn : RunRecord → RunRecord → Type 0
MovesOn r new = RunKept r (record new { updated_at = r.updated_at })

moved_at :
    (r new : RunRecord) (now : ℕ)
    → MovesOn r new
    → r.updated_at ≤ now
    → RunKept r (record new { updated_at = now })
moved_at r new now k l = record {
  run_id = k.run_id;
  created_at = k.created_at;
  later = l;
  quarantine = k.quarantine;
  fixtures = k.fixtures;
}

replace_at-Steps :
    (world : World) (now : ℕ) (update : RunRecord → RunRecord) (s : RunStore)
    → s.granted ≡ false
    → MovesOn s.run (update s.run)
    → IsStep (replace_at world now update) s
unfolding replace_at write_run
replace_at-Steps world now update s off m =
    let candidate : RunRecord = record (update s.run) { updated_at = now } in
    elim (Bool-cases (ltb now s.run.updated_at)) [
      | inl e ↦ rw e (Steps-refl s)
      | inr e ↦ elim (Bool-cases (valid_run candidate)) [
        | inr v ↦ rw (e, v) (Steps-refl s)
        | inl v ↦
            rw (e, v)
              (end_write-Steps world.write world.bound_after candidate s off
                (moved_at s.run (update s.run) now m (ground arith)) v)
      ]
    ]

ungrant-Steps : (s : RunStore) → Steps s (record s { granted = false })
ungrant-Steps s = record {
  run = RunKept-refl s.run;
  disk = inl refl;
  valid = λ v. v;
  disk_valid = λ v. v;
  granted = λ w. absurd (ground arith);
}

pub replace-Steps :
    (world : World) (at : Option ℕ) (update : RunRecord → RunRecord) (s : RunStore)
    → MovesOn s.run (update s.run)
    → IsStep (replace world at update) s
unfolding replace
replace-Steps world at update s m =
    let off : RunStore = record s { granted = false } in
    Steps-trans s off (replace world at update s).1 (ungrant-Steps s) (
      bind-Steps (validate_runtime_binding world.bound_at_write)
        (λ u. lift (timestamp world at) >>= λ now. replace_at world now update) off
        (validate-Steps world.bound_at_write off)
        (λ u s' e.
          let (run, disk, g) = validate-run world.bound_at_write off s' (ok u) e in
          lift-Steps (timestamp world at) (λ now. replace_at world now update) s'
            (λ now t.
              replace_at-Steps world now update s' g
                (subst (λ r. MovesOn r (update r)) (sym run) m))))

end_write-ok :
    (write : Write) (bound : Bool) (candidate : RunRecord) (s s' : RunStore)
    → end_write write bound candidate s ≡ (ok tt, s')
    → (s'.run ≡ candidate) × (s'.disk ≡ candidate) × (s'.binding_failed ≡ s.binding_failed)
unfolding end_write settle validate_runtime_binding
end_write-ok write bound candidate s s' h = ground arith

replace_at-ok :
    (world : World) (now : ℕ) (update : RunRecord → RunRecord) (s s' : RunStore)
    → replace_at world now update s ≡ (ok tt, s')
    → (s'.run ≡ record (update s.run) { updated_at = now })
      × (s'.disk ≡ s'.run)
      × (valid_run s'.run ≡ true)
unfolding replace_at write_run
replace_at-ok world now update s s' h =
    let candidate : RunRecord = record (update s.run) { updated_at = now } in
    elim (Bool-cases (ltb now s.run.updated_at)) [
      | inl e ↦ absurd (ground arith)
      | inr e ↦ elim (Bool-cases (valid_run candidate)) [
        | inr v ↦ absurd (ground arith)
        | inl v ↦
            let (run, disk, b) =
              end_write-ok world.write world.bound_after candidate s s' (ground arith) in
            (run, disk ∙ sym run, ap valid_run run ∙ v)
      ]
    ]

-- If `_replace` returns, the run is the updated one, valid, and in the file.
pub replace-ok :
    (world : World) (at : Option ℕ) (update : RunRecord → RunRecord) (s s' : RunStore)
    → replace world at update s ≡ (ok tt, s')
    → (now : ℕ) × (s'.run ≡ record (update s.run) { updated_at = now })
      × (s'.disk ≡ s'.run)
      × (valid_run s'.run ≡ true)
unfolding replace
replace-ok world at update s s' h =
    let off : RunStore = record s { granted = false } in
    let (u, s1, e, k) =
      bind-ok (validate_runtime_binding world.bound_at_write)
        (λ u. lift (timestamp world at) >>= λ now. replace_at world now update) off s' tt h in
    let (run, disk, g) = validate-run world.bound_at_write off s1 (ok u) e in
    let (now, t, w) =
      lift-ok (timestamp world at) (λ now. replace_at world now update) s1 s' tt k in
    let (run', disk', v) = replace_at-ok world now update s1 s' w in
    (now, subst (λ r. s'.run ≡ record (update r) { updated_at = now }) run run', disk', v)

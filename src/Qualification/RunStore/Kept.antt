-- ===== src/Qualification/RunStore/Kept.antt =====
-- What the methods of qualification/run_store.py keep of the fixtures of a run.
use mercury_tools.Prelude.{
  ℕ, String, str_eq, str_eq_iff, Bool, Option, none, some, List, [], ◌∷◌, ◌++◌, ok, if◌then◌else◌,
  ◌≡◌, refl, ◌⊎◌, inl, inr, arith, Bool-cases, Result-cases, ap, sym, ◌∙◌, subst,
}
use mercury_tools.Qualification.RunStore.Models.{
  CleanupStatus, pending, cleaned, FixtureReference, StoredFixture, is_cleaned,
}
use mercury_tools.Qualification.RunStore.Store.{
  find_fixture, registered, register_one, register, insert_fixture, sort_fixtures,
}
use mercury_tools.Qualification.RunStore.Cleanup.{with_status, Marked, mark_here, mark, set_status}

-- The same fixture, with another status only if it was pending.
pub record Follows (f g : StoredFixture) : Type 0 where
  pub reference : g.reference ≡ f.reference
  pub registered_at : g.registered_at ≡ f.registered_at
  pub status : (f.cleanup_status ≡ pending) ⊎ (g ≡ f)

-- Every fixture that is found is still found.
abbrev pub FixturesKept : List StoredFixture → List StoredFixture → Type 0
FixturesKept xs ys =
    (h : String) (f : StoredFixture)
    → find_fixture h xs ≡ some f
    → (g : StoredFixture) × (find_fixture h ys ≡ some g) × Follows f g

pub Follows-refl : (f : StoredFixture) → Follows f f
Follows-refl f = record { reference = refl; registered_at = refl; status = inr refl }

Follows-trans : (f g k : StoredFixture) → Follows f g → Follows g k → Follows f k
Follows-trans f g k p q = record {
  reference = q.reference ∙ p.reference;
  registered_at = q.registered_at ∙ p.registered_at;
  status = elim p.status [
    | inl e ↦ inl e
    | inr e ↦ elim q.status [
      | inl w ↦ inl (sym (ap (λ (x : StoredFixture). x.cleanup_status) e) ∙ w)
      | inr e' ↦ inr (e' ∙ e)
    ]
  ];
}

pub FixturesKept-refl : (xs : List StoredFixture) → FixturesKept xs xs
FixturesKept-refl xs h f p = (f, p, Follows-refl f)

pub FixturesKept-trans :
    (xs ys zs : List StoredFixture) → FixturesKept xs ys → FixturesKept ys zs → FixturesKept xs zs
FixturesKept-trans xs ys zs p q h f e =
    let (g, e', a) = p h f e in let (k, e'', b) = q h g e' in (k, e'', Follows-trans f g k a b)

FixturesKept-cons :
    (f g : StoredFixture) (xs ys : List StoredFixture)
    → Follows f g
    → FixturesKept xs ys
    → FixturesKept (f ∷ xs) (g ∷ ys)
unfolding find_fixture
FixturesKept-cons f g xs ys a p h k e =
    let same : g.reference.handle ≡ f.reference.handle =
      ap (λ (x : FixtureReference). x.handle) a.reference in
    elim (Bool-cases (str_eq f.reference.handle h)) [
      | inl t ↦
          let is_f : f ≡ k = ground arith in (g, ground arith, subst (λ x. Follows x g) is_f a)
      | inr t ↦ let (k', e', b) = p h k (ground arith) in (k', ground arith, b)
    ]

find_fixture-none : (h : String) (f : StoredFixture) → find_fixture h [] ≡ some f → ⊥
unfolding find_fixture
find_fixture-none h f e = ground arith

FixturesKept-append : (xs ys : List StoredFixture) → FixturesKept xs (xs ++ ys)
FixturesKept-append [] ys = λ h f e. absurd (find_fixture-none h f e)
FixturesKept-append (x ∷ xs) ys =
    FixturesKept-cons x x xs (xs ++ ys) (Follows-refl x) (FixturesKept-append xs ys)

find_fixture-insert :
    (f : StoredFixture) (xs : List StoredFixture) (h : String)
    → find_fixture h (insert_fixture f xs) ≡ find_fixture h (f ∷ xs)
unfolding find_fixture insert_fixture
find_fixture-insert f [] h = refl
find_fixture-insert f (g ∷ xs) h = ground (
  arith,
  find_fixture-insert f xs h,
  str_eq_iff g.reference.handle h,
  str_eq_iff f.reference.handle h,
  str_eq_iff g.reference.handle f.reference.handle,
)

find_fixture-cons :
    (f : StoredFixture) (xs ys : List StoredFixture) (h : String)
    → find_fixture h xs ≡ find_fixture h ys
    → find_fixture h (f ∷ xs) ≡ find_fixture h (f ∷ ys)
unfolding find_fixture
find_fixture-cons f xs ys h e = rw e refl

find_fixture-sort :
    (xs : List StoredFixture) (h : String) → find_fixture h (sort_fixtures xs) ≡ find_fixture h xs
unfolding sort_fixtures
find_fixture-sort [] h = refl
find_fixture-sort (f ∷ xs) h =
    find_fixture-insert f (sort_fixtures xs) h
    ∙ find_fixture-cons f (sort_fixtures xs) xs h (find_fixture-sort xs h)

pub FixturesKept-sort : (xs : List StoredFixture) → FixturesKept xs (sort_fixtures xs)
FixturesKept-sort xs h f e = (f, find_fixture-sort xs h ∙ e, Follows-refl f)

register_one-Kept :
    (now : ℕ) (reference : FixtureReference) (current : Option StoredFixture)
    (xs ys : List StoredFixture) (a b : Bool)
    → register_one now reference current (xs, a) ≡ ok (ys, b)
    → FixturesKept xs ys
unfolding register_one
register_one-Kept now reference none xs ys a b h =
    let e : xs ++ registered now reference ∷ [] ≡ ys = ground arith in
    subst (FixturesKept xs) e (FixturesKept-append xs (registered now reference ∷ []))
register_one-Kept now reference (some current) xs ys a b h =
    let e : xs ≡ ys = ground arith in subst (FixturesKept xs) e (FixturesKept-refl xs)

pub register-Kept :
    (now : ℕ) (references : List FixtureReference) (xs ys : List StoredFixture) (a b : Bool)
    → register now references (xs, a) ≡ ok (ys, b)
    → FixturesKept xs ys
unfolding register
register-Kept now [] xs ys a b h =
    let e : xs ≡ ys = ground arith in subst (FixturesKept xs) e (FixturesKept-refl xs)
register-Kept now (r ∷ references) xs ys a b h =
    elim (Result-cases (register_one now r (find_fixture r.handle xs) (xs, a))) [
      | inr (e, p) ↦ absurd (ground arith)
      | inl ((zs, c), p) ↦
          FixturesKept-trans xs zs ys
            (register_one-Kept now r (find_fixture r.handle xs) xs zs a c p)
            (register-Kept now references zs ys c b (ground arith))
    ]

mark_here-Kept :
    (now : ℕ) (f : StoredFixture) (xs : List StoredFixture) (rest m : Marked)
    → mark_here now f rest ≡ ok m
    → FixturesKept xs rest.updated
    → FixturesKept (f ∷ xs) m.updated
mark_here-Kept now f xs rest m h p = elim (Bool-cases (is_cleaned f.cleanup_status)) [
  | inl c ↦
      let e : f ∷ rest.updated ≡ m.updated = ground arith in
      subst (FixturesKept (f ∷ xs)) e (FixturesKept-cons f f xs rest.updated (Follows-refl f) p)
  | inr c ↦
      let e : with_status cleaned now f ∷ rest.updated ≡ m.updated = ground arith in
      let w : f.cleanup_status ≡ pending = ground arith in
      subst (FixturesKept (f ∷ xs)) e (
        FixturesKept-cons f (with_status cleaned now f) xs rest.updated
          (record { reference = refl; registered_at = refl; status = inl w }) p)
]

pub mark-Kept :
    (handle : String) (now : ℕ) (xs : List StoredFixture) (m : Marked)
    → mark handle now xs ≡ ok m
    → FixturesKept xs m.updated
unfolding mark
mark-Kept handle now [] m h = λ k f e. absurd (find_fixture-none k f e)
mark-Kept handle now (f ∷ xs) m h = elim (Result-cases (mark handle now xs)) [
  | inr (e, p) ↦ absurd (ground arith)
  | inl (rest, p) ↦ elim (Bool-cases (str_eq f.reference.handle handle)) [
    | inl t ↦ mark_here-Kept now f xs rest m (ground arith) (mark-Kept handle now xs rest p)
    | inr t ↦
        let e : f ∷ rest.updated ≡ m.updated = ground arith in
        subst (FixturesKept (f ∷ xs)) e
          (FixturesKept-cons f f xs rest.updated (Follows-refl f) (mark-Kept handle now xs rest p))
  ]
]

pub find_fixture-handle :
    (h : String) (xs : List StoredFixture) (f : StoredFixture)
    → find_fixture h xs ≡ some f
    → f.reference.handle ≡ h
unfolding find_fixture
find_fixture-handle h [] f e = absurd (ground arith)
find_fixture-handle h (x ∷ xs) f e =
    ground (arith, str_eq_iff x.reference.handle h, find_fixture-handle h xs f)

find_fixture-set_status :
    (handle : String) (status : CleanupStatus) (now : ℕ) (xs : List StoredFixture) (h : String)
    (f : StoredFixture)
    → find_fixture h xs ≡ some f
    → find_fixture h (set_status handle status now xs)
      ≡ some (if str_eq f.reference.handle handle then with_status status now f else f)
unfolding set_status find_fixture
find_fixture-set_status handle status now [] h f e = absurd (ground arith)
find_fixture-set_status handle status now (x ∷ xs) h f e =
    ground (arith, find_fixture-set_status handle status now xs h f)

-- A status given to the fixture of a handle, which is pending.
pub set_status-Kept :
    (handle : String) (status : CleanupStatus) (now : ℕ) (xs : List StoredFixture)
    (target : StoredFixture)
    → find_fixture handle xs ≡ some target
    → target.cleanup_status ≡ pending
    → FixturesKept xs (set_status handle status now xs)
set_status-Kept handle status now xs target t p h f e =
    let at = find_fixture-set_status handle status now xs h f e in
    elim (Bool-cases (str_eq f.reference.handle handle)) [
      | inr n ↦ (f, at ∙ rw n refl, Follows-refl f)
      | inl y ↦
          let same : h ≡ handle =
            sym (find_fixture-handle h xs f e) ∙ (str_eq_iff f.reference.handle handle).0 y in
          let is_target : some f ≡ some target = sym e ∙ ap (λ k. find_fixture k xs) same ∙ t in
          (
            with_status status now f,
            at ∙ rw y refl,
            record { reference = refl; registered_at = refl; status = inl (ground arith) },
          )
    ]

-- ===== src/Qualification/Selection/Latest.antt =====
-- `select_evidence` of qualification/selection.py selects the latest record of its kind.
use mercury_tools.Prelude.{
  ℕ, ◌≤◌, Bool, true, not, ◌&&◌, ◌||◌, Option, none, some, List, [], ◌∷◌, all, any, is_empty, ok,
  leb, ◌≡◌, refl, ◌⊎◌, inl, inr, arith, Bool-cases, ap, sym, ◌∙◌, subst,
}
use mercury_tools.Qualification.RunStore.Models.{is_quarantined}
use mercury_tools.Qualification.Selection.{
  ValidationKnowledge, EvidenceOutcome, contract_only, EvidenceRequest, EvidenceSelection, is_live,
  is_contract, is_current, is_later, select, insert, sort, find_first, blocking_conditions,
  of_contract, of_live, select_ordered, select_evidence,
}
use mercury_tools.Qualification.Selection.Laws.{select_evidence-ok}

-- The record is one of the list.
pub data Among (r : ValidationKnowledge) : List ValidationKnowledge → Type 0 where
  here : {records : List ValidationKnowledge} → Among r (r ∷ records)
  there :
      {s : ValidationKnowledge} {records : List ValidationKnowledge}
      → Among r records
      → Among r (s ∷ records)

Among-uncons :
    {r s : ValidationKnowledge} {records : List ValidationKnowledge}
    → Among r (s ∷ records)
    → (s ≡ r) ⊎ Among r records
Among-uncons here = inl refl
Among-uncons (there a) = inr a

Among-head :
    {r s : ValidationKnowledge} {records : List ValidationKnowledge} → s ≡ r → Among r (s ∷ records)
Among-head {r} {s} {records} e = subst (λ x. Among r (x ∷ records)) (sym e) here

Among-select :
    (p : ValidationKnowledge → Bool) (records : List ValidationKnowledge) (r : ValidationKnowledge)
    → Among r (select p records)
    → Among r records × (p r ≡ true)
unfolding select
Among-select p [] r a = elim a [ ]
Among-select p (s ∷ records) r a = elim (Bool-cases (p s)) [
  | inr e ↦ let (b, c) = Among-select p records r (subst (Among r) (rw e refl) a) in (there b, c)
  | inl e ↦ elim (Among-uncons (subst (Among r) (rw e refl) a)) [
    | inl same ↦ (Among-head same, ap p (sym same) ∙ e)
    | inr b ↦ let (c, d) = Among-select p records r b in (there c, d)
  ]
]

Among-insert :
    (s : ValidationKnowledge) (records : List ValidationKnowledge) (r : ValidationKnowledge)
    → Among r (insert s records)
    → Among r (s ∷ records)
unfolding insert
Among-insert s [] r a = a
Among-insert s (t ∷ records) r a = elim (Bool-cases (is_later t s)) [
  | inr e ↦ subst (Among r) (rw e refl) a
  | inl e ↦ elim (Among-uncons (subst (Among r) (rw e refl) a)) [
    | inl same ↦ there (Among-head same)
    | inr b ↦ elim (Among-uncons (Among-insert s records r b)) [
      | inl same ↦ Among-head same
      | inr c ↦ there (there c)
    ]
  ]
]

Among-sort :
    (records : List ValidationKnowledge) (r : ValidationKnowledge)
    → Among r (sort records)
    → Among r records
unfolding sort
Among-sort [] r a = a
Among-sort (s ∷ records) r a = elim (Among-uncons (Among-insert s (sort records) r a)) [
  | inl same ↦ Among-head same
  | inr b ↦ there (Among-sort records r b)
]

find_first-Among :
    (p : ValidationKnowledge → Bool) (records : List ValidationKnowledge) (r : ValidationKnowledge)
    → find_first p records ≡ some r
    → Among r records × (p r ≡ true)
unfolding find_first
find_first-Among p [] r h = absurd (ground arith)
find_first-Among p (s ∷ records) r h = elim (Bool-cases (p s)) [
  | inr e ↦ let (a, b) = find_first-Among p records r (ground arith) in (there a, b)
  | inl e ↦
      let same : s ≡ r = ground arith in
      (subst (λ x. Among r (x ∷ records)) (sym same) here, ap p (sym same) ∙ e)
]

-- Later records first.
abbrev pub IsSorted : List ValidationKnowledge → Type 0
IsSorted [] = Unit
IsSorted (r ∷ records) =
    (all (λ x. leb x.evaluated_at r.evaluated_at) records ≡ true) × IsSorted records

all-insert :
    (p : ValidationKnowledge → Bool) (r : ValidationKnowledge) (records : List ValidationKnowledge)
    → all p (insert r records) ≡ p r && all p records
unfolding insert
all-insert p r [] = refl
all-insert p r (s ∷ records) = ground (arith, all-insert p r records)

all-sort :
    (p : ValidationKnowledge → Bool) (records : List ValidationKnowledge)
    → all p (sort records) ≡ all p records
unfolding sort
all-sort p [] = refl
all-sort p (r ∷ records) = ground (arith, all-insert p r (sort records), all-sort p records)

all-select :
    (p q : ValidationKnowledge → Bool) (records : List ValidationKnowledge)
    → all q (select p records) ≡ all (λ x. not (p x) || q x) records
unfolding select
all-select p q [] = refl
all-select p q (r ∷ records) = ground (arith, all-select p q records)

all_until :
    (a b : ℕ) (records : List ValidationKnowledge)
    → a ≤ b
    → all (λ x. leb x.evaluated_at a) records ≡ true
    → all (λ x. leb x.evaluated_at b) records ≡ true
all_until a b [] l h = refl
all_until a b (r ∷ records) l h = ground (arith, all_until a b records l)

insert-IsSorted :
    (r : ValidationKnowledge) (records : List ValidationKnowledge)
    → IsSorted records
    → IsSorted (insert r records)
unfolding insert is_later
insert-IsSorted r [] s = (refl, tt)
insert-IsSorted r (t ∷ records) (first, s) = elim (Bool-cases (is_later t r)) [
  | inl e ↦ rw e (
    ground (arith, all-insert (λ x. leb x.evaluated_at t.evaluated_at) r records),
    insert-IsSorted r records s,
  )
  | inr e ↦ rw e (ground (arith, all_until t.evaluated_at r.evaluated_at records), (first, s))
]

sort-IsSorted : (records : List ValidationKnowledge) → IsSorted (sort records)
unfolding sort
sort-IsSorted [] = tt
sort-IsSorted (r ∷ records) = insert-IsSorted r (sort records) (sort-IsSorted records)

all_weaken :
    (p : ValidationKnowledge → Bool) (a : ℕ) (records : List ValidationKnowledge)
    → all (λ x. leb x.evaluated_at a) records ≡ true
    → all (λ x. not (p x) || leb x.evaluated_at a) records ≡ true
all_weaken p a [] h = refl
all_weaken p a (r ∷ records) h = ground (arith, all_weaken p a records)

-- The first record of a kind is the latest of it.
find_first-latest :
    (p : ValidationKnowledge → Bool) (records : List ValidationKnowledge) (r : ValidationKnowledge)
    → IsSorted records
    → find_first p records ≡ some r
    → all (λ x. not (p x) || leb x.evaluated_at r.evaluated_at) records ≡ true
unfolding find_first
find_first-latest p [] r s h = refl
find_first-latest p (x ∷ records) r (first, s) h = elim (Bool-cases (p x)) [
  | inr e ↦ ground (arith, find_first-latest p records r s)
  | inl e ↦
      let same : x ≡ r = ground arith in
      subst (λ y. all (λ z. not (p z) || leb z.evaluated_at y.evaluated_at) (x ∷ records) ≡ true)
        same (ground (arith, all_weaken p x.evaluated_at records))
]

first_kind :
    (p : ValidationKnowledge → Bool) (now : ℕ) (records : List ValidationKnowledge)
    (r : ValidationKnowledge)
    → find_first p (sort (select (is_current now) records)) ≡ some r
    → Among r records
      × (is_current now r ≡ true)
      × (p r ≡ true)
      × (all
            (λ x. not (is_current now x) || (not (p x) || leb x.evaluated_at r.evaluated_at))
            records
          ≡ true)
first_kind p now records r h =
    let ordered = sort (select (is_current now) records) in
    let (a, b) = find_first-Among p ordered r h in
    let (c, d) =
      Among-select (is_current now) records r (Among-sort (select (is_current now) records) r a) in
    let q : ValidationKnowledge → Bool = λ x. not (p x) || leb x.evaluated_at r.evaluated_at in
    let latest =
      find_first-latest p ordered r (sort-IsSorted (select (is_current now) records)) h in
    (
      c,
      d,
      b,
      sym (all-select (is_current now) q records)
          ∙ sym (all-sort q (select (is_current now) records))
          ∙ latest,
    )

of_live-selected :
    (live contract : Option ValidationKnowledge) (ordered : List ValidationKnowledge)
    (r : ValidationKnowledge)
    → find_first is_contract ordered ≡ contract
    → (of_live live ordered).selected ≡ some r
    → ((live ≡ some r) × ((of_live live ordered).outcome ≡ EvidenceOutcome.live_success))
      ⊎ ((contract ≡ some r) × ((of_live live ordered).outcome ≡ contract_only))
unfolding of_live of_contract
of_live-selected (some l) contract ordered r e h = inl (h, refl)
of_live-selected none none ordered r e h = absurd (ground arith)
of_live-selected none (some c) ordered r e h = inr (ground arith, rw e refl)

select_ordered-selected :
    (ordered : List ValidationKnowledge) (r : ValidationKnowledge)
    → (select_ordered ordered).selected ≡ some r
    → select_ordered ordered ≡ of_live (find_first is_live ordered) ordered
unfolding select_ordered
select_ordered-selected ordered r h =
    elim (Bool-cases (any (λ x. is_quarantined x.run_state) ordered)) [
      | inl q ↦ absurd (ground arith)
      | inr q ↦ elim (Bool-cases (is_empty (blocking_conditions ordered))) [
        | inr b ↦ absurd (ground arith)
        | inl b ↦ rw (q, b) refl
      ]
    ]

-- If a record is selected, it is one of the records and is current; the outcome is live success and it
-- is the latest of the current live successes, or the outcome is contract only and it is the latest of
-- the current validated contracts. The latest is one that no other of them was evaluated after.
pub select_evidence-latest :
    (records : List ValidationKnowledge) (request : EvidenceRequest) (now : ℕ)
    (selection : EvidenceSelection) (r : ValidationKnowledge)
    → select_evidence records request now ≡ ok selection
    → selection.selected ≡ some r
    → Among r records
      × (is_current now r ≡ true)
      × (((selection.outcome ≡ EvidenceOutcome.live_success)
            × (is_live r ≡ true)
            × (all
                  (λ x.
                    not (is_current now x)
                    || (not (is_live x) || leb x.evaluated_at r.evaluated_at))
                  records
                ≡ true))
          ⊎ ((selection.outcome ≡ contract_only)
              × (is_contract r ≡ true)
              × (all
                    (λ x.
                      not (is_current now x)
                      || (not (is_contract x) || leb x.evaluated_at r.evaluated_at))
                    records
                  ≡ true)))
select_evidence-latest records request now selection r h chosen =
    let ordered = sort (select (is_current now) records) in
    let (same, _) = select_evidence-ok records request now selection h in
    let live =
      select_ordered-selected ordered r
        (ap (λ (x : EvidenceSelection). x.selected) same ∙ chosen) in
    let is_of_live : of_live (find_first is_live ordered) ordered ≡ selection = sym live ∙ same in
    elim (of_live-selected (find_first is_live ordered) (find_first is_contract ordered) ordered r
      refl (ap (λ (x : EvidenceSelection). x.selected) is_of_live ∙ chosen)) [
        | inl (f, o) ↦
            let (a, c, k, l) = first_kind is_live now records r f in
            (a, c, inl (ap (λ (x : EvidenceSelection). x.outcome) (sym is_of_live) ∙ o, k, l))
        | inr (f, o) ↦
            let (a, c, k, l) = first_kind is_contract now records r f in
            (a, c, inr (ap (λ (x : EvidenceSelection). x.outcome) (sym is_of_live) ∙ o, k, l))
      ]

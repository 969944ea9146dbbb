-- ===== src/Reconciliation/Flags.antt =====
-- The marks of the candidates of reconciliation/matcher.py, in any of its orders.
use mercury_tools.Prelude.{
  ◌≤◌, Bool, true, false, Option, Option-cases, none, some, List, [], ◌∷◌, ◌++◌, if◌then◌else◌, All,
  Bool-cases, inl, inr, ◌≡◌, refl, sym, arith, subst,
}
use mercury_tools.Reconciliation.Candidates.{
  CanonicalTransaction, ReconciliationPolicy, Candidate, keys_match, candidate_for, candidate_of,
  row_candidates, pair_candidates, insert_by, sort_by, pair_lt, rank_lt, score_candidates,
}

All-insert_by :
    (P : Candidate → Type 0) (lt : Candidate → Candidate → Bool) (c : Candidate)
    (xs : List Candidate)
    → P c
    → All P xs
    → All P (insert_by lt c xs)
unfolding insert_by
All-insert_by P lt c [] p h = (p, tt)
All-insert_by P lt c (d ∷ ds) p h = elim (Bool-cases (lt d c)) [
  | inl e ↦ rw e (h.0, All-insert_by P lt c ds p h.1)
  | inr e ↦ rw e (p, h)
]

All-sort_by :
    (P : Candidate → Type 0) (lt : Candidate → Candidate → Bool) (xs : List Candidate)
    → All P xs
    → All P (sort_by lt xs)
unfolding sort_by
All-sort_by P lt [] h = tt
All-sort_by P lt (c ∷ cs) h = All-insert_by P lt c (sort_by lt cs) h.0 (All-sort_by P lt cs h.1)

All-append :
    (P : Candidate → Type 0) (xs ys : List Candidate) → All P xs → All P ys → All P (xs ++ ys)
All-append P [] ys h k = k
All-append P (x ∷ xs) ys h k = (h.0, All-append P xs ys h.1 k)

-- The marks of a candidate for a reference and a counterparty that do not match are 0 or 1.
pub record HasFlags (c : Candidate) : Type 0 where
  pub reference_flag : c.quality.reference_rank ≤ 1
  pub counterparty_flag : c.quality.counterparty_rank ≤ 1

flag : (b : Bool) → (if b then 0 else 1) ≤ 1
flag true = omega arith
flag false = omega arith

candidate_for-HasFlags :
    (left right : CanonicalTransaction) (policy : ReconciliationPolicy) {c : Candidate}
    → candidate_for left right policy ≡ some c
    → HasFlags c
unfolding candidate_for candidate_of
candidate_for-HasFlags left right policy h = record {
  reference_flag = ground (arith, flag (keys_match left.reference right.reference));
  counterparty_flag =
      ground (arith, flag (keys_match left.counterparty_key right.counterparty_key));
}

row_candidates-next :
    (left right : CanonicalTransaction) (rights : List CanonicalTransaction)
    (policy : ReconciliationPolicy) (o : Option Candidate)
    → candidate_for left right policy ≡ o
    → row_candidates left (right ∷ rights) policy ≡ elim o [
      | none ↦ row_candidates left rights policy
      | some c ↦ c ∷ row_candidates left rights policy
    ]
unfolding row_candidates
row_candidates-next left right rights policy o e = rw (e, row_candidates) refl

row_candidates-HasFlags :
    (left : CanonicalTransaction) (rights : List CanonicalTransaction)
    (policy : ReconciliationPolicy)
    → All HasFlags (row_candidates left rights policy)
unfolding row_candidates
row_candidates-HasFlags left [] policy = tt
row_candidates-HasFlags left (right ∷ rights) policy =
    let rest = row_candidates-HasFlags left rights policy in
    elim (Option-cases (candidate_for left right policy)) [
      | inl e ↦
          subst (All HasFlags) (sym (row_candidates-next left right rights policy none e)) rest
      | inr (c, e) ↦
          subst (All HasFlags) (sym (row_candidates-next left right rights policy (some c) e))
            (candidate_for-HasFlags left right policy e, rest)
    ]

pair_candidates-HasFlags :
    (lefts rights : List CanonicalTransaction) (policy : ReconciliationPolicy)
    → All HasFlags (pair_candidates lefts rights policy)
unfolding pair_candidates
pair_candidates-HasFlags [] rights policy = tt
pair_candidates-HasFlags (left ∷ lefts) rights policy =
    All-append HasFlags (row_candidates left rights policy) (pair_candidates lefts rights policy)
      (row_candidates-HasFlags left rights policy) (pair_candidates-HasFlags lefts rights policy)

-- The candidates of two sides in the order in which the costs are given to them.
abbrev pub pair_order_of :
    List CanonicalTransaction → List CanonicalTransaction → ReconciliationPolicy → List Candidate
pair_order_of lefts rights policy = sort_by pair_lt (score_candidates lefts rights policy)

pub pair_order_of-HasFlags :
    (lefts rights : List CanonicalTransaction) (policy : ReconciliationPolicy)
    → All HasFlags (pair_order_of lefts rights policy)
unfolding score_candidates
pair_order_of-HasFlags lefts rights policy =
    All-sort_by HasFlags pair_lt (score_candidates lefts rights policy) (
      All-sort_by HasFlags rank_lt (pair_candidates lefts rights policy)
        (pair_candidates-HasFlags lefts rights policy))

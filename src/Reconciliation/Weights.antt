-- ===== src/Reconciliation/Weights.antt =====
-- The weights of reconciliation/matcher.py and the totals of an assignment.
use mercury_tools.Prelude.{
  ℕ, ◌+◌, ◌-◌, ◌*◌, ◌≤◌, ◌<◌, Bool, List, [], ◌∷◌, length, if◌then◌else◌, All, All-map, Bool-cases,
  inl, inr, ◌≡◌, arith, subst,
}
use mercury_tools.Reconciliation.Radix.{
  weighted, AreDigits, IsAtMost, weighted-IsAtMost, carries_not, mult_mono,
}
use mercury_tools.Reconciliation.Candidates.{Candidate}
use mercury_tools.Reconciliation.Costs.{
  maximum, amount_cost, date_cost, max_flow, stable_shift, date_weight, amount_weight,
  counterparty_weight, reference_weight, classification_weight, stable_cost, candidate_cost,
}
use mercury_tools.Reconciliation.Flags.{HasFlags}

-- The candidates that an assignment takes.
abbrev pub chosen : (Candidate → Bool) → List Candidate → List Candidate
chosen f [] = []
chosen f (c ∷ cs) = if f c then c ∷ chosen f cs else chosen f cs

abbrev pub sum : (Candidate → ℕ) → List Candidate → ℕ
sum f [] = 0
sum f (c ∷ cs) = f c + sum f cs

-- The totals of an assignment in the order of their importance: differences, references and
-- counterparties that do not match, cents, days, and the cost of its place.
abbrev pub totals : List Candidate → List Candidate → List ℕ
totals pair_order cs =
    sum (λ c. c.quality.classification_rank) cs
    ∷ sum (λ c. c.quality.reference_rank) cs
    ∷ sum (λ c. c.quality.counterparty_rank) cs
    ∷ sum amount_cost cs
    ∷ sum date_cost cs
    ∷ sum (stable_cost pair_order) cs
    ∷ []

abbrev weights : ℕ → ℕ → ℕ → ℕ → ℕ → List ℕ
weights cw rw pw aw dw = cw ∷ rw ∷ pw ∷ aw ∷ dw ∷ 1 ∷ []

pub All-chosen :
    (P : Candidate → Type 0) (f : Candidate → Bool) (xs : List Candidate)
    → All P xs
    → All P (chosen f xs)
All-chosen P f [] h = tt
All-chosen P f (c ∷ cs) h = elim (Bool-cases (f c)) [
  | inl e ↦ rw e (h.0, All-chosen P f cs h.1)
  | inr e ↦ rw e (All-chosen P f cs h.1)
]

maximum-bounds :
    (f : Candidate → ℕ) (xs : List Candidate) → All (λ (c : Candidate). f c ≤ maximum f xs) xs
unfolding maximum
maximum-bounds f [] = tt
maximum-bounds f (x ∷ xs) = (
  ground arith,
  All-map (λ (c : Candidate) (h : f c ≤ maximum f xs). ground arith) xs (maximum-bounds f xs),
)

sum-bounded :
    (f : Candidate → ℕ) (bound : ℕ) (cs : List Candidate)
    → All (λ (c : Candidate). f c ≤ bound) cs
    → sum f cs ≤ length cs * bound
sum-bounded f bound [] h = omega arith
sum-bounded f bound (c ∷ cs) h = omega (arith, h.0, sum-bounded f bound cs h.1)

sum_at_most :
    (f : Candidate → ℕ) (bound flow : ℕ) (cs : List Candidate)
    → All (λ (c : Candidate). f c ≤ bound) cs
    → length cs ≤ flow
    → sum f cs ≤ flow * bound
sum_at_most f bound flow cs h few =
    omega (arith, sum-bounded f bound cs h, mult_mono (length cs) flow bound few)

-- The total cost is the totals with the weights.
total_cost :
    (r p : Candidate → ℕ) (cw rw0 pw aw dw : ℕ) (k a d st : Candidate → ℕ) (cs : List Candidate)
    → sum (λ c. k c * cw + r c * rw0 + p c * pw + a c * aw + d c * dw + st c) cs
      ≡ weighted
          (weights cw rw0 pw aw dw)
          (sum k cs ∷ sum r cs ∷ sum p cs ∷ sum a cs ∷ sum d cs ∷ sum st cs ∷ [])
total_cost r p cw rw0 pw aw dw k a d st [] = omega arith
total_cost r p cw rw0 pw aw dw k a d st (c ∷ cs) =
    omega (arith, total_cost r p cw rw0 pw aw dw k a d st cs)

abbrev weights_of : List Candidate → List ℕ
weights_of pair_order =
    weights (classification_weight pair_order) (reference_weight pair_order)
      (counterparty_weight pair_order) (amount_weight pair_order) (date_weight pair_order)

-- The weights leave room for the totals of as many candidates as the flow.
totals_fit :
    (flow shift days cents k r p a d st : ℕ)
    → r ≤ flow
    → p ≤ flow
    → a ≤ flow * cents
    → d ≤ flow * days
    → st ≤ flow * shift
    → let dw = flow * shift + 1 in
      let aw = (flow * days + 1) * dw in
      let pw = (flow * cents + 1) * aw in
      let rw0 = (flow + 1) * pw in
      AreDigits (weights ((flow + 1) * rw0) rw0 pw aw dw) (k ∷ r ∷ p ∷ a ∷ d ∷ st ∷ [])
totals_fit flow shift days cents k r p a d st hr hp ha hd hs =
    let dw = flow * shift + 1 in
    let aw = (flow * days + 1) * dw in
    let pw = (flow * cents + 1) * aw in
    let rw0 = (flow + 1) * pw in
    let e0 : st * 1 + 0 < dw = omega (arith, hs) in
    let e1 = carries_not d (flow * days) dw (st * 1 + 0) hd e0 in
    let e2 = carries_not a (flow * cents) aw (d * dw + (st * 1 + 0)) ha e1 in
    let e3 = carries_not p flow pw (a * aw + (d * dw + (st * 1 + 0))) hp e2 in
    let e4 = carries_not r flow rw0 (p * pw + (a * aw + (d * dw + (st * 1 + 0)))) hr e3 in
    (e4, (e3, (e2, (e1, (e0, (omega arith, tt))))))

less_than_self : (a b : ℕ) → a - b ≤ a
less_than_self a b = omega arith

stable_cost-bound :
    (pair_order : List Candidate) (c : Candidate)
    → stable_cost pair_order c ≤ stable_shift pair_order
unfolding stable_cost
stable_cost-bound pair_order c = less_than_self (stable_shift pair_order) _

every : (P : Candidate → Type 0) → ((c : Candidate) → P c) → (xs : List Candidate) → All P xs
every P f [] = tt
every P f (x ∷ xs) = (f x, every P f xs)

module _ (pair_order : List Candidate) (flags : All HasFlags pair_order) where
  totals-AreDigits :
      (f : Candidate → Bool)
      → length (chosen f pair_order) ≤ max_flow pair_order
      → AreDigits (weights_of pair_order) (totals pair_order (chosen f pair_order))
  totals-AreDigits f few =
      let taken = chosen f pair_order in
      let flow = max_flow pair_order in
      let marks = All-chosen HasFlags f pair_order flags in
      totals_fit flow (stable_shift pair_order) (maximum date_cost pair_order)
        (maximum amount_cost pair_order) (sum (λ c. c.quality.classification_rank) taken)
        (sum (λ c. c.quality.reference_rank) taken) (sum (λ c. c.quality.counterparty_rank) taken)
        (sum amount_cost taken) (sum date_cost taken) (sum (stable_cost pair_order) taken)
        (omega (
          arith,
          sum_at_most (λ c. c.quality.reference_rank) 1 flow taken
              (All-map (λ (c : Candidate) (h : HasFlags c). h.reference_flag) taken marks) few,
        ))
        (omega (
          arith,
          sum_at_most (λ c. c.quality.counterparty_rank) 1 flow taken
              (All-map (λ (c : Candidate) (h : HasFlags c). h.counterparty_flag) taken marks) few,
        ))
        (sum_at_most amount_cost (maximum amount_cost pair_order) flow taken
          (All-chosen (λ c. amount_cost c ≤ maximum amount_cost pair_order) f pair_order
            (maximum-bounds amount_cost pair_order))
          few)
        (sum_at_most date_cost (maximum date_cost pair_order) flow taken
          (All-chosen (λ c. date_cost c ≤ maximum date_cost pair_order) f pair_order
            (maximum-bounds date_cost pair_order))
          few)
        (sum_at_most (stable_cost pair_order) (stable_shift pair_order) flow taken
          (every (λ c. stable_cost pair_order c ≤ stable_shift pair_order)
            (stable_cost-bound pair_order) taken)
          few)

  sum-candidate_cost :
      (cs : List Candidate)
      → sum (candidate_cost pair_order) cs ≡ weighted (weights_of pair_order) (totals pair_order cs)
  unfolding candidate_cost
  sum-candidate_cost cs =
      total_cost (λ c. c.quality.reference_rank) (λ c. c.quality.counterparty_rank)
        (classification_weight pair_order) (reference_weight pair_order)
        (counterparty_weight pair_order) (amount_weight pair_order) (date_weight pair_order)
        (λ c. c.quality.classification_rank) amount_cost date_cost (stable_cost pair_order) cs

  pub costs_compare :
      (f g : Candidate → Bool)
      → length (chosen f pair_order) ≤ max_flow pair_order
      → length (chosen g pair_order) ≤ max_flow pair_order
      → sum (candidate_cost pair_order) (chosen f pair_order)
        ≤ sum (candidate_cost pair_order) (chosen g pair_order)
      → IsAtMost (totals pair_order (chosen f pair_order)) (totals pair_order (chosen g pair_order))
  costs_compare f g few_f few_g h =
      weighted-IsAtMost (weights_of pair_order) (totals pair_order (chosen f pair_order))
        (totals pair_order (chosen g pair_order)) (totals-AreDigits f few_f)
        (totals-AreDigits g few_g)
        (subst (λ n. n ≤ weighted (weights_of pair_order) (totals pair_order (chosen g pair_order)))
          (sum-candidate_cost (chosen f pair_order))
          (subst (λ n. sum (candidate_cost pair_order) (chosen f pair_order) ≤ n)
            (sum-candidate_cost (chosen g pair_order)) h))

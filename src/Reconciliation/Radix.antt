-- ===== src/Reconciliation/Radix.antt =====
-- Numbers with weights: reconciliation/matcher.py compares qualities by one integer.
use mercury_tools.Prelude.{
  ℕ, zero, suc, ◌+◌, ◌*◌, ◌≤◌, ◌<◌, List, [], ◌∷◌, ◌≡◌, ◌⊎◌, inl, inr, refl, ap, arith,
}

pub mult_mono : (a b w : ℕ) → a ≤ b → a * w ≤ b * w
mult_mono zero b w h = omega arith
mult_mono (suc a) zero w h = absurd (omega (arith, h))
mult_mono (suc a) (suc b) w h = omega (arith, mult_mono a b w (omega (arith, h)))

compare_cases : (a b : ℕ) → (a < b) ⊎ (a ≡ b) ⊎ (b < a)
compare_cases zero zero = inr (inl refl)
compare_cases zero (suc b) = inl (omega arith)
compare_cases (suc a) zero = inr (inr (omega arith))
compare_cases (suc a) (suc b) = elim (compare_cases a b) [
  | inl l ↦ inl (omega (arith, l))
  | inr (inl e) ↦ inr (inl (ap suc e))
  | inr (inr g) ↦ inr (inr (omega (arith, g)))
]

-- The first digit decides, if what follows is less than its weight.
first_digit : (w a b r q : ℕ) → q < w → a * w + r ≤ b * w + q → (a < b) ⊎ ((a ≡ b) × (r ≤ q))
first_digit w a b r q small h = elim (compare_cases a b) [
  | inl less ↦ inl less
  | inr (inl same) ↦ inr (same, omega (arith, h, ap (λ n. n * w) same))
  | inr (inr more) ↦ absurd (omega (arith, h, small, mult_mono (suc b) a w more))
]

-- A digit that is at most its bound carries nothing into the next weight.
pub carries_not : (a bound w r : ℕ) → a ≤ bound → r < w → a * w + r < (bound + 1) * w
carries_not a bound w r h small = omega (arith, small, mult_mono a bound w h)

-- The sum of the digits with their weights.
abbrev pub weighted : List ℕ → List ℕ → ℕ
weighted (w ∷ ws) (a ∷ digits) = a * w + weighted ws digits
weighted _ _ = 0

-- What follows a digit is less than its weight.
abbrev pub AreDigits : List ℕ → List ℕ → Type 0
AreDigits (w ∷ ws) (a ∷ digits) = (weighted ws digits < w) × AreDigits ws digits
AreDigits [] [] = Unit
AreDigits _ _ = 1 ≤ 0

-- The order of lists by their first difference.
abbrev pub IsAtMost : List ℕ → List ℕ → Type 0
IsAtMost (a ∷ xs) (b ∷ ys) = (a < b) ⊎ ((a ≡ b) × IsAtMost xs ys)
IsAtMost [] _ = Unit
IsAtMost _ [] = 1 ≤ 0

pub weighted-IsAtMost :
    (ws xs ys : List ℕ)
    → AreDigits ws xs
    → AreDigits ws ys
    → weighted ws xs ≤ weighted ws ys
    → IsAtMost xs ys
weighted-IsAtMost [] [] ys dx dy h = tt
weighted-IsAtMost [] (x ∷ xs) ys dx dy h = absurd (omega (arith, dx))
weighted-IsAtMost (w ∷ ws) [] ys dx dy h = tt
weighted-IsAtMost (w ∷ ws) (x ∷ xs) [] dx dy h = absurd (omega (arith, dy))
weighted-IsAtMost (w ∷ ws) (x ∷ xs) (y ∷ ys) dx dy h =
    elim (first_digit w x y (weighted ws xs) (weighted ws ys) dy.0 h) [
      | inl less ↦ inl less
      | inr (same, rest) ↦ inr (same, weighted-IsAtMost ws xs ys dx.1 dy.1 rest)
    ]

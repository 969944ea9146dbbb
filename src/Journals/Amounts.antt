-- ===== src/Journals/Amounts.antt =====
-- The amounts of journals/models.py, as numbers of cents.
use native.Mathlib.Nat.{div-add-mod, mod-lt, mul_assoc}
use mercury_tools.Prelude.{
  ℕ, zero, suc, ◌+◌, ◌-◌, ◌*◌, ◌/◌, ◌%◌, ◌^◌, ◌≤◌, ◌<◌, Bool, false, ◌||◌, ◌&&◌, Result, ok, err,
  leb, ltb, ◌==◌, if◌then◌else◌, ◌≡◌, refl, ◌⊎◌, inl, inr, Bool-cases, arith, sym, ◌∙◌, subst,
}

-- The code of a `JournalValidationError`.
pub data JournalError : Type 0 where
  invalid_amount account_required account_resolution_required ambiguous_account : JournalError
  invalid_document_date reference_required description_required insufficient_lines : JournalError
  invalid_side unbalanced_journal : JournalError

-- The exponent of a decimal: `times n` is n, `over n` is -n.
pub data Exponent : Type 0 where
  times over : ℕ → Exponent

-- What `Decimal(str(value))` reads: nothing, a NaN or an infinity, or a sign, a coefficient and an
-- exponent.
pub data Amount : Type 0 where
  not_decimal not_finite : Amount
  decimal : Bool → ℕ → Exponent → Amount

-- One more than the largest coefficient of the decimal context, which has 28 digits.
abbrev pub precision : ℕ
precision = 10000000000000000000000000000

-- `ROUND_HALF_UP` of n / d.
unfoldable pub half_up : ℕ → ℕ → ℕ
half_up n d = (2 * n + d) / (2 * d)

-- The cents of a coefficient with an exponent.
unfoldable pub cents_of : ℕ → Exponent → ℕ
cents_of c (times n) = c * 10 ^ (n + 2)
cents_of c (over n) = if leb n 2 then c * 10 ^ (2 - n) else half_up c (10 ^ (n - 2))

-- `quantize` raises if the result has more than 28 digits; zero and less are refused.
unfoldable pub checked_cents : Bool → ℕ → Result JournalError ℕ
checked_cents negative cents =
    if leb precision cents || negative || cents == 0 then err invalid_amount else ok cents

-- `_money`
unfoldable pub money : Amount → Result JournalError ℕ
unfolding checked_cents
money not_decimal = err invalid_amount
money not_finite = err invalid_amount
money (decimal negative c e) = checked_cents negative (cents_of c e)

-- `ROUND_HALF_EVEN` to a multiple of the unit.
unfoldable pub half_even : ℕ → ℕ → ℕ
half_even x unit =
    let q = x / unit in
    let r = x % unit in
    if ltb unit (2 * r) || 2 * r == unit && q % 2 == 1 then (q + 1) * unit else q * unit

-- Rounding to the first unit that leaves 28 digits.
unfoldable pub significant : ℕ → ℕ → ℕ → ℕ
significant zero unit x = half_even x unit
significant (suc n) unit x =
    let rest = significant n (unit * 10) x in
    if ltb x (precision * unit) then half_even x unit else rest

-- `a + b` in the decimal context; 64 units are enough for sums below 10^92 cents.
unfoldable pub add_money : ℕ → ℕ → ℕ
add_money a b = if ltb (a + b) precision then a + b else significant 64 10 (a + b)

pub add_money-exact : (a b : ℕ) → a + b < precision → add_money a b ≡ a + b
unfolding add_money
add_money-exact a b h = ground arith

ten_more : (n : ℕ) → 10 ^ suc n ≡ 10 * 10 ^ n
ten_more n = omega arith

unit_suc : (unit n : ℕ) → unit * 10 ^ suc n ≡ unit * 10 * 10 ^ n
unit_suc unit n = rw (ten_more n) (sym (mul_assoc unit 10 (10 ^ n)))

-- With fuel for a unit that leaves 28 digits, such a unit is found.
significant-enough :
    (n unit x : ℕ)
    → x < precision * (unit * 10 ^ n)
    → (u : ℕ) × (x < precision * u) × (significant n unit x ≡ half_even x u)
unfolding significant
significant-enough zero unit x h = (unit, omega (arith, h), refl)
significant-enough (suc n) unit x h = elim (Bool-cases (ltb x (precision * unit))) [
  | inl e ↦ (unit, ground arith, rw e refl)
  | inr e ↦
      let (u, l, q) =
        significant-enough n (unit * 10) x (subst (λ k. x < precision * k) (unit_suc unit n) h) in
      (u, l, rw e q)
]

-- So it is for the 64 units that a sum has.
pub add_money-significant :
    (a b : ℕ)
    → a + b < precision * (10 * 10 ^ 64)
    → ((a + b < precision) × (add_money a b ≡ a + b))
      ⊎ ((u : ℕ) × (a + b < precision * u) × (add_money a b ≡ half_even (a + b) u))
unfolding add_money
add_money-significant a b h = elim (Bool-cases (ltb (a + b) precision)) [
  | inl e ↦ inl (ground arith, rw e refl)
  | inr e ↦ let (u, l, q) = significant-enough 64 10 (a + b) h in inr (u, l, rw e q)
]

pub money-positive : (a : Amount) (m : ℕ) → money a ≡ ok m → (1 ≤ m) × (m < precision)
unfolding money checked_cents
money-positive not_decimal m h = absurd (ground arith)
money-positive not_finite m h = absurd (ground arith)
money-positive (decimal negative c e) m h = ground arith

pow_positive : (n : ℕ) → 1 ≤ 10 ^ n
pow_positive zero = omega arith
pow_positive (suc n) = omega (arith, pow_positive n)

half_up-bounds :
    (c d : ℕ)
    → 1 ≤ d
    → (2 * d * half_up c d ≤ 2 * c + d) × (2 * c + d < 2 * d * half_up c d + 2 * d)
unfolding half_up
half_up-bounds c d h =
    let split = div-add-mod (2 * c + d) (2 * d) in
    let positive : 0 < 2 * d = omega arith in
    let small : (2 * c + d) % (2 * d) < 2 * d = mod-lt (2 * c + d) positive in
    (omega (arith, split, small), omega (arith, split, small))

cents_of-over : (c n : ℕ) → 3 ≤ n → cents_of c (over n) ≡ half_up c (10 ^ (n - 2))
unfolding cents_of
cents_of-over c n h = let few : leb n 2 ≡ false = ground arith in rw few refl

money-cents :
    (negative : Bool) (c : ℕ) (e : Exponent) (m : ℕ)
    → money (decimal negative c e) ≡ ok m
    → cents_of c e ≡ m
unfolding money checked_cents
money-cents negative c e m h = ground arith

-- The cents m of an amount with n places, more than two, are the nearest whole number to its exact
-- cents, and the larger of two that are as near: with d for 10^(n - 2) and c for the coefficient,
-- 2dm is at most 2c + d, and 2c + d is less than 2d(m + 1).
pub money-half_up :
    (negative : Bool) (c n m : ℕ)
    → 3 ≤ n
    → money (decimal negative c (over n)) ≡ ok m
    → (2 * 10 ^ (n - 2) * m ≤ 2 * c + 10 ^ (n - 2))
      × (2 * c + 10 ^ (n - 2) < 2 * 10 ^ (n - 2) * m + 2 * 10 ^ (n - 2))
money-half_up negative c n m places h =
    let d = 10 ^ (n - 2) in
    let same : half_up c d ≡ m =
      sym (cents_of-over c n places) ∙ money-cents negative c (over n) m h in
    subst (λ x. (2 * d * x ≤ 2 * c + d) × (2 * c + d < 2 * d * x + 2 * d)) same
      (half_up-bounds c d (pow_positive (n - 2)))

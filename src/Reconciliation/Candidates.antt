-- ===== src/Reconciliation/Candidates.antt =====
-- The candidates of reconciliation/matcher.py, over the fields of a transaction that they read. An
-- amount is its cents (a Decimal with two digits, of which a difference has at most 28), a date the
-- number of its day, and a text that is compared without case or white space is ASCII.
use mercury_tools.Prelude.{
  ℕ, suc, ◌+◌, ◌-◌, String, str_eq, str_lt, Bool, false, not, ◌&&◌, ◌||◌, Option, none, some, List,
  [], ◌∷◌, ◌++◌, map, ltb, leb, ◌==◌, if◌then◌else◌, is_empty, codes, same_text,
}
use mercury_tools.Execution.Policy.Effects.{casefold, is_space, lstrip, rstrip}

pub data ℤ : Type 0 where
  pos : ℕ → ℤ
  negsuc : ℕ → ℤ

pub record CanonicalTransaction : Type 0 where
  pub transaction_id : String
  pub source : String
  pub amount : ℤ
  pub currency : String
  pub transaction_date : ℕ
  pub reference : Option String
  pub counterparty_key : Option String
  pub document_state : String
  pub evidence_refs : List String

pub record ReconciliationPolicy : Type 0 where
  pub amount_tolerance : ℕ
  pub difference_tolerance : ℕ
  pub date_tolerance_days : ℕ
  pub require_document_state_match : Bool
  pub require_identity_match : Bool

pub data Classification : Type 0 where
  matched difference : Classification

-- `quality`
pub record Quality : Type 0 where
  pub classification_rank : ℕ
  pub reference_rank : ℕ
  pub counterparty_rank : ℕ
  pub amount_difference : ℕ
  pub date_difference_days : ℕ

-- `_Candidate`, whose two differences are those of its quality.
pub record Candidate : Type 0 where
  pub left : CanonicalTransaction
  pub right : CanonicalTransaction
  pub classification : Classification
  pub matched_fields : List String
  pub quality : Quality

-- `abs(a - b)` on dates.
abbrev pub day_difference : ℕ → ℕ → ℕ
day_difference a b = (a - b) + (b - a)

-- `abs(a - b)` on amounts.
abbrev pub amount_difference_of : ℤ → ℤ → ℕ
amount_difference_of (pos a) (pos b) = day_difference a b
amount_difference_of (negsuc a) (negsuc b) = day_difference a b
amount_difference_of (pos a) (negsuc b) = a + suc b
amount_difference_of (negsuc a) (pos b) = suc a + b

abbrev starts_with_space : List ℕ → Bool
starts_with_space [] = false
starts_with_space (c ∷ s) = is_space c

-- `re.sub(r"\s+", " ", …)`: the last of a run of white space becomes the space.
unfoldable pub collapse_spaces : List ℕ → List ℕ
collapse_spaces [] = []
collapse_spaces (c ∷ s) =
    let rest = collapse_spaces s in
    if is_space c then (if starts_with_space s then rest else 32 ∷ rest) else c ∷ rest

-- `_text_key`
unfoldable pub text_key : Option String → List ℕ
text_key none = []
text_key (some value) = map casefold (collapse_spaces (lstrip (rstrip (codes value))))

-- Two keys that are equal and not empty.
unfoldable pub keys_match : Option String → Option String → Bool
keys_match a b = not (is_empty (text_key a)) && same_text (text_key a) (text_key b)

abbrev pub rank_of : Bool → ℕ
rank_of b = if b then 0 else 1

abbrev when : Bool → String → List String
when b field = if b then field ∷ [] else []

-- The candidate with its fields once its classification is known.
unfoldable pub candidate_of :
    CanonicalTransaction
    → CanonicalTransaction
    → ReconciliationPolicy
    → Classification
    → ℕ
    → Candidate
candidate_of left right policy classification classification_rank =
    let reference_match = keys_match left.reference right.reference in
    let counterparty_match = keys_match left.counterparty_key right.counterparty_key in
    let amounts = amount_difference_of left.amount right.amount in
    let days = day_difference left.transaction_date right.transaction_date in
    record {
      left = left;
      right = right;
      classification = classification;
      matched_fields =
          ("currency" ∷ [])
          ++ when reference_match "reference"
          ++ when counterparty_match "counterparty_key"
          ++ when (str_eq left.document_state right.document_state) "document_state"
          ++ when (leb amounts policy.amount_tolerance) "amount"
          ++ when (days == 0) "transaction_date";
      quality = record {
        classification_rank = classification_rank;
        reference_rank = rank_of reference_match;
        counterparty_rank = rank_of counterparty_match;
        amount_difference = amounts;
        date_difference_days = days;
      };
    }

-- `_candidate_for`
unfoldable pub candidate_for :
    CanonicalTransaction → CanonicalTransaction → ReconciliationPolicy → Option Candidate
candidate_for left right policy =
    let amounts = amount_difference_of left.amount right.amount in
    if not (str_eq left.currency right.currency)
    then none
    else if ltb policy.date_tolerance_days
        (day_difference left.transaction_date right.transaction_date)
    then none
    else if policy.require_document_state_match
        && not (str_eq left.document_state right.document_state)
    then none
    else if policy.require_identity_match
        && not (
            keys_match left.reference right.reference
            || keys_match left.counterparty_key right.counterparty_key)
    then none
    else if leb amounts policy.amount_tolerance
    then some (candidate_of left right policy matched 0)
    else if leb amounts policy.difference_tolerance
    then some (candidate_of left right policy difference 1)
    else none

-- The candidates of one row of the left side.
unfoldable pub row_candidates :
    CanonicalTransaction → List CanonicalTransaction → ReconciliationPolicy → List Candidate
row_candidates left [] policy = []
row_candidates left (right ∷ rights) policy = elim (candidate_for left right policy) [
  | none ↦ row_candidates left rights policy
  | some c ↦ c ∷ row_candidates left rights policy
]

-- The candidates that `_score_candidates` sorts.
unfoldable pub pair_candidates :
    List CanonicalTransaction → List CanonicalTransaction → ReconciliationPolicy → List Candidate
pair_candidates [] rights policy = []
pair_candidates (left ∷ lefts) rights policy =
    row_candidates left rights policy ++ pair_candidates lefts rights policy

-- `sorted` with a key, which is stable.
unfoldable pub insert_by :
    (Candidate → Candidate → Bool) → Candidate → List Candidate → List Candidate
insert_by lt c [] = c ∷ []
insert_by lt c (d ∷ ds) = let rest = insert_by lt c ds in if lt d c then d ∷ rest else c ∷ d ∷ ds

unfoldable pub sort_by : (Candidate → Candidate → Bool) → List Candidate → List Candidate
sort_by lt [] = []
sort_by lt (c ∷ cs) = insert_by lt c (sort_by lt cs)

-- The order of `(left.transaction_id, right.transaction_id)`.
unfoldable pub pair_lt : Candidate → Candidate → Bool
pair_lt c d =
    str_lt c.left.transaction_id d.left.transaction_id
    || str_eq c.left.transaction_id d.left.transaction_id
      && str_lt c.right.transaction_id d.right.transaction_id

abbrev number_first : ℕ → ℕ → Bool → Bool
number_first a b rest = ltb a b || a == b && rest

-- The order of `stable_rank`.
unfoldable pub rank_lt : Candidate → Candidate → Bool
rank_lt c d = number_first c.quality.classification_rank d.quality.classification_rank (
    number_first c.quality.reference_rank d.quality.reference_rank (
      number_first c.quality.counterparty_rank d.quality.counterparty_rank (
        number_first c.quality.amount_difference d.quality.amount_difference (
          number_first c.quality.date_difference_days d.quality.date_difference_days
            (pair_lt c d)))))

-- `_score_candidates`
unfoldable pub score_candidates :
    List CanonicalTransaction → List CanonicalTransaction → ReconciliationPolicy → List Candidate
score_candidates lefts rights policy = sort_by rank_lt (pair_candidates lefts rights policy)

-- ===== src/Reconciliation/Duplicates.antt =====
-- `_partition_duplicates` of reconciliation/matcher.py. A dictionary of groups is the list of the groups
-- in the order of their first rows.
use mercury_tools.Prelude.{
  String, str_eq, str_lt, Bool, true, false, ◌&&◌, ◌||◌, List, [], ◌∷◌, ◌++◌, map, ◌==◌,
  if◌then◌else◌, same_text,
}
use mercury_tools.Reconciliation.Candidates.{ℤ, pos, negsuc, CanonicalTransaction, text_key}

pub data Side : Type 0 where
  left right : Side

pub record DuplicateEvidence : Type 0 where
  pub side : Side
  pub canonical_transaction_id : String
  pub transaction_ids : List String
  pub evidence_refs : List String

abbrev int_eq : ℤ → ℤ → Bool
int_eq (pos a) (pos b) = a == b
int_eq (negsuc a) (negsuc b) = a == b
int_eq _ _ = false

-- Rows with one `_duplicate_key`.
unfoldable pub same_duplicate_key : CanonicalTransaction → CanonicalTransaction → Bool
same_duplicate_key a b =
    str_eq a.source b.source
    && int_eq a.amount b.amount
    && str_eq a.currency b.currency
    && a.transaction_date == b.transaction_date
    && same_text (text_key a.reference) (text_key b.reference)
    && same_text (text_key a.counterparty_key) (text_key b.counterparty_key)
    && str_eq a.document_state b.document_state

-- The order of `_transaction_sort_key`.
unfoldable pub transaction_lt : CanonicalTransaction → CanonicalTransaction → Bool
transaction_lt a b =
    str_lt a.transaction_id b.transaction_id
    || str_eq a.transaction_id b.transaction_id && str_lt a.source b.source

module _ {A : Type 0} (lt : A → A → Bool) where
  -- `sorted`, which is stable.
  unfoldable pub insert_row : A → List A → List A
  insert_row x [] = x ∷ []
  insert_row x (y ∷ ys) = let rest = insert_row x ys in if lt y x then y ∷ rest else x ∷ y ∷ ys

  unfoldable pub sort_rows : List A → List A
  sort_rows [] = []
  sort_rows (x ∷ xs) = insert_row x (sort_rows xs)

-- A group: its first row and the others.
pub record Group : Type 0 where
  pub first : CanonicalTransaction
  pub others : List CanonicalTransaction

-- `grouped[_duplicate_key(row)].append(row)`
unfoldable pub place_row : CanonicalTransaction → List Group → List Group
place_row row [] = record { first = row; others = [] } ∷ []
place_row row (g ∷ gs) =
    let rest = place_row row gs in
    if same_duplicate_key g.first row
    then record g { others = g.others ++ row ∷ [] } ∷ gs
    else g ∷ rest

unfoldable pub group_rows : List Group → List CanonicalTransaction → List Group
group_rows groups [] = groups
group_rows groups (row ∷ rows) = group_rows (place_row row groups) rows

-- `sorted(group)`
unfoldable pub ordered_group : Group → List CanonicalTransaction
ordered_group g = sort_rows transaction_lt (g.first ∷ g.others)

abbrev pub head_of : CanonicalTransaction → List CanonicalTransaction → CanonicalTransaction
head_of row [] = row
head_of row (x ∷ xs) = x

-- `ordered[0]`
abbrev pub canonical_row : Group → CanonicalTransaction
canonical_row g = head_of g.first (ordered_group g)

abbrev mem_text : String → List String → Bool
mem_text v [] = false
mem_text v (x ∷ xs) = str_eq v x || mem_text v xs

-- `dict.fromkeys` after the values that were seen.
unfoldable pub unique_after : List String → List String → List String
unique_after seen [] = []
unique_after seen (x ∷ xs) =
    let rest = unique_after (if mem_text x seen then seen else x ∷ seen) xs in
    if mem_text x seen then rest else x ∷ rest

unfoldable pub all_refs : List CanonicalTransaction → List String
all_refs [] = []
all_refs (row ∷ rows) = row.evidence_refs ++ all_refs rows

abbrev pub evidence_of : Side → Group → DuplicateEvidence
evidence_of side g = record {
  side = side;
  canonical_transaction_id = (canonical_row g).transaction_id;
  transaction_ids = map (λ (row : CanonicalTransaction). row.transaction_id) (ordered_group g);
  evidence_refs = unique_after [] (all_refs (ordered_group g));
}

abbrev pub if_several :
    List CanonicalTransaction → DuplicateEvidence → List DuplicateEvidence → List DuplicateEvidence
if_several [] e rest = rest
if_several (x ∷ xs) e rest = e ∷ rest

-- The evidence of the groups with more than one row.
unfoldable pub group_evidence : Side → List Group → List DuplicateEvidence
group_evidence side [] = []
group_evidence side (g ∷ gs) = if_several g.others (evidence_of side g) (group_evidence side gs)

-- Python's order on tuples of texts.
unfoldable pub texts_lt : List String → List String → Bool
texts_lt _ [] = false
texts_lt [] (y ∷ ys) = true
texts_lt (x ∷ xs) (y ∷ ys) = str_lt x y || str_eq x y && texts_lt xs ys

abbrev pub evidence_lt : DuplicateEvidence → DuplicateEvidence → Bool
evidence_lt a b = texts_lt a.transaction_ids b.transaction_ids

-- `_partition_duplicates`
unfoldable pub partition_duplicates :
    Side → List CanonicalTransaction → List CanonicalTransaction × List DuplicateEvidence
partition_duplicates side rows =
    let groups = group_rows [] rows in
    (
      sort_rows transaction_lt (map canonical_row groups),
      sort_rows evidence_lt (group_evidence side groups),
    )

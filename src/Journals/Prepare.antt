-- ===== src/Journals/Prepare.antt =====
-- `prepare_general_journal` of journals/models.py.
use mercury_tools.Prelude.{
  ℕ, ◌/◌, ◌%◌, codes, Bool, not, ◌&&◌, ◌||◌, Option, none, some, List, [], ◌∷◌, ◌++◌, same_text,
  is_empty, length, ltb, ◌==◌, Result, ok, err, ◌>>=◌, ◌>>◌, raise_if, if◌then◌else◌,
}
use mercury_tools.Journals.Amounts.{
  JournalError, invalid_document_date, reference_required, description_required, insufficient_lines,
  invalid_side, unbalanced_journal, money, add_money,
}
use mercury_tools.Journals.Accounts.{Text, Unicode, Line, Account, map_text, strip, resolve_account}

-- The keys of `SIDE_CODES`.
pub data Side : Type 0 where
  debit credit : Side

-- `SIDE_CODES`
abbrev pub side_code : Side → ℕ
side_code debit = 1
side_code credit = 3

unfoldable pub read_side : Text → Result JournalError Side
read_side s =
    if same_text s (codes "debit")
    then ok debit
    else if same_text s (codes "credit")
    then ok credit
    else err invalid_side

-- `_json_amount`: a whole number of units, or the float of a number of cents.
pub data JsonAmount : Type 0 where
  integer : ℕ → JsonAmount
  float : ℕ → JsonAmount

unfoldable pub json_amount : ℕ → JsonAmount
json_amount cents = if cents % 100 == 0 then integer (cents / 100) else float cents

-- A row of `bookOfAccounts`.
pub record BodyLine : Type 0 where
  pub debit_credit : ℕ
  pub chart_of_account_id : ℕ
  pub value : JsonAmount
  pub description : Option Text

-- A row of the preview; the amount is its cents.
pub record PreviewLine : Type 0 where
  pub side : Side
  pub account_code : Text
  pub account_name : Text
  pub amount : ℕ
  pub description : Option Text

-- The locals of the loop.
pub record Entry : Type 0 where
  pub total_debit : ℕ
  pub total_credit : ℕ
  pub body_lines : List BodyLine
  pub preview_lines : List PreviewLine

-- `text or None`
unfoldable pub or_none : Text → Option Text
or_none text = if is_empty text then none else some text

-- `text or other`
unfoldable pub or_else : Text → Text → Text
or_else text other = if is_empty text then other else text

abbrev pub debit_after : Side → ℕ → ℕ → ℕ
debit_after debit total amount = add_money total amount
debit_after credit total amount = total

abbrev pub credit_after : Side → ℕ → ℕ → ℕ
credit_after debit total amount = total
credit_after credit total amount = add_money total amount

-- What one line adds.
unfoldable pub add_line : Side → ℕ → Account → Option Text → Entry → Entry
add_line side amount account description entry = record {
  total_debit = debit_after side entry.total_debit amount;
  total_credit = credit_after side entry.total_credit amount;
  body_lines =
      entry.body_lines
      ++ record {
        debit_credit = side_code side;
        chart_of_account_id = account.id;
        value = json_amount amount;
        description = description;
      }
        ∷ [];
  preview_lines =
      entry.preview_lines
      ++ record {
        side = side;
        account_code = account.code;
        account_name = or_else account.name_local account.name_foreign;
        amount = amount;
        description = description;
      }
        ∷ [];
}

-- One turn of the loop.
unfoldable pub prepare_line : Unicode → List Account → Line → Entry → Result JournalError Entry
prepare_line u accounts line entry = do
  side ← read_side (map_text u.lower (strip u.is_space line.side))
  amount ← money line.amount
  account ← resolve_account u line accounts
  ok (add_line side amount account (or_none (strip u.is_space line.description)) entry)

-- The loop.
unfoldable pub prepare_lines :
    Unicode → List Account → List Line → Entry → Result JournalError Entry
prepare_lines u accounts [] entry = ok entry
prepare_lines u accounts (line ∷ lines) entry =
    prepare_line u accounts line entry >>= λ next. prepare_lines u accounts lines next

-- The arguments, each text as `str(value or "")`; the date is what `date.fromisoformat` reads, as its
-- `isoformat()`.
pub record Draft : Type 0 where
  pub document_date : Option Text
  pub reference : Text
  pub description : Text
  pub lines : List Line
  pub environment : Text
  pub note : Text
  pub remarks : Text

-- `flowaccount_payload`
pub record Payload : Type 0 where
  pub document_type : ℕ
  pub document_date : Text
  pub description : Text
  pub note : Option Text
  pub remarks : Option Text
  pub reference : Option Text
  pub book_of_accounts : List BodyLine

-- `PreparedJournal`, with its totals in cents.
pub record PreparedJournal : Type 0 where
  pub document_date : Text
  pub reference : Text
  pub description : Text
  pub total_debit : ℕ
  pub total_credit : ℕ
  pub preview_lines : List PreviewLine
  pub flowaccount_payload : Payload

abbrev pub date_or_raise : Option Text → Result JournalError Text
date_or_raise (some date) = ok date
date_or_raise none = err invalid_document_date

-- `str(text).strip() if text else None`
unfoldable pub stripped_or_none : (ℕ → Bool) → Text → Option Text
stripped_or_none is_space text = if is_empty text then none else some (strip is_space text)

unfoldable pub build_journal : Unicode → Draft → Text → Entry → PreparedJournal
build_journal u draft date entry =
    let clean_reference = strip u.is_space draft.reference in
    let clean_description = strip u.is_space draft.description in
    record {
      document_date = date;
      reference = clean_reference;
      description = clean_description;
      total_debit = entry.total_debit;
      total_credit = entry.total_credit;
      preview_lines = entry.preview_lines;
      flowaccount_payload = record {
        document_type = 51;
        document_date = date;
        description = clean_description;
        note = stripped_or_none u.is_space draft.note;
        remarks = stripped_or_none u.is_space draft.remarks;
        reference = or_none clean_reference;
        book_of_accounts = entry.body_lines;
      };
    }

abbrev pub empty_entry : Entry
empty_entry = record { total_debit = 0; total_credit = 0; body_lines = []; preview_lines = [] }

unfoldable pub is_unbalanced : Entry → Bool
is_unbalanced entry =
    entry.total_debit == 0
    || entry.total_credit == 0
    || not (entry.total_debit == entry.total_credit)

-- `prepare_general_journal`
unfoldable pub prepare_general_journal :
    Unicode → List Account → Draft → Result JournalError PreparedJournal
prepare_general_journal u accounts draft = do
  date ← date_or_raise draft.document_date
  raise_if
      (same_text draft.environment (codes "production")
        && is_empty (strip u.is_space draft.reference))
      reference_required
  raise_if (is_empty (strip u.is_space draft.description)) description_required
  raise_if (ltb (length draft.lines) 2) insufficient_lines
  entry ← prepare_lines u accounts draft.lines empty_entry
  raise_if (is_unbalanced entry) unbalanced_journal
  ok (build_journal u draft date entry)

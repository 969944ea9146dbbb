-- ===== src/Journals/Balance.antt =====
-- What a prepared journal of journals/models.py promises.
use mercury_tools.Prelude.{
  ℕ, ◌+◌, ◌≤◌, ◌<◌, false, Option, List, [], ◌∷◌, ◌++◌, All, length, length-append, ltb, ok,
  Result-cases, ◌≡◌, refl, arith, inl, inr, ap, sym, ◌∙◌, subst,
}
use mercury_tools.Journals.Amounts.{money, add_money-exact, money-positive, precision}
use mercury_tools.Journals.Accounts.{Text, Unicode, Line, Account, strip, map_text, resolve_account}
use mercury_tools.Journals.Prepare.{
  Side, debit, credit, read_side, debit_after, credit_after, PreviewLine, Entry, add_line, or_none,
  prepare_line, prepare_lines, Draft, PreparedJournal, date_or_raise, build_journal, empty_entry,
  is_unbalanced, prepare_general_journal,
}

abbrev pub part : Side → PreviewLine → ℕ
part debit line = elim line.side [ debit ↦ line.amount | credit ↦ 0 ]
part credit line = elim line.side [ debit ↦ 0 | credit ↦ line.amount ]

-- The exact sum of the amounts of one side, in cents.
abbrev pub sum_of : Side → List PreviewLine → ℕ
sum_of side [] = 0
sum_of side (line ∷ lines) = part side line + sum_of side lines

sum_of-append :
    (side : Side) (lines : List PreviewLine) (line : PreviewLine)
    → sum_of side (lines ++ line ∷ []) ≡ sum_of side lines + part side line
sum_of-append side [] line = omega arith
sum_of-append side (l ∷ lines) line = omega (arith, sum_of-append side lines line)

-- A turn of the loop adds one line: one of a positive amount, added to its side.
record Adds (e e' : Entry) : Type 0 where
  line : PreviewLine
  lines : e'.preview_lines ≡ e.preview_lines ++ line ∷ []
  body : length e'.body_lines ≡ length e.body_lines + 1
  positive : 1 ≤ line.amount
  debits : e'.total_debit ≡ debit_after line.side e.total_debit line.amount
  credits : e'.total_credit ≡ credit_after line.side e.total_credit line.amount

add_line-Adds :
    (side : Side) (amount : ℕ) (account : Account) (description : Option Text) (e : Entry)
    → 1 ≤ amount
    → Adds e (add_line side amount account description e)
unfolding add_line
add_line-Adds side amount account description e h = record {
  line = _;
  lines = refl;
  body = length-append e.body_lines _;
  positive = h;
  debits = refl;
  credits = refl;
}

prepare_line-Adds :
    (u : Unicode) (accounts : List Account) (line : Line) (e e' : Entry)
    → prepare_line u accounts line e ≡ ok e'
    → Adds e e'
unfolding prepare_line
prepare_line-Adds u accounts line e e' h =
    elim (Result-cases (read_side (map_text u.lower (strip u.is_space line.side)))) [
      | inr (x, p) ↦ absurd (ground arith)
      | inl (side, p) ↦ elim (Result-cases (money line.amount)) [
        | inr (x, q) ↦ absurd (ground arith)
        | inl (amount, q) ↦ elim (Result-cases (resolve_account u line accounts)) [
          | inr (x, r) ↦ absurd (ground arith)
          | inl (account, r) ↦
              let description = or_none (strip u.is_space line.description) in
              let same : add_line side amount account description e ≡ e' = ground arith in
              subst (Adds e) same (
                add_line-Adds side amount account description e
                  (money-positive line.amount amount q).0)
        ]
      ]
    ]

-- What holds of the locals of the loop after some lines.
record IsTally (e : Entry) : Type 0 where
  debits : sum_of debit e.preview_lines < precision → e.total_debit ≡ sum_of debit e.preview_lines
  credits :
      sum_of credit e.preview_lines < precision → e.total_credit ≡ sum_of credit e.preview_lines
  positive : All (λ line. 1 ≤ line.amount) e.preview_lines
  body : length e.body_lines ≡ length e.preview_lines

All-append {ℓ} :
    (P : PreviewLine → Type ℓ) (lines : List PreviewLine) (line : PreviewLine)
    → All P lines
    → P line
    → All P (lines ++ line ∷ [])
All-append P [] line a p = (p, tt)
All-append P (l ∷ lines) line (q, a) p = (q, All-append P lines line a p)

sum_of-lines :
    (side : Side) (e e' : Entry) (line : PreviewLine)
    → e'.preview_lines ≡ e.preview_lines ++ line ∷ []
    → sum_of side e'.preview_lines ≡ sum_of side e.preview_lines + part side line
sum_of-lines side e e' line h = ap (sum_of side) h ∙ sum_of-append side e.preview_lines line

debit_tally :
    (side : Side) (line : PreviewLine) (total before after : ℕ)
    → line.side ≡ side
    → after ≡ before + part debit line
    → after < precision
    → total ≡ before
    → debit_after side total line.amount ≡ after
debit_tally debit line total before after s a l t =
    ground (arith, add_money-exact total line.amount)
debit_tally credit line total before after s a l t = ground arith

credit_tally :
    (side : Side) (line : PreviewLine) (total before after : ℕ)
    → line.side ≡ side
    → after ≡ before + part credit line
    → after < precision
    → total ≡ before
    → credit_after side total line.amount ≡ after
credit_tally credit line total before after s a l t =
    ground (arith, add_money-exact total line.amount)
credit_tally debit line total before after s a l t = ground arith

Adds-IsTally : (e e' : Entry) → Adds e e' → IsTally e → IsTally e'
Adds-IsTally e e' a t = record {
  debits = λ l.
      let s = sum_of-lines debit e e' a.line a.lines in
      a.debits
      ∙ debit_tally a.line.side a.line e.total_debit (sum_of debit e.preview_lines)
          (sum_of debit e'.preview_lines) refl s l (t.debits (omega (arith, s)));
  credits = λ l.
      let s = sum_of-lines credit e e' a.line a.lines in
      a.credits
      ∙ credit_tally a.line.side a.line e.total_credit (sum_of credit e.preview_lines)
          (sum_of credit e'.preview_lines) refl s l (t.credits (omega (arith, s)));
  positive =
      subst (All (λ line. 1 ≤ line.amount)) (sym a.lines)
        (All-append (λ line. 1 ≤ line.amount) e.preview_lines a.line t.positive a.positive);
  body =
      omega (arith, a.body, t.body, ap length a.lines, length-append e.preview_lines (a.line ∷ []));
}

prepare_lines-IsTally :
    (u : Unicode) (accounts : List Account) (lines : List Line) (e e' : Entry)
    → prepare_lines u accounts lines e ≡ ok e'
    → IsTally e
    → IsTally e' × (length e'.preview_lines ≡ length e.preview_lines + length lines)
unfolding prepare_lines
prepare_lines-IsTally u accounts [] e e' h t =
    let same : e ≡ e' = ground arith in
    (subst IsTally same t, omega (arith, ap (λ (x : Entry). length x.preview_lines) same))
prepare_lines-IsTally u accounts (line ∷ lines) e e' h t =
    elim (Result-cases (prepare_line u accounts line e)) [
      | inr (x, p) ↦ absurd (ground arith)
      | inl (next, p) ↦
          let a = prepare_line-Adds u accounts line e next p in
          let (t', n) =
            prepare_lines-IsTally u accounts lines next e' (ground arith)
              (Adds-IsTally e next a t) in
          (t', omega (arith, n, ap length a.lines, length-append e.preview_lines (a.line ∷ [])))
    ]

empty-IsTally : IsTally empty_entry
empty-IsTally = record { debits = λ l. refl; credits = λ l. refl; positive = tt; body = refl }

prepare_general_journal-ok :
    (u : Unicode) (accounts : List Account) (draft : Draft) (j : PreparedJournal)
    → prepare_general_journal u accounts draft ≡ ok j
    → (date : Text) × (entry : Entry) × (ltb (length draft.lines) 2 ≡ false)
      × (prepare_lines u accounts draft.lines empty_entry ≡ ok entry)
      × (is_unbalanced entry ≡ false)
      × (j ≡ build_journal u draft date entry)
unfolding prepare_general_journal
prepare_general_journal-ok u accounts draft j h =
    elim (Result-cases (date_or_raise draft.document_date)) [
      | inr (x, p) ↦ absurd (ground arith)
      | inl (date, p) ↦ elim (Result-cases (prepare_lines u accounts draft.lines empty_entry)) [
        | inr (x, q) ↦ absurd (ground arith)
        | inl (entry, q) ↦ (date, entry, ground arith, q, ground arith, ground arith)
      ]
    ]

-- A journal that is prepared has as many rows in the preview and in the payload as there are lines, at
-- least two; the amount of every row is positive; and its totals are equal and positive.
pub prepare_general_journal-rows :
    (u : Unicode) (accounts : List Account) (draft : Draft) (j : PreparedJournal)
    → prepare_general_journal u accounts draft ≡ ok j
    → (2 ≤ length draft.lines)
      × (length j.preview_lines ≡ length draft.lines)
      × (length j.flowaccount_payload.book_of_accounts ≡ length draft.lines)
      × All (λ line. 1 ≤ line.amount) j.preview_lines
      × (1 ≤ j.total_debit)
      × (j.total_debit ≡ j.total_credit)
unfolding build_journal is_unbalanced
prepare_general_journal-rows u accounts draft j h =
    let (date, entry, many, p, balanced, is_built) =
      prepare_general_journal-ok u accounts draft j h in
    let (t, n) = prepare_lines-IsTally u accounts draft.lines empty_entry entry p empty-IsTally in
    let rows : j.preview_lines ≡ entry.preview_lines =
      ap (λ (x : PreparedJournal). x.preview_lines) is_built in
    let body =
      ap (λ (x : PreparedJournal). length x.flowaccount_payload.book_of_accounts) is_built in
    (
      ground arith,
      omega (arith, ap length rows, n),
      omega (arith, body, t.body, n),
      subst (All (λ line. 1 ≤ line.amount)) (sym rows) t.positive,
      ground arith,
      ground arith,
    )

-- If the debits of a prepared journal add up to less than 10^28 cents, and the credits too, they add up
-- to the same, the totals of the journal.
pub prepare_general_journal-balanced :
    (u : Unicode) (accounts : List Account) (draft : Draft) (j : PreparedJournal)
    → prepare_general_journal u accounts draft ≡ ok j
    → sum_of debit j.preview_lines < precision
    → sum_of credit j.preview_lines < precision
    → (sum_of debit j.preview_lines ≡ sum_of credit j.preview_lines)
      × (j.total_debit ≡ sum_of debit j.preview_lines)
      × (j.total_credit ≡ sum_of credit j.preview_lines)
unfolding build_journal
prepare_general_journal-balanced u accounts draft j h few few' =
    let (date, entry, many, p, balanced, is_built) =
      prepare_general_journal-ok u accounts draft j h in
    let (t, n) = prepare_lines-IsTally u accounts draft.lines empty_entry entry p empty-IsTally in
    let rows : j.preview_lines ≡ entry.preview_lines =
      ap (λ (x : PreparedJournal). x.preview_lines) is_built in
    let debits : j.total_debit ≡ sum_of debit j.preview_lines =
      ap (λ (x : PreparedJournal). x.total_debit) is_built
      ∙ t.debits (subst (λ x. sum_of debit x < precision) rows few)
      ∙ sym (ap (sum_of debit) rows) in
    let credits : j.total_credit ≡ sum_of credit j.preview_lines =
      ap (λ (x : PreparedJournal). x.total_credit) is_built
      ∙ t.credits (subst (λ x. sum_of credit x < precision) rows few')
      ∙ sym (ap (sum_of credit) rows) in
    let (_, _, _, _, _, same) = prepare_general_journal-rows u accounts draft j h in
    (sym debits ∙ same ∙ credits, debits, credits)

-- ===== src/Journals/Tests.antt =====
-- A journal of journals/models.py at concrete inputs, and the theorems at it.
use mercury_tools.Prelude.{
  ◌+◌, ◌*◌, ◌^◌, ◌-◌, ◌≤◌, ◌<◌, codes, same_text, false, none, some, List, [], ◌∷◌, All, length, ok,
  err, leb, ◌&&◌, if◌then◌else◌, ◌≡◌, ◌↔◌, refl, arith, ◌==◌,
}
use mercury_tools.Journals.Amounts.{
  account_required, account_resolution_required, ambiguous_account, decimal, over, half_up,
  cents_of, checked_cents, money, half_even, significant, add_money, money-half_up,
}
use mercury_tools.Journals.Accounts.{
  Unicode, Line, Account, map_text, lstrip, rstrip, strip, squeeze, normalize_text, matches, select,
  only, is_unnamed, resolve_account,
}
use mercury_tools.Journals.Resolution.{
  IsUnnamed, IsNamedBy, IsOnlyNamed, AreNamed, resolve_account-outcome,
}
use mercury_tools.Journals.Prepare.{
  debit, credit, read_side, float, json_amount, or_none, or_else, add_line, prepare_line,
  prepare_lines, Draft, PreparedJournal, stripped_or_none, build_journal, is_unbalanced,
  prepare_general_journal,
}
use mercury_tools.Journals.Balance.{
  sum_of, prepare_general_journal-rows, prepare_general_journal-balanced,
}

abbrev ascii : Unicode
ascii = record { is_space = λ c. c == b' '; casefold = λ c. c ∷ []; lower = λ c. c ∷ [] }

abbrev cash : Account
cash = record { id = 7; code = codes "1000"; name_local = codes "Cash"; name_foreign = [] }

abbrev sales : Account
sales = record { id = 8; code = codes "4000"; name_local = codes "Sales"; name_foreign = [] }

abbrev chart : List Account
chart = cash ∷ sales ∷ []

abbrev debit_line : Line
debit_line = record {
  side = codes " debit";
  amount = decimal false 100505 (over 3);
  account_code = codes "1000";
  account_name = [];
  description = [];
}

abbrev credit_line : Line
credit_line = record {
  side = codes "credit";
  amount = decimal false 10051 (over 2);
  account_code = [];
  account_name = codes "Sales ";
  description = codes "June";
}

abbrev cash_line : Line
cash_line = record {
  side = codes "debit";
  amount = decimal false 100 (over 2);
  account_code = codes " ";
  account_name = codes " Cash";
  description = [];
}

abbrev lower_ascii : Unicode
lower_ascii = record {
  is_space = λ c. c == b' ';
  casefold = λ c. (if leb 65 c && leb c 90 then c + 32 else c) ∷ [];
  lower = λ c. c ∷ [];
}

abbrev draft : Draft
draft = record {
  document_date = some (codes "2026-06-30");
  reference = codes "R1";
  description = codes "Sales of June";
  lines = debit_line ∷ credit_line ∷ [];
  environment = codes "production";
  note = [];
  remarks = [];
}

half_cent : money (decimal false 1005 (over 3)) ≡ ok 101
unfolding money checked_cents cents_of half_up
half_cent = refl

money-half_up_example :
    (2 * 10 ^ (3 - 2) * 101 ≤ 2 * 1005 + 10 ^ (3 - 2))
    × (2 * 1005 + 10 ^ (3 - 2) < 2 * 10 ^ (3 - 2) * 101 + 2 * 10 ^ (3 - 2))
money-half_up_example = money-half_up false 1005 3 101 (omega arith) half_cent

abbrev bank : Account
bank = record {
  id = 9;
  code = codes "1010";
  name_local = codes "Thanakhan";
  name_foreign = codes "CASH";
}

resolve_account-outcome_example :
    ((resolve_account lower_ascii cash_line (cash ∷ sales ∷ bank ∷ []) ≡ err account_required)
      ↔ IsUnnamed lower_ascii cash_line)
    × ((resolve_account lower_ascii cash_line (cash ∷ sales ∷ bank ∷ []) ≡ ok cash) ↔ (
        ¬ (IsUnnamed lower_ascii cash_line)
        × IsOnlyNamed lower_ascii cash_line (cash ∷ sales ∷ bank ∷ []) cash))
    × ((resolve_account lower_ascii cash_line (cash ∷ sales ∷ bank ∷ [])
          ≡ err account_resolution_required)
        ↔ (¬ (IsUnnamed lower_ascii cash_line)
            × All
                (λ (b : Account). ¬ (IsNamedBy lower_ascii cash_line b))
                (cash ∷ sales ∷ bank ∷ [])))
    × ((resolve_account lower_ascii cash_line (cash ∷ sales ∷ bank ∷ []) ≡ err ambiguous_account)
        ↔ (¬ (IsUnnamed lower_ascii cash_line)
            × AreNamed lower_ascii cash_line (cash ∷ sales ∷ bank ∷ [])))
resolve_account-outcome_example =
    resolve_account-outcome lower_ascii cash_line (cash ∷ sales ∷ bank ∷ []) cash

ambiguous_by_foreign_name :
    resolve_account lower_ascii cash_line (cash ∷ sales ∷ bank ∷ []) ≡ err ambiguous_account
unfolding resolve_account is_unnamed normalize_text map_text strip lstrip rstrip squeeze matches
    select only same_text
ambiguous_by_foreign_name = refl

by_name : resolve_account ascii credit_line chart ≡ ok sales
unfolding resolve_account is_unnamed normalize_text map_text strip lstrip rstrip squeeze matches
    select only same_text
by_name = refl

abbrev journal : PreparedJournal
journal = record {
  document_date = codes "2026-06-30";
  reference = codes "R1";
  description = codes "Sales of June";
  total_debit = 10051;
  total_credit = 10051;
  preview_lines =
      record {
        side = debit;
        account_code = codes "1000";
        account_name = codes "Cash";
        amount = 10051;
        description = none;
      }
      ∷ record {
        side = credit;
        account_code = codes "4000";
        account_name = codes "Sales";
        amount = 10051;
        description = some (codes "June");
      }
      ∷ [];
  flowaccount_payload = record {
    document_type = 51;
    document_date = codes "2026-06-30";
    description = codes "Sales of June";
    note = none;
    remarks = none;
    reference = some (codes "R1");
    book_of_accounts =
        record {
          debit_credit = 1;
          chart_of_account_id = 7;
          value = float 10051;
          description = none;
        }
        ∷ record {
          debit_credit = 3;
          chart_of_account_id = 8;
          value = float 10051;
          description = some (codes "June");
        }
        ∷ [];
  };
}

prepared : prepare_general_journal ascii chart draft ≡ ok journal
unfolding prepare_general_journal prepare_lines prepare_line read_side json_amount or_none or_else
    add_line stripped_or_none build_journal is_unbalanced money checked_cents cents_of half_up
    add_money significant half_even resolve_account is_unnamed normalize_text map_text strip lstrip
    rstrip squeeze matches select only same_text
prepared = refl

prepare_general_journal-rows_example :
    (2 ≤ length draft.lines)
    × (length journal.preview_lines ≡ length draft.lines)
    × (length journal.flowaccount_payload.book_of_accounts ≡ length draft.lines)
    × All (λ line. 1 ≤ line.amount) journal.preview_lines
    × (1 ≤ journal.total_debit)
    × (journal.total_debit ≡ journal.total_credit)
prepare_general_journal-rows_example =
    prepare_general_journal-rows ascii chart draft journal prepared

prepare_general_journal-balanced_example :
    (sum_of debit journal.preview_lines ≡ sum_of credit journal.preview_lines)
    × (journal.total_debit ≡ sum_of debit journal.preview_lines)
    × (journal.total_credit ≡ sum_of credit journal.preview_lines)
prepare_general_journal-balanced_example =
    prepare_general_journal-balanced ascii chart draft journal prepared (omega arith) (omega arith)

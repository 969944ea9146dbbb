-- ===== src/Journals/Accounts.antt =====
-- The chart of accounts of journals/models.py: how a line finds its account.
use mercury_tools.Prelude.{
  ℕ, Bool, false, not, ◌&&◌, ◌||◌, List, [], ◌∷◌, ◌++◌, same_text, is_empty, Result, ok, err,
  if◌then◌else◌,
}
use mercury_tools.Journals.Amounts.{
  JournalError, account_required, account_resolution_required, ambiguous_account, Amount,
}

-- A text is the list of its code points.
abbrev pub Text : Type 0
Text = List ℕ

-- What the code reads from Python's Unicode tables.
pub record Unicode : Type 0 where
  pub is_space : ℕ → Bool
  pub casefold : ℕ → List ℕ
  pub lower : ℕ → List ℕ

-- The fields of a journal line, each the text that `str(value or "")` gives.
pub record Line : Type 0 where
  pub side : Text
  pub amount : Amount
  pub account_code : Text
  pub account_name : Text
  pub description : Text

-- A row of the chart of accounts, with its texts in the same form.
pub record Account : Type 0 where
  pub id : ℕ
  pub code : Text
  pub name_local : Text
  pub name_foreign : Text

-- A character map, character by character.
unfoldable pub map_text : (ℕ → List ℕ) → Text → Text
map_text f [] = []
map_text f (c ∷ s) = f c ++ map_text f s

unfoldable pub lstrip : (ℕ → Bool) → Text → Text
lstrip is_space [] = []
lstrip is_space (c ∷ s) = let rest = lstrip is_space s in if is_space c then rest else c ∷ s

unfoldable pub rstrip : (ℕ → Bool) → Text → Text
rstrip is_space [] = []
rstrip is_space (c ∷ s) =
    let rest = rstrip is_space s in if is_space c && is_empty rest then [] else c ∷ rest

unfoldable pub strip : (ℕ → Bool) → Text → Text
unfolding lstrip rstrip
strip is_space s = rstrip is_space (lstrip is_space s)

abbrev pub starts_with_space : (ℕ → Bool) → Text → Bool
starts_with_space is_space [] = false
starts_with_space is_space (c ∷ s) = is_space c

-- `re.sub(r"\s+", " ", …)`
unfoldable pub squeeze : (ℕ → Bool) → Text → Text
squeeze is_space [] = []
squeeze is_space (c ∷ s) =
    let rest = squeeze is_space s in
    if is_space c then (if starts_with_space is_space s then rest else b' ' ∷ rest) else c ∷ rest

-- `_normalize_text`
unfoldable pub normalize_text : Unicode → Text → Text
unfolding map_text strip squeeze
normalize_text u s = map_text u.casefold (squeeze u.is_space (strip u.is_space s))

-- The account is one that the line names: by its code, if the line has one, else by its name.
unfoldable pub matches : Unicode → Line → Account → Bool
matches u line account =
    if not (is_empty (normalize_text u line.account_code))
    then same_text (normalize_text u account.code) (normalize_text u line.account_code)
    else same_text (normalize_text u line.account_name) (normalize_text u account.name_local)
      || same_text (normalize_text u line.account_name) (normalize_text u account.name_foreign)

-- `[row for row in accounts if …]`
unfoldable pub select : (Account → Bool) → List Account → List Account
select p [] = []
select p (a ∷ accounts) = let rest = select p accounts in if p a then a ∷ rest else rest

unfoldable pub only : List Account → Result JournalError Account
only [] = err account_resolution_required
only (a ∷ []) = ok a
only (a ∷ b ∷ rest) = err ambiguous_account

-- The line has neither a code nor a name.
unfoldable pub is_unnamed : Unicode → Line → Bool
is_unnamed u line =
    is_empty (normalize_text u line.account_code) && is_empty (normalize_text u line.account_name)

-- `_resolve_account`
unfoldable pub resolve_account : Unicode → Line → List Account → Result JournalError Account
resolve_account u line accounts =
    if is_unnamed u line then err account_required else only (select (matches u line) accounts)

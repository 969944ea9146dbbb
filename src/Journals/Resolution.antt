-- ===== src/Journals/Resolution.antt =====
-- What `_resolve_account` of journals/models.py finds in a chart of accounts, said without its search.
use mercury_tools.Prelude.{
  suc, ◌+◌, ◌≤◌, Bool, true, false, List, [], ◌∷◌, ◌++◌, same_text, same_text-eq, same_text_refl,
  is_empty, length, length-append, All, Bool-cases, Result, ok, err, ◌≡◌, ◌↔◌, ◌⊎◌, inl, inr, refl,
  sym, ap, ◌∙◌, arith, subst,
}
use mercury_tools.Journals.Amounts.{
  JournalError, account_required, account_resolution_required, ambiguous_account,
}
use mercury_tools.Journals.Accounts.{
  Unicode, Text, Line, Account, normalize_text, matches, select, only, is_unnamed, resolve_account,
}

-- The line says nothing of an account, up to case and white space.
abbrev pub IsUnnamed : Unicode → Line → Type 0
IsUnnamed u line =
    (normalize_text u line.account_code ≡ []) × (normalize_text u line.account_name ≡ [])

-- The line names the account, up to case and white space: a line with a code by the code of the account,
-- a line without a code by its local or its foreign name.
abbrev pub IsNamedBy : Unicode → Line → Account → Type 0
IsNamedBy u line account =
    (¬ (normalize_text u line.account_code ≡ [])
      × (normalize_text u account.code ≡ normalize_text u line.account_code))
    ⊎ ((normalize_text u line.account_code ≡ [])
        × ((normalize_text u account.name_local ≡ normalize_text u line.account_name)
            ⊎ (normalize_text u account.name_foreign ≡ normalize_text u line.account_name)))

-- The row stands in the chart, is named, and no other row is.
pub record IsOnlyNamed (u : Unicode) (line : Line) (accounts : List Account) (a : Account)
    : Type 0 where
  pub before : List Account
  pub after : List Account
  pub split : accounts ≡ before ++ a ∷ after
  pub named : IsNamedBy u line a
  pub none_before : All (λ (b : Account). ¬ (IsNamedBy u line b)) before
  pub none_after : All (λ (b : Account). ¬ (IsNamedBy u line b)) after

-- Two rows of the chart are named.
pub record AreNamed (u : Unicode) (line : Line) (accounts : List Account) : Type 0 where
  pub before : List Account
  pub first : Account
  pub middle : List Account
  pub second : Account
  pub after : List Account
  pub split : accounts ≡ before ++ first ∷ (middle ++ second ∷ after)
  pub first_named : IsNamedBy u line first
  pub second_named : IsNamedBy u line second

empty-eq : (s : Text) → is_empty s ≡ true → s ≡ []
empty-eq [] h = refl
empty-eq (c ∷ s) h = absurd (ground arith)

not_empty : (s : Text) → is_empty s ≡ false → ¬ (s ≡ [])
not_empty [] h e = absurd (ground arith)
not_empty (c ∷ s) h e = absurd (ground arith)

matches-IsNamedBy :
    (u : Unicode) (line : Line) (account : Account)
    → matches u line account ≡ true
    → IsNamedBy u line account
unfolding matches
matches-IsNamedBy u line account h =
    let code = normalize_text u line.account_code in
    let name = normalize_text u line.account_name in
    elim (Bool-cases (is_empty code)) [
      | inr coded ↦
          inl
            (not_empty code coded, same_text-eq (normalize_text u account.code) code (ground arith))
      | inl e ↦ elim (Bool-cases (same_text name (normalize_text u account.name_local))) [
        | inl here ↦ inr (
          empty-eq code e,
          inl (sym (same_text-eq name (normalize_text u account.name_local) here)),
        )
        | inr other ↦ inr (
          empty-eq code e,
          inr (sym (same_text-eq name (normalize_text u account.name_foreign) (ground arith))),
        )
      ]
    ]

same_text-of : {s t : Text} → s ≡ t → same_text s t ≡ true
same_text-of {s} e = subst (λ (x : Text). same_text s x ≡ true) e (same_text_refl s)

is_empty-of : {s : Text} → s ≡ [] → is_empty s ≡ true
is_empty-of e = ap is_empty e

is_empty-not : (s : Text) → ¬ (s ≡ []) → is_empty s ≡ false
is_empty-not [] h = absurd (h refl)
is_empty-not (c ∷ s) h = refl

IsNamedBy-matches :
    (u : Unicode) (line : Line) (account : Account)
    → IsNamedBy u line account
    → matches u line account ≡ true
unfolding matches
IsNamedBy-matches u line account (inl (coded, e)) =
    ground (arith, is_empty-not (normalize_text u line.account_code) coded, same_text-of e)
IsNamedBy-matches u line account (inr (e, inl here)) =
    ground (arith, is_empty-of e, same_text-of (sym here))
IsNamedBy-matches u line account (inr (e, inr here)) =
    ground (arith, is_empty-of e, same_text-of (sym here))

matches-not :
    (u : Unicode) (line : Line) (account : Account)
    → matches u line account ≡ false
    → ¬ (IsNamedBy u line account)
matches-not u line account h named = absurd (ground (arith, IsNamedBy-matches u line account named))

not-matches :
    (u : Unicode) (line : Line) (account : Account)
    → ¬ (IsNamedBy u line account)
    → matches u line account ≡ false
not-matches u line account h = elim (Bool-cases (matches u line account)) [
  | inl e ↦ absurd (h (matches-IsNamedBy u line account e))
  | inr e ↦ e
]

select-append :
    (p : Account → Bool) (xs ys : List Account) → select p (xs ++ ys) ≡ select p xs ++ select p ys
unfolding select
select-append p [] ys = refl
select-append p (x ∷ xs) ys = elim (Bool-cases (p x)) [
  | inl e ↦ rw e (ap (λ (zs : List Account). x ∷ zs) (select-append p xs ys))
  | inr e ↦ rw e (select-append p xs ys)
]

select-cons :
    (p : Account → Bool) (x : Account) (xs : List Account)
    → p x ≡ true
    → select p (x ∷ xs) ≡ x ∷ select p xs
unfolding select
select-cons p x xs e = rw e refl

module _ (u : Unicode) (line : Line) where
  found-none :
      (xs : List Account)
      → All (λ (b : Account). ¬ (IsNamedBy u line b)) xs
      → select (matches u line) xs ≡ []
  unfolding select
  found-none [] h = refl
  found-none (x ∷ xs) h = rw (not-matches u line x h.0) (found-none xs h.1)

  none-found :
      (xs : List Account)
      → select (matches u line) xs ≡ []
      → All (λ (b : Account). ¬ (IsNamedBy u line b)) xs
  unfolding select
  none-found [] h = tt
  none-found (x ∷ xs) h = elim (Bool-cases (matches u line x)) [
    | inl e ↦ absurd (ground (arith, select-cons (matches u line) x xs e))
    | inr e ↦ (matches-not u line x e, none-found xs (ground arith))
  ]

  -- A list of which something is found begins with rows that are not named, and a row that is.
  record Begins (xs : List Account) (a : Account) (rest : List Account) : Type 0 where
    before : List Account
    after : List Account
    split : xs ≡ before ++ a ∷ after
    named : IsNamedBy u line a
    none_before : All (λ (b : Account). ¬ (IsNamedBy u line b)) before
    found_after : select (matches u line) after ≡ rest

  found-Begins :
      (xs : List Account) (a : Account) (rest : List Account)
      → select (matches u line) xs ≡ a ∷ rest
      → Begins xs a rest
  unfolding select
  found-Begins [] a rest h = absurd (ground arith)
  found-Begins (x ∷ xs) a rest h = elim (Bool-cases (matches u line x)) [
    | inl e ↦
        let same = sym (select-cons (matches u line) x xs e) ∙ h in
        let is : x ≡ a = ground arith in
        record {
          before = [];
          after = xs;
          split = ap (λ (z : Account). z ∷ xs) is;
          named = subst (IsNamedBy u line) is (matches-IsNamedBy u line x e);
          none_before = tt;
          found_after = ground arith;
        }
    | inr e ↦
        let b = found-Begins xs a rest (ground arith) in
        record {
          before = x ∷ b.before;
          after = b.after;
          split = ap (λ (zs : List Account). x ∷ zs) b.split;
          named = b.named;
          none_before = (matches-not u line x e, b.none_before);
          found_after = b.found_after;
        }
  ]

  found-only :
      (accounts : List Account) (a : Account)
      → (select (matches u line) accounts ≡ a ∷ []) ↔ IsOnlyNamed u line accounts a
  found-only accounts a = (
    (λ h.
        let b = found-Begins accounts a [] h in
        record {
          before = b.before;
          after = b.after;
          split = b.split;
          named = b.named;
          none_before = b.none_before;
          none_after = none-found b.after b.found_after;
        }),
    (λ o.
        ap (select (matches u line)) o.split
        ∙ select-append (matches u line) o.before (a ∷ o.after)
        ∙ ap (λ (zs : List Account). zs ++ select (matches u line) (a ∷ o.after))
            (found-none o.before o.none_before)
        ∙ select-cons (matches u line) a o.after (IsNamedBy-matches u line a o.named)
        ∙ ap (λ (zs : List Account). a ∷ zs) (found-none o.after o.none_after)),
  )

  two-AreNamed :
      (accounts : List Account) (a b : Account) (rest : List Account)
      → select (matches u line) accounts ≡ a ∷ b ∷ rest
      → AreNamed u line accounts
  two-AreNamed accounts a b rest h =
      let f = found-Begins accounts a (b ∷ rest) h in
      let s = found-Begins f.after b rest f.found_after in
      record {
        before = f.before;
        first = a;
        middle = s.before;
        second = b;
        after = s.after;
        split = f.split ∙ ap (λ (zs : List Account). f.before ++ a ∷ zs) s.split;
        first_named = f.named;
        second_named = s.named;
      }

  found-named :
      (xs : List Account) (a : Account) (ys : List Account)
      → IsNamedBy u line a
      → length (select (matches u line) (xs ++ a ∷ ys))
        ≡ length (select (matches u line) xs) + suc (length (select (matches u line) ys))
  found-named xs a ys named =
      ap length (
        select-append (matches u line) xs (a ∷ ys)
        ∙ ap (λ (zs : List Account). select (matches u line) xs ++ zs)
            (select-cons (matches u line) a ys (IsNamedBy-matches u line a named)))
      ∙ length-append (select (matches u line) xs) (a ∷ select (matches u line) ys)

  AreNamed-two :
      (accounts : List Account)
      → AreNamed u line accounts
      → 2 ≤ length (select (matches u line) accounts)
  AreNamed-two accounts t = omega (
    arith,
    ap (λ (zs : List Account). length (select (matches u line) zs)) t.split,
    found-named t.before t.first (t.middle ++ t.second ∷ t.after) t.first_named,
    found-named t.middle t.second t.after t.second_named,
  )

only-ok : (rows : List Account) (a : Account) → only rows ≡ ok a → rows ≡ a ∷ []
unfolding only
only-ok [] a h = absurd (ground arith)
only-ok (b ∷ []) a h = ground arith
only-ok (b ∷ c ∷ rest) a h = absurd (ground arith)

only-none : (rows : List Account) → only rows ≡ err account_resolution_required → rows ≡ []
unfolding only
only-none [] h = refl
only-none (b ∷ []) h = absurd (ground arith)
only-none (b ∷ c ∷ rest) h = absurd (ground arith)

only-several :
    (rows : List Account)
    → only rows ≡ err ambiguous_account
    → (a b : Account) × (rest : List Account) × (rows ≡ a ∷ b ∷ rest)
unfolding only
only-several [] h = absurd (ground arith)
only-several (b ∷ []) h = absurd (ground arith)
only-several (b ∷ c ∷ rest) h = (b, c, rest, refl)

several-only : (rows : List Account) → 2 ≤ length rows → only rows ≡ err ambiguous_account
unfolding only
several-only [] h = absurd (omega (arith, h))
several-only (b ∷ []) h = absurd (omega (arith, h))
several-only (b ∷ c ∷ rest) h = refl

only_not_required : (rows : List Account) → ¬ (only rows ≡ err account_required)
unfolding only
only_not_required [] h = absurd (ground arith)
only_not_required (b ∷ []) h = absurd (ground arith)
only_not_required (b ∷ c ∷ rest) h = absurd (ground arith)

unnamed : (u : Unicode) (line : Line) → is_unnamed u line ≡ true → IsUnnamed u line
unfolding is_unnamed
unnamed u line h = (
  empty-eq (normalize_text u line.account_code) (ground arith),
  empty-eq (normalize_text u line.account_name) (ground arith),
)

IsUnnamed-is_unnamed : (u : Unicode) (line : Line) → IsUnnamed u line → is_unnamed u line ≡ true
unfolding is_unnamed
IsUnnamed-is_unnamed u line h = ground (arith, is_empty-of h.0, is_empty-of h.1)

resolve-unnamed :
    (u : Unicode) (line : Line) (accounts : List Account)
    → is_unnamed u line ≡ true
    → resolve_account u line accounts ≡ err account_required
unfolding resolve_account
resolve-unnamed u line accounts h = ground arith

resolve-named :
    (u : Unicode) (line : Line) (accounts : List Account)
    → is_unnamed u line ≡ false
    → resolve_account u line accounts ≡ only (select (matches u line) accounts)
unfolding resolve_account
resolve-named u line accounts h = ground arith

-- An answer other than that the line is unnamed is that of the search, for a line that is named.
answered :
    (u : Unicode) (line : Line) (accounts : List Account) (r : Result JournalError Account)
    → ¬ (r ≡ err account_required)
    → resolve_account u line accounts ≡ r
    → (¬ (IsUnnamed u line)) × (only (select (matches u line) accounts) ≡ r)
answered u line accounts r other h = elim (Bool-cases (is_unnamed u line)) [
  | inl e ↦ absurd (other (sym h ∙ resolve-unnamed u line accounts e))
  | inr e ↦ (
    (λ (n : IsUnnamed u line). absurd (ground (arith, IsUnnamed-is_unnamed u line n))),
    sym (resolve-named u line accounts e) ∙ h,
  )
]

named-answer :
    (u : Unicode) (line : Line) (accounts : List Account)
    → ¬ (IsUnnamed u line)
    → resolve_account u line accounts ≡ only (select (matches u line) accounts)
named-answer u line accounts h = elim (Bool-cases (is_unnamed u line)) [
  | inl e ↦ absurd (h (unnamed u line e))
  | inr e ↦ resolve-named u line accounts e
]

-- What a line finds in a chart of accounts. It is refused as unnamed exactly if it has neither a code nor
-- a name. Otherwise it gets a row exactly if that row is the only one that it names, is refused as
-- unresolved exactly if it names no row, and as ambiguous exactly if it names two. A line with a code names
-- the rows with that code, another line those with its name as their local or their foreign name, up to
-- case and white space.
pub resolve_account-outcome :
    (u : Unicode) (line : Line) (accounts : List Account) (a : Account)
    → ((resolve_account u line accounts ≡ err account_required) ↔ IsUnnamed u line)
      × ((resolve_account u line accounts ≡ ok a)
          ↔ (¬ (IsUnnamed u line) × IsOnlyNamed u line accounts a))
      × ((resolve_account u line accounts ≡ err account_resolution_required)
          ↔ (¬ (IsUnnamed u line) × All (λ (b : Account). ¬ (IsNamedBy u line b)) accounts))
      × ((resolve_account u line accounts ≡ err ambiguous_account)
          ↔ (¬ (IsUnnamed u line) × AreNamed u line accounts))
unfolding only
resolve_account-outcome u line accounts a =
    let rows = select (matches u line) accounts in
    (
      (
        (λ h. elim (Bool-cases (is_unnamed u line)) [
          | inl e ↦ unnamed u line e
          | inr e ↦ absurd (only_not_required rows (sym (resolve-named u line accounts e) ∙ h))
        ]),
        (λ n. resolve-unnamed u line accounts (IsUnnamed-is_unnamed u line n)),
      ),
      (
        (λ h.
            let (n, o) = answered u line accounts (ok a) (λ e. absurd (ground arith)) h in
            (n, (found-only u line accounts a).0 (only-ok rows a o))),
        (λ w. named-answer u line accounts w.0 ∙ ap only ((found-only u line accounts a).1 w.1)),
      ),
      (
        (λ h.
            let (n, o) =
              answered u line accounts (err account_resolution_required)
                (λ e. absurd (ground arith)) h in
            (n, none-found u line accounts (only-none rows o))),
        (λ w. named-answer u line accounts w.0 ∙ ap only (found-none u line accounts w.1)),
      ),
      (
        (λ h.
            let (n, o) =
              answered u line accounts (err ambiguous_account) (λ e. absurd (ground arith)) h in
            let (b, c, rest, found) = only-several rows o in
            (n, two-AreNamed u line accounts b c rest found)),
        (λ w.
            named-answer u line accounts w.0
            ∙ several-only rows (AreNamed-two u line accounts w.1)),
      ),
    )

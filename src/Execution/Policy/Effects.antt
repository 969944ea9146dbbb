-- ===== src/Execution/Policy/Effects.antt =====
-- src/mercury_tools/execution/policy.py: reading a declared side effect as a sensitive one. A text is
-- the list of its code points; the code leaves the ASCII texts only.
pub mod Spelling
use mercury_tools.Prelude.{
  ℕ, ◌+◌, ◌<◌, String, Bool, true, false, not, ◌&&◌, ◌||◌, Option, none, some, List, [], ◌∷◌, ◌++◌,
  map, all, any, ltb, leb, ◌==◌, if◌then◌else◌, is_empty, codes, same_text,
}

-- `SENSITIVE_EFFECT_ALIASES`
abbrev pub sensitive_effect_aliases : List (String × String)
sensitive_effect_aliases =
    ("payment", "payment")
    ∷ ("payments", "payment")
    ∷ ("payment_processed", "payment")
    ∷ ("payments_processed", "payment")
    ∷ ("approve", "approve")
    ∷ ("approves", "approve")
    ∷ ("approve_document", "approve")
    ∷ ("approves_document", "approve")
    ∷ ("void", "void")
    ∷ ("voids", "void")
    ∷ ("void_document", "void")
    ∷ ("voids_document", "void")
    ∷ ("post", "post")
    ∷ ("posts", "post")
    ∷ ("post_journal", "post")
    ∷ ("posts_journal", "post")
    ∷ ("finalize", "finalize")
    ∷ ("finalizes", "finalize")
    ∷ ("finalize_document", "finalize")
    ∷ ("finalizes_document", "finalize")
    ∷ ("email", "email")
    ∷ ("emails", "email")
    ∷ ("send_email", "email")
    ∷ ("send_emails", "email")
    ∷ ("email_customer", "email")
    ∷ ("emails_customer", "email")
    ∷ ("share", "share")
    ∷ ("shares", "share")
    ∷ ("share_document", "share")
    ∷ ("shares_document", "share")
    ∷ ("invite", "invite")
    ∷ ("invites", "invite")
    ∷ ("invite_user", "invite")
    ∷ ("invites_user", "invite")
    ∷ ("delete", "delete")
    ∷ ("deletes", "delete")
    ∷ ("delete_document", "delete")
    ∷ ("deletes_document", "delete")
    ∷ []

unfoldable pub is_upper : ℕ → Bool
is_upper c = leb b'A' c && leb c b'Z'

-- `str.casefold` on an ASCII character.
unfoldable pub casefold : ℕ → ℕ
unfolding is_upper
casefold c = if is_upper c then c + 32 else c

-- The ASCII characters that `str.strip` drops and `\s` matches.
unfoldable pub is_space : ℕ → Bool
is_space c = leb 9 c && leb c 13 || leb 28 c && leb c 32

-- The class `[-_\s]` of `_EFFECT_SEPARATOR_PATTERN`.
pub is_separator : ℕ → Bool
unfolding is_space
is_separator c = c == b'-' || c == b'_' || is_space c

-- The class of `_EFFECT_ASCII_TOKEN_PATTERN`.
pub is_token_char : ℕ → Bool
is_token_char c = leb b'a' c && leb c b'z' || leb b'0' c && leb c b'9'

pub is_token : List ℕ → Bool
unfolding is_token_char
is_token token = not (is_empty token) && all is_token_char token

unfoldable pub lstrip : List ℕ → List ℕ
unfolding is_space
lstrip [] = []
lstrip (c ∷ s) = if is_space c then lstrip s else c ∷ s

unfoldable pub rstrip : List ℕ → List ℕ
unfolding is_space
rstrip [] = []
rstrip (c ∷ s) = let rest = rstrip s in if is_space c && is_empty rest then [] else c ∷ rest

abbrev starts_with_separator : List ℕ → Bool
starts_with_separator [] = false
starts_with_separator (c ∷ s) = is_separator c

abbrev push_char : ℕ → List (List ℕ) → List (List ℕ)
push_char c [] = (c ∷ []) ∷ []
push_char c (t ∷ ts) = (c ∷ t) ∷ ts

-- `_EFFECT_SEPARATOR_PATTERN.split`: a run of separators is one cut.
pub split_separators : List ℕ → List (List ℕ)
unfolding is_separator
split_separators [] = [] ∷ []
split_separators (c ∷ s) =
    let rest = split_separators s in
    if is_separator c
    then (if starts_with_separator s then rest else [] ∷ rest)
    else push_char c rest

-- `"_".join`
pub join_underscore : List (List ℕ) → List ℕ
join_underscore [] = []
join_underscore (t ∷ []) = t
join_underscore (t ∷ u ∷ ts) = t ++ b'_' ∷ join_underscore (u ∷ ts)

-- `dict.get` on a table of texts.
pub get_alias : List ℕ → List (String × String) → Option String
unfolding same_text
get_alias key [] = none
get_alias key ((alias, canonical) ∷ table) =
    if same_text (codes alias) key then some canonical else get_alias key table

-- `alias.replace("_", "")`
pub without_underscores : List ℕ → List ℕ
without_underscores [] = []
without_underscores (c ∷ s) =
    let rest = without_underscores s in if c == b'_' then rest else c ∷ rest

-- `.get` on `_COLLAPSED_SENSITIVE_EFFECT_ALIASES`.
pub get_collapsed : List ℕ → List (String × String) → Option String
unfolding same_text without_underscores
get_collapsed key [] = none
get_collapsed key ((alias, canonical) ∷ table) =
    if any (λ c. c == b'_') (codes alias) && same_text (without_underscores (codes alias)) key
    then some canonical
    else get_collapsed key table

abbrev or_else : Option String → Option String → Option String
or_else (some value) other = some value
or_else none other = other

pub is_ascii : List ℕ → Bool
is_ascii = all (λ c. ltb c 128)

-- `_canonical_sensitive_effect` on an ASCII text, in lower case and stripped.
pub canonical_tokens : List (List ℕ) → Option String
unfolding is_token join_underscore get_alias get_collapsed
canonical_tokens tokens =
    if is_empty tokens || not (all is_token tokens)
    then none
    else (let normalized = join_underscore tokens in
        or_else (get_alias normalized sensitive_effect_aliases)
          (get_collapsed normalized sensitive_effect_aliases))

unfoldable pub canonical_sensitive_effect : List ℕ → Option String
unfolding is_ascii casefold lstrip rstrip split_separators canonical_tokens
canonical_sensitive_effect effect =
    if not (is_ascii effect)
    then none
    else canonical_tokens (split_separators (rstrip (lstrip (map casefold effect))))

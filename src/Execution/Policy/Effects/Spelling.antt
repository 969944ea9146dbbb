-- ===== src/Execution/Policy/Effects/Spelling.antt =====
-- The reading of a side effect does not depend on its case, nor on white space in front of it.
use mercury_tools.Prelude.{
  ℕ, ◌-◌, true, ◌&&◌, List, [], ◌∷◌, map, leb, if◌then◌else◌, ◌≡◌, refl, arith,
}
use mercury_tools.Execution.Policy.Effects.{
  casefold, is_space, is_ascii, lstrip, canonical_sensitive_effect,
}

-- `str.upper` on an ASCII character.
pub upper : ℕ → ℕ
upper c = if leb b'a' c && leb c b'z' then c - 32 else c

casefold-upper : (c : ℕ) → casefold (upper c) ≡ casefold c
unfolding casefold upper
casefold-upper c = ground arith

map-casefold-upper : (s : List ℕ) → map casefold (map upper s) ≡ map casefold s
map-casefold-upper [] = refl
map-casefold-upper (c ∷ s) = cc (casefold-upper c, map-casefold-upper s)

is_ascii-upper : (s : List ℕ) → is_ascii (map upper s) ≡ is_ascii s
unfolding is_ascii upper
is_ascii-upper [] = refl
is_ascii-upper (c ∷ s) = ground (arith, is_ascii-upper s)

-- A side effect in upper case is read as in any other case.
pub canonical_sensitive_effect-upper :
    (effect : List ℕ)
    → canonical_sensitive_effect (map upper effect) ≡ canonical_sensitive_effect effect
unfolding canonical_sensitive_effect
canonical_sensitive_effect-upper effect = rw (is_ascii-upper effect, map-casefold-upper effect)

casefold-space : (c : ℕ) → is_space c ≡ true → (casefold c ≡ c) × (is_ascii (c ∷ []) ≡ true)
unfolding casefold is_space is_ascii
casefold-space c h = ground arith

lstrip-space : (c : ℕ) (s : List ℕ) → is_space c ≡ true → lstrip (c ∷ s) ≡ lstrip s
unfolding lstrip
lstrip-space c s h = rw h

is_ascii-space : (c : ℕ) (s : List ℕ) → is_space c ≡ true → is_ascii (c ∷ s) ≡ is_ascii s
unfolding is_ascii is_space
is_ascii-space c s h = ground arith

-- White space in front of a side effect changes nothing.
pub canonical_sensitive_effect-space :
    (c : ℕ) (effect : List ℕ)
    → is_space c ≡ true
    → canonical_sensitive_effect (c ∷ effect) ≡ canonical_sensitive_effect effect
unfolding canonical_sensitive_effect
canonical_sensitive_effect-space c effect h =
    rw (is_ascii-space c effect h, (casefold-space c h).0, lstrip-space c (map casefold effect) h)

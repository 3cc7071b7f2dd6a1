-- ===== src/Store/Search/Phrases.antt =====
-- store.worker.ts, sanitizeFtsQuery: what FTS5 reads in the query that is made of a user's text.
use caladon.Prelude.{
  ◌≢◌, ℕ, Bool, true, false, eqb, if◌then◌else◌, Option, none, some, List, [], ◌∷◌, All,
}
use caladon.Sdk.Text.{Text}

-- FTS5's reading of a query that is a sequence of strings in double quotes: its phrases, all of
-- which must match. The query ends at U+0000, also within a string, which is then unterminated.
-- Anything else outside of quotes would be syntax, and is refused here.
abbrev prepend : Text → Option (List Text) → Option (List Text)
prepend t none = none
prepend t (some ps) = some (t ∷ ps)

abbrev extend_phrase : ℕ → Option (List Text) → Option (List Text)
extend_phrase c none = none
extend_phrase c (some []) = none
extend_phrase c (some (p ∷ ps)) = some ((c ∷ p) ∷ ps)

unfoldable pub read_phrases : Bool → Text → Option (List Text)
read_phrases true [] = none
read_phrases true (c ∷ s) =
    let after = read_phrases false s in
    let inside = read_phrases true s in
    if eqb c 0 then none else if eqb c 34 then prepend [] after else extend_phrase c inside
read_phrases false [] = some []
read_phrases false (c ∷ s) =
    let after = read_phrases false s in
    let inside = read_phrases true s in
    if eqb c 0 then some [] else if eqb c 34 then inside else if eqb c 32 then after else none

-- the phrases of a query, read from its start
abbrev pub phrases : Text → Option (List Text)
phrases q = read_phrases false q

-- A character of a token: none of `"()*:^-`, and not the end of a query.
abbrev pub IsPlain : ℕ → Type 0
IsPlain c = (c ≢ 34) × (c ≢ 40) × (c ≢ 41) × (c ≢ 42) × (c ≢ 58) × (c ≢ 94) × (c ≢ 45) × (c ≢ 0)

-- A token that is quoted: it is not empty, and its characters are plain.
abbrev pub IsClean : Text → Type 0
IsClean t = (t ≢ []) × All IsPlain t

abbrev NoQuote : Text → Type 0
NoQuote t = All IsPlain t

-- a text without U+0000
abbrev pub NoNul : Text → Type 0
NoNul t = All (λ c. c ≢ 0) t

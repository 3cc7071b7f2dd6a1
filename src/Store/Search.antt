-- ===== src/Store/Search.antt =====
-- store.worker.ts, search and sanitizeFtsQuery: the full-text search. FTS5 is a parameter: the rows
-- that match a query, in the order of their bm25 rank.
pub mod Phrases
use caladon.Prelude.{
  ℕ, ◌+◌, ◌%◌, ◌^◌, Bool, true, false, not, ◌&&◌, ◌||◌, Option, none, some, List, [], ◌∷◌, ◌++◌,
  map, length, take, min, max, ltb, leb, eqb, if◌then◌else◌,
}
use caladon.Sdk.Text.{Text, is_space, trim}
use caladon.Table.{select}
use caladon.Store.Requests.{Double}
use caladon.Store.Responses.{SearchHit}
use caladon.Store.Tables.{Tables}
use caladon.Store.Action.{Env, Action, pure, ◌>>=◌, query}

pub record Fts : Type 0 where
  -- the rows of messages_fts MATCH q, with their snippets, ORDER BY rank ASC
  pub matches : Text → Tables → List SearchHit
  -- `>` on the values of bm25
  pub rank_gt : Double → Double → Bool

-- The characters of the class ["()*:^-].
unfoldable pub is_operator : ℕ → Bool
is_operator c = eqb c 34 || eqb c 40 || eqb c 41 || eqb c 42 || eqb c 58 || eqb c 94 || eqb c 45

-- t.replace(/["()*:^-]/g, '')
unfoldable pub strip_operators : Text → Text
unfolding is_operator
strip_operators [] = []
strip_operators (c ∷ t) = let rest = strip_operators t in if is_operator c then rest else c ∷ rest

abbrev pub starts_space : Text → Bool
starts_space [] = false
starts_space (c ∷ s) = is_space c

abbrev pub cons_head : ℕ → List Text → List Text
cons_head c [] = (c ∷ []) ∷ []
cons_head c (t ∷ ts) = (c ∷ t) ∷ ts

-- q.split(/\s+/): a run of white space separates two parts, which may be empty at the ends.
unfoldable pub split_space : Text → List Text
unfolding is_space
split_space [] = [] ∷ []
split_space (c ∷ s) =
    let rest = split_space s in
    if is_space c then (if starts_space s then rest else [] ∷ rest) else cons_head c rest

abbrev pub is_nonempty : Text → Bool
is_nonempty [] = false
is_nonempty (c ∷ t) = true

-- The tokens that are quoted: stripped, trimmed, and not empty.
unfoldable pub tokens : Text → List Text
unfolding split_space strip_operators trim select
tokens q = select is_nonempty (map (λ t. trim (strip_operators t)) (split_space q))

abbrev pub quoted : Text → Text
quoted t = 34 ∷ t ++ 34 ∷ []

-- .map((t) => `"${t}"`).join(' ')
unfoldable pub join_quoted : List Text → Text
join_quoted [] = []
join_quoted (t ∷ []) = quoted t
join_quoted (t ∷ u ∷ ts) = quoted t ++ 32 ∷ join_quoted (u ∷ ts)

unfoldable pub sanitize_fts_query : Text → Text
unfolding tokens join_quoted
sanitize_fts_query q = join_quoted (tokens q)

-- `cursor ?`: zero of either sign and NaN are falsy.
unfoldable pub is_truthy_double : Double → Bool
is_truthy_double d = not (eqb (d % 2 ^ 63) 0) && leb (d % 2 ^ 63) 0x7ff0000000000000

pub record SearchPage : Type 0 where
  pub hits : List SearchHit
  pub next_cursor : Option Double

-- Math.max(1, Math.min(limit, 100))
abbrev pub search_limit : ℕ → ℕ
search_limit limit = max 1 (min limit 100)

-- hits[hits.length - 1]!.rank
unfoldable pub last_rank : List SearchHit → Option Double
last_rank [] = none
last_rank (h ∷ []) = some h.rank
last_rank (h ∷ k ∷ hs) = last_rank (k ∷ hs)

unfoldable pub search_page : ℕ → List SearchHit → SearchPage
unfolding last_rank
search_page lim rows =
    if ltb lim (length rows)
    then record { hits = take lim rows; next_cursor = last_rank (take lim rows) }
    else record { hits = rows; next_cursor = none }

module _ (fts : Fts) where
  -- The two statements of search.
  unfoldable pub search_rows : Text → Option Double → ℕ → Tables → List SearchHit
  unfolding is_truthy_double select
  search_rows q none n t = take n (fts.matches q t)
  search_rows q (some cursor) n t =
      if is_truthy_double cursor
      then take n (select (λ h. fts.rank_gt h.rank cursor) (fts.matches q t))
      else take n (fts.matches q t)

  -- search(queryStr, limit, cursor), of a query that is not empty
  unfoldable pub search_matches : Env → Text → ℕ → Option Double → Action SearchPage
  unfolding query search_rows search_page
  search_matches env q limit cursor = do
    rows ← query env (search_rows q cursor (search_limit limit + 1))
    pure (search_page (search_limit limit) rows)

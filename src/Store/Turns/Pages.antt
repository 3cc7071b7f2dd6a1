-- ===== src/Store/Turns/Pages.antt =====
-- store.worker.ts, listConvos: its pages in the order of updatedAt, and what the next cursor reaches.
use caladon.Store.Tables.{Tables}
use caladon.Store.Rows.{StoredConversation}
use caladon.Store.Action.Laws.{Quiet}
use caladon.Store.Action.{Env, World, ok}
use caladon.Store.Turns.{
  ConvoPage, by_updated_desc, convo_limit, convo_page, convo_rows, list_convos,
}
use caladon.Prelude.{
  All, All-take, Bool, Bool-cases, List, Option, [], arith, inl, inr, length, length-take, ltb,
  ltb→lt, none, some, suc, take, true, zero, max, min, leb, ℕ, ◌+◌, ◌<◌, ◌∷◌, ◌≡◌, ◌≤◌,
}
use caladon.Table.{select, order_by}
use caladon.Table.Laws.{All-select}
use caladon.Table.Order.{IsSorted, All-order_by, order_by-IsSorted}

module _ {ℓ} {A : Type ℓ} where
  pub take-IsSorted :
      (le : A → A → Bool) (n : ℕ) (xs : List A) → IsSorted le xs → IsSorted le (take n xs)
  take-IsSorted le zero xs h = tt
  take-IsSorted le (suc n) [] h = tt
  take-IsSorted le (suc n) (x ∷ xs) h =
      (All-take (λ y. le x y ≡ true) n xs h.0, take-IsSorted le n xs h.1)

pub desc-IsSorted :
    (xs : List StoredConversation) → IsSorted by_updated_desc (order_by by_updated_desc xs)
desc-IsSorted =
    order_by-IsSorted by_updated_desc (λ x y h. ground arith) (λ x y z h k. ground arith)

-- The rows of the statement, before the page is cut to the limit.
convo_rows-IsSorted :
    (cursor : Option ℕ) (n : ℕ) (t : Tables) → IsSorted by_updated_desc (convo_rows cursor n t)
unfolding convo_rows
convo_rows-IsSorted none n t = take-IsSorted by_updated_desc n _ (desc-IsSorted t.conversations)
convo_rows-IsSorted (some zero) n t =
    take-IsSorted by_updated_desc n _ (desc-IsSorted t.conversations)
convo_rows-IsSorted (some (suc k)) n t =
    take-IsSorted by_updated_desc n _
      (desc-IsSorted (select (λ c. ltb c.updated_at (suc k)) t.conversations))

-- Which conversations a cursor admits.
abbrev pub Before : Option ℕ → StoredConversation → Type 0
Before none c = Unit
Before (some zero) c = Unit
Before (some (suc k)) c = c.updated_at < suc k

all_true : {A : Type 0} (xs : List A) → All (λ x. Unit {0}) xs
all_true [] = tt
all_true (x ∷ xs) = (tt, all_true xs)

convo_rows-Before :
    (cursor : Option ℕ) (n : ℕ) (t : Tables) → All (Before cursor) (convo_rows cursor n t)
unfolding convo_rows
convo_rows-Before none n t = all_true _
convo_rows-Before (some zero) n t = all_true _
convo_rows-Before (some (suc k)) n t = All-take (Before (some (suc k))) n _ (
    All-order_by by_updated_desc (Before (some (suc k))) _ (
      All-select (Before (some (suc k))) (λ c. ltb c.updated_at (suc k))
        (λ c h. ltb→lt c.updated_at (suc k) h) t.conversations))

pub list_convos_lem :
    (env : Env) (limit : ℕ) (cursor : Option ℕ) (w : World)
    → Quiet env
    → (list_convos env limit cursor w).0
      ≡ ok (convo_page (convo_limit limit) (convo_rows cursor (convo_limit limit + 1) w.tables))
unfolding list_convos
list_convos_lem env limit cursor w quiet = simp quiet

-- A page has at most max(1, min(limit, 200)) rows, newest first, all of them older than the cursor.
pub record IsPage (limit : ℕ) (cursor : Option ℕ) (p : ConvoPage) : Type 0 where
  pub bounded : length p.conversations ≤ max 1 (min limit 200)
  pub sorted : IsSorted (λ a b. leb b.updated_at a.updated_at) p.conversations
  pub before : All (Before cursor) p.conversations

convo_page-IsPage :
    (limit : ℕ) (cursor : Option ℕ) (rows : List StoredConversation)
    → IsSorted by_updated_desc rows
    → All (Before cursor) rows
    → IsPage limit cursor (convo_page (convo_limit limit) rows)
unfolding convo_page
convo_page-IsPage limit cursor rows s b =
    elim (Bool-cases (ltb (convo_limit limit) (length rows))) [
      | inl more ↦ rw more (record {
        bounded = omega (arith, length-take (convo_limit limit) rows);
        sorted = take-IsSorted by_updated_desc (convo_limit limit) rows s;
        before = All-take (Before cursor) (convo_limit limit) rows b;
      })
      | inr last ↦ rw last (record { bounded = ground arith; sorted = s; before = b })
    ]

-- When no statement fails listConvos returns a page: at most max(1, min(limit, 200)) conversations,
-- sorted by updatedAt from the newest, and strictly older than a cursor other than 0.
pub list_convos-IsPage :
    (env : Env) (limit : ℕ) (cursor : Option ℕ) (w : World)
    → Quiet env
    → (p : ConvoPage) × ((list_convos env limit cursor w).0 ≡ ok p) × IsPage limit cursor p
list_convos-IsPage env limit cursor w quiet = (
  convo_page (convo_limit limit) (convo_rows cursor (convo_limit limit + 1) w.tables),
  list_convos_lem env limit cursor w quiet,
  convo_page-IsPage limit cursor _ (convo_rows-IsSorted cursor (convo_limit limit + 1) w.tables)
      (convo_rows-Before cursor (convo_limit limit + 1) w.tables),
)

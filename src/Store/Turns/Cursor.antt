-- ===== src/Store/Turns/Cursor.antt =====
-- store.worker.ts, listConvos: following nextCursor from page to page.
use caladon.Store.Tables.{Tables}
use caladon.Store.Action.Laws.{Quiet}
use caladon.Store.Action.{Env, World, ok}
use caladon.Table.Laws.{All-select_of}
use caladon.Store.Turns.{
  ConvoPage, convo_limit, by_updated_desc, last_updated, convo_page, convo_rows, list_convos,
}
use caladon.Store.Rows.{StoredConversation}
use caladon.Prelude.{
  All, Bool, Bool-cases, List, [], arith, drop, if◌then◌else◌, inl, inr, ltb, lt→ltb, ltb→lt, refl,
  some, subst, suc, take, zero, ℕ, ◌<◌, ◌∷◌, ◌≡◌, All-imp, All-take, none, true, false, Option, sym,
  ap, ◌∙◌, ◌+◌, ◌≤◌, length, length-take, max, min, leb,
}
use caladon.Table.{select, insert_row, order_by}
use caladon.Table.Order.{IsSorted}
use caladon.Store.Turns.Pages.{desc-IsSorted, list_convos_lem}

inj : {a b : ℕ} → some a ≡ some b → a ≡ b
inj h = cc

-- A row that stands before all others is put first.
insert_front :
    (x : StoredConversation) (zs : List StoredConversation)
    → All (λ z. by_updated_desc x z ≡ true) zs
    → insert_row by_updated_desc x zs ≡ x ∷ zs
unfolding insert_row
insert_front x [] h = refl
insert_front x (z ∷ zs) h = ground (arith, h.0)

-- A selection of sorted rows may be made before or after a row is put in its place.
select-insert_row :
    (p : StoredConversation → Bool) (x : StoredConversation) (ys : List StoredConversation)
    → IsSorted by_updated_desc ys
    → select p (insert_row by_updated_desc x ys)
      ≡ (if p x then insert_row by_updated_desc x (select p ys) else select p ys)
unfolding select insert_row
select-insert_row p x [] h = ground arith
select-insert_row p x (y ∷ ys) h = elim (Bool-cases (by_updated_desc x y)) [
  | inl before ↦
      let rest : All (λ z. by_updated_desc x z ≡ true) (select p (y ∷ ys)) =
        All-select_of (λ z. by_updated_desc x z ≡ true) p (y ∷ ys)
          (
            before,
            All-imp (λ z. by_updated_desc y z ≡ true) (λ z. by_updated_desc x z ≡ true)
                (λ z k. ground arith) ys h.0,
          ) in
      rw before (ground (arith, insert_front x (select p (y ∷ ys)) rest))
  | inr after ↦ rw after (ground (arith, select-insert_row p x ys h.1))
]

select-order_by :
    (p : StoredConversation → Bool) (xs : List StoredConversation)
    → order_by by_updated_desc (select p xs) ≡ select p (order_by by_updated_desc xs)
unfolding select order_by
select-order_by p [] = refl
select-order_by p (x ∷ xs) =
    rw (select-insert_row p x (order_by by_updated_desc xs) (desc-IsSorted xs))
      (ground (arith, select-order_by p xs))

-- No two rows have the same updatedAt, in rows sorted from the newest.
abbrev pub IsStrict : List StoredConversation → Type 0
IsStrict [] = Unit
IsStrict (x ∷ xs) = All (λ y. y.updated_at < x.updated_at) xs × IsStrict xs

last-All :
    (P : ℕ → Type 0) (xs : List StoredConversation) (k : ℕ)
    → All (λ c. P c.updated_at) xs
    → last_updated xs ≡ some k
    → P k
unfolding last_updated
last-All P [] k h e = cc
last-All P (c ∷ []) k h e = subst P (inj e) h.0
last-All P (c ∷ d ∷ cs) k h e = last-All P (d ∷ cs) k h.1 e

select_all :
    (k : ℕ) (xs : List StoredConversation)
    → All (λ c. c.updated_at < k) xs
    → select (λ c. ltb c.updated_at k) xs ≡ xs
unfolding select
select_all k [] h = refl
select_all k (x ∷ xs) h = rw (lt→ltb x.updated_at k h.0, select_all k xs h.1)

-- The rows older than the last row of a page are the rows after the page.
select-drop :
    (n : ℕ) (xs : List StoredConversation) (k : ℕ)
    → IsStrict xs
    → last_updated (take (suc n) xs) ≡ some k
    → select (λ c. ltb c.updated_at k) xs ≡ drop (suc n) xs
unfolding last_updated select
select-drop n [] k h e = cc
select-drop zero (x ∷ xs) k h e = ground (arith, select_all x.updated_at xs h.0, inj e)
select-drop (suc n) (x ∷ []) k h e = ground arith
select-drop (suc n) (x ∷ y ∷ xs) k h e =
    let older =
      last-All (λ u. u < x.updated_at) (y ∷ take n xs) k
        (h.0.0, All-take (λ z. z.updated_at < x.updated_at) n xs h.0.1) e in
    ground (arith, older, select-drop n (y ∷ xs) k h.1 e)

convo_rows-next :
    (n m k : ℕ) (t : Tables)
    → IsStrict (order_by by_updated_desc t.conversations)
    → last_updated (take (suc n) (order_by by_updated_desc t.conversations)) ≡ some (suc k)
    → convo_rows (some (suc k)) m t
      ≡ take m (drop (suc n) (order_by by_updated_desc t.conversations))
unfolding convo_rows
convo_rows-next n m k t strict last = rw (
  select-order_by (λ c. ltb c.updated_at (suc k)) t.conversations,
  select-drop n (order_by by_updated_desc t.conversations) (suc k) strict last,
)

-- the extra row of the statement is not shown
take-suc-take : (n : ℕ) (xs : List StoredConversation) → take n (take (suc n) xs) ≡ take n xs
take-suc-take zero xs = refl
take-suc-take (suc n) [] = refl
take-suc-take (suc n) (x ∷ xs) = ap (◌∷◌ x) (take-suc-take n xs)

take_short :
    (n : ℕ) (xs : List StoredConversation)
    → ltb n (length (take (suc n) xs)) ≡ false
    → take (suc n) xs ≡ take n xs
take_short zero [] h = refl
take_short zero (x ∷ xs) h = absurd (ground (arith, h))
take_short (suc n) [] h = refl
take_short (suc n) (x ∷ xs) h = ap (◌∷◌ x) (take_short n xs (ground (arith, h)))

page_rows :
    (n : ℕ) (xs : List StoredConversation)
    → (convo_page n (take (suc n) xs)).conversations ≡ take n xs
unfolding convo_page
page_rows n xs = elim (Bool-cases (ltb n (length (take (suc n) xs)))) [
  | inl more ↦ rw more (take-suc-take n xs)
  | inr last ↦ rw last (take_short n xs last)
]

-- a page with a cursor is full, and the cursor is the updatedAt of its last row
page_cursor :
    (n k : ℕ) (xs : List StoredConversation)
    → (convo_page n (take (suc n) xs)).next_cursor ≡ some k
    → (last_updated (take n xs) ≡ some k) × (length (take n xs) ≡ n)
unfolding convo_page
page_cursor n k xs h = elim (Bool-cases (ltb n (length (take (suc n) xs)))) [
  | inl more ↦ (
    ap last_updated (sym (take-suc-take n xs)) ∙ (rw more at h),
    omega
        (arith, ltb→lt n (length (take (suc n) xs)) more, length-take n xs, length-take (suc n) xs),
  )
  | inr last ↦ absurd (ground (arith, (rw last at h)))
]

ok_injective : {p q : ConvoPage} → ok p ≡ ok q → p ≡ q
ok_injective h = cc

-- What a page of listConvos and the one after its cursor show, of the conversations `cs` sorted by
-- updatedAt from the newest: the first rows, and the rows that come next, as many as are asked for.
pub record IsContinued (limit more : ℕ) (cs : List StoredConversation) (p q : ConvoPage)
    : Type 0 where
  pub first :
      p.conversations
      ≡ take (max 1 (min limit 200)) (order_by (λ a b. leb b.updated_at a.updated_at) cs)
  pub next :
      q.conversations
      ≡ take
          (max 1 (min more 200))
          (drop (length p.conversations) (order_by (λ a b. leb b.updated_at a.updated_at) cs))

module _ (env : Env) (quiet : Quiet env) where
  listed :
      (limit : ℕ) (cursor : Option ℕ) (w : World) (p : ConvoPage)
      → (list_convos env limit cursor w).0 ≡ ok p
      → convo_page (convo_limit limit) (convo_rows cursor (suc (convo_limit limit)) w.tables) ≡ p
  listed limit cursor w p h =
      let one_more : suc (convo_limit limit) ≡ convo_limit limit + 1 = omega arith in
      ap (λ n. convo_page (convo_limit limit) (convo_rows cursor n w.tables)) one_more
      ∙ ok_injective (sym (list_convos_lem env limit cursor w quiet) ∙ h)

  -- the rows after a full page
  rows_after :
      (l m k : ℕ) (t : Tables)
      → IsStrict (order_by by_updated_desc t.conversations)
      → 1 ≤ l
      → last_updated (take l (order_by by_updated_desc t.conversations)) ≡ some (suc k)
      → convo_rows (some (suc k)) m t ≡ take m (drop l (order_by by_updated_desc t.conversations))
  rows_after zero m k t strict pos last = absurd (omega (arith, pos))
  rows_after (suc n) m k t strict pos last = convo_rows-next n m k t strict last

-- Following nextCursor misses and repeats nothing: where no two conversations have the same updatedAt
-- and no statement fails, a first page of listConvos that has a cursor, other than 0, shows the
-- newest conversations, and the page after its cursor, read while the tables are the same, shows those
-- that come next, in order.
pub list_convos-next :
    (env : Env) (limit more k : ℕ) (w v : World) (p q : ConvoPage)
    → Quiet env
    → v.tables ≡ w.tables
    → IsStrict (order_by (λ a b. leb b.updated_at a.updated_at) w.tables.conversations)
    → (list_convos env limit none w).0 ≡ ok p
    → p.next_cursor ≡ some (suc k)
    → (list_convos env more (some (suc k)) v).0 ≡ ok q
    → IsContinued limit more w.tables.conversations p q
unfolding convo_rows
list_convos-next env limit more k w v p q quiet same strict one cursor two =
    let l = convo_limit limit in
    let m = convo_limit more in
    let sorted = order_by by_updated_desc w.tables.conversations in
    let shown : convo_page l (take (suc l) sorted) ≡ p = listed env quiet limit none w p one in
    let first : p.conversations ≡ take l sorted =
      ap (λ (x : ConvoPage). x.conversations) (sym shown) ∙ page_rows l sorted in
    let (last, full) =
      page_cursor l (suc k) sorted (ap (λ (x : ConvoPage). x.next_cursor) shown ∙ cursor) in
    let rows : convo_rows (some (suc k)) (suc m) v.tables ≡ take (suc m) (drop l sorted) =
      ap (convo_rows (some (suc k)) (suc m)) same
      ∙ rows_after env quiet l (suc m) k w.tables strict (omega arith) last in
    record {
      first = first;
      next =
          ap (λ (x : ConvoPage). x.conversations)
            (sym (listed env quiet more (some (suc k)) v q two))
          ∙ (ap (λ xs. (convo_page m xs).conversations) rows
              ∙ (page_rows m (drop l sorted)
                  ∙ ap (λ n. take m (drop n sorted)) (sym (ap length first ∙ full))));
    }

-- Two conversations with the same updatedAt, other than 0, and pages of one row: the first page shows
-- the first of them with its updatedAt as the cursor, and the page after that cursor is the last one
-- and empty, so the second conversation is on no page.
pub list_convos_skips_tie :
    (env : Env) (c d : StoredConversation) (k : ℕ) (w : World)
    → Quiet env
    → w.tables.conversations ≡ c ∷ d ∷ []
    → c.updated_at ≡ suc k
    → d.updated_at ≡ suc k
    → ((list_convos env 1 none w).0
        ≡ ok (record { conversations = c ∷ []; next_cursor = some (suc k) }))
      × ((list_convos env 1 (some (suc k)) w).0
          ≡ ok (record { conversations = []; next_cursor = none }))
unfolding convo_rows convo_page last_updated order_by insert_row select
list_convos_skips_tie env c d k w quiet two hc hd = (
  rw (list_convos_lem env 1 none w quiet, two) (ground arith),
  rw (list_convos_lem env 1 (some (suc k)) w quiet, two) (ground arith),
)

-- ===== src/Table.antt =====
-- One SQL table: its rows in rowid order. A new row is given the highest rowid, and an update keeps
-- its row's rowid, so the list grows at its end and an update is made in place.
-- These are the statements of store.worker.ts, over a table whose primary key is a text:
-- SELECT by key, SELECT with a WHERE, INSERT with ON CONFLICT DO UPDATE, DELETE, ORDER BY.
pub mod Laws
pub mod Order
use caladon.Prelude.{
  ◌≡◌, String, ◌==◌, Bool, false, ◌||◌, Option, none, some, List, [], ◌∷◌, if◌then◌else◌,
}

module _ {ℓ} {A : Type ℓ} where
  -- SELECT * FROM t WHERE p
  unfoldable pub select : (A → Bool) → List A → List A
  select p [] = []
  select p (x ∷ xs) = let rest = select p xs in if p x then x ∷ rest else rest

  -- DELETE FROM t WHERE p
  unfoldable pub delete_where : (A → Bool) → List A → List A
  delete_where p [] = []
  delete_where p (x ∷ xs) = let rest = delete_where p xs in if p x then rest else x ∷ rest

  -- rows[0] of a query, or null
  unfoldable pub first : List A → Option A
  first [] = none
  first (x ∷ xs) = some x

  -- ORDER BY, as a stable insertion sort; `le` is the order of the clause.
  unfoldable pub insert_row : (A → A → Bool) → A → List A → List A
  insert_row le x [] = x ∷ []
  insert_row le x (y ∷ ys) =
      let rest = insert_row le x ys in if le x y then x ∷ y ∷ ys else y ∷ rest

  unfoldable pub order_by : (A → A → Bool) → List A → List A
  unfolding insert_row
  order_by le [] = []
  order_by le (x ∷ xs) = insert_row le x (order_by le xs)

module _ {ℓ} {A : Type ℓ} (key : A → String) where
  -- the first row with the key
  unfoldable pub find : String → List A → Option A
  find k [] = none
  find k (x ∷ xs) = let rest = find k xs in if key x == k then some x else rest

  unfoldable pub has : String → List A → Bool
  has k [] = false
  has k (x ∷ xs) = key x == k || has k xs

  -- INSERT … ON CONFLICT(key) DO UPDATE SET …; `merge old new` is the updated row.
  unfoldable pub upsert : (A → A → A) → A → List A → List A
  upsert merge r [] = r ∷ []
  upsert merge r (x ∷ xs) =
      let rest = upsert merge r xs in if key x == key r then merge x r ∷ xs else x ∷ rest

  -- DELETE FROM t WHERE key = ?
  unfoldable pub delete : String → List A → List A
  unfolding delete_where
  delete k xs = delete_where (λ x. key x == k) xs

  -- the primary key
  abbrev pub IsKeyed : List A → Type 0
  IsKeyed [] = Unit
  IsKeyed (x ∷ xs) = (has (key x) xs ≡ false) × IsKeyed xs

-- ===== src/Table/Laws.antt =====
-- What the statements of a table do to a lookup, to the primary key and to a predicate on rows.
use caladon.Prelude.{
  String, ◌==◌, eq_iff, ◌≡◌, refl, Bool, true, false, Option, none, some, List, [], ◌∷◌, ◌++◌, All,
  arith, inl, inr, Bool-cases, if◌then◌else◌,
}
use caladon.Table.{select, delete_where, find, has, upsert, delete, IsKeyed}

module _ {ℓ} {A : Type ℓ} (key : A → String) where
  -- the row that an upsert leaves under its key
  unfoldable pub merged : (A → A → A) → A → Option A → A
  merged merge r none = r
  merged merge r (some x) = merge x r

  pub find-upsert :
      (merge : A → A → A)
      → ((x r : A) → key (merge x r) ≡ key r)
      → (k : String) (r : A) (xs : List A)
      → find key k (upsert key merge r xs)
        ≡ (if key r == k then some (merged merge r (find key k xs)) else find key k xs)
  unfolding find upsert merged
  find-upsert merge keep k r [] = ground arith
  find-upsert merge keep k r (x ∷ xs) = ground (
    arith,
    keep x r,
    eq_iff (key x) (key r),
    eq_iff (key x) k,
    eq_iff (key r) k,
    eq_iff (key (merge x r)) k,
    find-upsert merge keep k r xs,
  )

  pub find-delete :
      (k j : String) (xs : List A)
      → find key k (delete key j xs) ≡ (if j == k then none else find key k xs)
  unfolding find delete
  find-delete k j [] = ground arith
  find-delete k j (x ∷ xs) =
      ground (arith, eq_iff (key x) j, eq_iff (key x) k, eq_iff j k, find-delete k j xs)

  pub has-upsert :
      (merge : A → A → A)
      → ((x r : A) → key (merge x r) ≡ key r)
      → (k : String) (r : A) (xs : List A)
      → has key k (upsert key merge r xs) ≡ (if key r == k then true else has key k xs)
  unfolding has upsert
  has-upsert merge keep k r [] = ground arith
  has-upsert merge keep k r (x ∷ xs) = ground (
    arith,
    keep x r,
    eq_iff (key x) (key r),
    eq_iff (key x) k,
    eq_iff (key r) k,
    eq_iff (key (merge x r)) k,
    has-upsert merge keep k r xs,
  )

  pub has-delete_where :
      (p : A → Bool) (k : String) (xs : List A)
      → has key k xs ≡ false
      → has key k (delete_where p xs) ≡ false
  unfolding has delete_where
  has-delete_where p k [] h = refl
  has-delete_where p k (x ∷ xs) h = ground (arith, has-delete_where p k xs)

  pub has-delete :
      (k j : String) (xs : List A)
      → has key k (delete key j xs) ≡ (if j == k then false else has key k xs)
  unfolding has delete
  has-delete k j [] = ground arith
  has-delete k j (x ∷ xs) =
      ground (arith, eq_iff (key x) j, eq_iff (key x) k, eq_iff j k, has-delete k j xs)

  pub has-append : (k : String) (xs ys : List A) → has key k xs ≡ true → has key k (xs ++ ys) ≡ true
  unfolding has
  has-append k [] ys h = cc
  has-append k (x ∷ xs) ys h = ground (arith, has-append k xs ys)

  -- an upsert of a new key appends the row
  pub upsert_absent :
      (merge : A → A → A) (r : A) (xs : List A)
      → has key (key r) xs ≡ false
      → upsert key merge r xs ≡ xs ++ r ∷ []
  unfolding has upsert
  upsert_absent merge r [] h = refl
  upsert_absent merge r (x ∷ xs) h = ground (arith, upsert_absent merge r xs)

  pub find_absent : (k : String) (xs : List A) → has key k xs ≡ false → find key k xs ≡ none
  unfolding has find
  find_absent k [] h = refl
  find_absent k (x ∷ xs) h = ground (arith, find_absent k xs)

  -- a row that is found has the key
  pub key-find : (k : String) (xs : List A) (x : A) → find key k xs ≡ some x → key x ≡ k
  unfolding find
  key-find k [] x h = cc
  key-find k (y ∷ ys) x h = ground (arith, eq_iff (key y) k, key-find k ys x)

  pub upsert-IsKeyed :
      (merge : A → A → A)
      → ((x r : A) → key (merge x r) ≡ key r)
      → (r : A) (xs : List A) → IsKeyed key xs
      → IsKeyed key (upsert key merge r xs)
  unfolding has upsert
  upsert-IsKeyed merge keep r [] h = (refl, tt)
  upsert-IsKeyed merge keep r (x ∷ xs) h = elim (Bool-cases (key x == key r)) [
    | inl same ↦ rw same (ground (arith, keep x r, eq_iff (key x) (key r)), h.1)
    | inr other ↦ rw other (
      ground (
        arith,
        has-upsert merge keep (key x) r xs,
        eq_iff (key r) (key x),
        eq_iff (key x) (key r),
      ),
      upsert-IsKeyed merge keep r xs h.1,
    )
  ]

  pub delete_where-IsKeyed :
      (p : A → Bool) (xs : List A) → IsKeyed key xs → IsKeyed key (delete_where p xs)
  unfolding delete_where
  delete_where-IsKeyed p [] h = tt
  delete_where-IsKeyed p (x ∷ xs) h = elim (Bool-cases (p x)) [
    | inl gone ↦ rw gone (delete_where-IsKeyed p xs h.1)
    | inr kept ↦ rw kept (has-delete_where p (key x) xs h.0, delete_where-IsKeyed p xs h.1)
  ]

module _ {ℓ} {A : Type ℓ} (p : A → Bool) where
  pub select-append : (xs ys : List A) → select p (xs ++ ys) ≡ select p xs ++ select p ys
  unfolding select
  select-append [] ys = refl
  select-append (x ∷ xs) ys = ground (arith, select-append xs ys)

  pub select_none : (xs : List A) → All (λ x. p x ≡ false) xs → select p xs ≡ []
  unfolding select
  select_none [] h = refl
  select_none (x ∷ xs) h = rw (h.0, select_none xs h.1)

  pub delete_where_none : (xs : List A) → All (λ x. p x ≡ false) xs → delete_where p xs ≡ xs
  unfolding delete_where
  delete_where_none [] h = refl
  delete_where_none (x ∷ xs) h = rw (h.0, delete_where_none xs h.1)

  -- after a deletion nothing is selected by its condition
  pub select-delete_where : (xs : List A) → select p (delete_where p xs) ≡ []
  unfolding select delete_where
  select-delete_where [] = refl
  select-delete_where (x ∷ xs) = ground (arith, select-delete_where xs)

module _ {ℓ κ} {A : Type ℓ} (P : A → Type κ) where
  pub All-upsert :
      (key : A → String) (merge : A → A → A)
      → ((x r : A) → P x → P r → P (merge x r))
      → (r : A) (xs : List A) → P r
      → All P xs
      → All P (upsert key merge r xs)
  unfolding upsert
  All-upsert key merge keep r [] p h = (p, tt)
  All-upsert key merge keep r (x ∷ xs) p h = elim (Bool-cases (key x == key r)) [
    | inl same ↦ rw same (keep x r h.0 p, h.1)
    | inr other ↦ rw other (h.0, All-upsert key merge keep r xs p h.1)
  ]

  -- a deletion leaves the rows that the condition does not hold of
  pub All-delete_where :
      (p : A → Bool) {Q : A → Type κ}
      → ((x : A) → P x → p x ≡ false → Q x)
      → (xs : List A) → All P xs
      → All Q (delete_where p xs)
  unfolding delete_where
  All-delete_where p keep [] h = tt
  All-delete_where p keep (x ∷ xs) h = elim (Bool-cases (p x)) [
    | inl gone ↦ rw gone (All-delete_where p keep xs h.1)
    | inr kept ↦ rw kept (keep x h.0 kept, All-delete_where p keep xs h.1)
  ]

  -- a selection holds of its rows
  pub All-select :
      (p : A → Bool) → ((x : A) → p x ≡ true → P x) → (xs : List A) → All P (select p xs)
  unfolding select
  All-select p holds [] = tt
  All-select p holds (x ∷ xs) = elim (Bool-cases (p x)) [
    | inl here ↦ rw here (holds x here, All-select p holds xs)
    | inr not_here ↦ rw not_here (All-select p holds xs)
  ]

  pub All-select_of : (p : A → Bool) (xs : List A) → All P xs → All P (select p xs)
  unfolding select
  All-select_of p [] h = tt
  All-select_of p (x ∷ xs) h = elim (Bool-cases (p x)) [
    | inl here ↦ rw here (h.0, All-select_of p xs h.1)
    | inr not_here ↦ rw not_here (All-select_of p xs h.1)
  ]

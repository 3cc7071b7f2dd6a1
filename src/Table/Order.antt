-- ===== src/Table/Order.antt =====
-- ORDER BY: the result is in the order of the clause and has the same rows, each as often.
use mathlib.Core.List.Perm
use mathlib.Core.List.{Perm}
use caladon.Prelude.{◌≡◌, Bool, true, false, List, [], ◌∷◌, All, All-imp, Bool-cases, inl, inr}
use caladon.Table.{insert_row, order_by}

module _ {ℓ} {A : Type ℓ} (le : A → A → Bool) where
  -- every row stands before the later ones in the order
  abbrev pub IsSorted : List A → Type ℓ
  IsSorted [] = Unit
  IsSorted (x ∷ xs) = All (λ y. le x y ≡ true) xs × IsSorted xs

module _ {ℓ κ} {A : Type ℓ} (le : A → A → Bool) (P : A → Type κ) where
  pub All-insert_row : (x : A) (ys : List A) → P x → All P ys → All P (insert_row le x ys)
  unfolding insert_row
  All-insert_row x [] p h = (p, tt)
  All-insert_row x (y ∷ ys) p h = elim (Bool-cases (le x y)) [
    | inl before ↦ rw before (p, h)
    | inr after ↦ rw after (h.0, All-insert_row x ys p h.1)
  ]

  pub All-order_by : (xs : List A) → All P xs → All P (order_by le xs)
  unfolding order_by
  All-order_by [] h = tt
  All-order_by (x ∷ xs) h = All-insert_row x (order_by le xs) h.0 (All-order_by xs h.1)

module _ {ℓ} {A : Type ℓ} (le : A → A → Bool) where
  insert_row-perm : (x : A) (ys : List A) → Perm (insert_row le x ys) (x ∷ ys)
  unfolding insert_row
  insert_row-perm x [] = Perm.refl (x ∷ [])
  insert_row-perm x (y ∷ ys) = elim (Bool-cases (le x y)) [
    | inl before ↦ rw before (Perm.refl (x ∷ y ∷ ys))
    | inr after ↦ rw after (Perm.trans (Perm.cons y (insert_row-perm x ys)) (Perm.swap x y ys))
  ]

  pub order_by-perm : (xs : List A) → Perm (order_by le xs) xs
  unfolding order_by
  order_by-perm [] = Perm.refl []
  order_by-perm (x ∷ xs) =
      Perm.trans (insert_row-perm x (order_by le xs)) (Perm.cons x (order_by-perm xs))

  module _ (total : (x y : A) → le x y ≡ false → le y x ≡ true)
      (le_trans : (x y z : A) → le x y ≡ true → le y z ≡ true → le x z ≡ true) where
    insert_row-IsSorted : (x : A) (ys : List A) → IsSorted le ys → IsSorted le (insert_row le x ys)
    unfolding insert_row
    insert_row-IsSorted x [] h = (tt, tt)
    insert_row-IsSorted x (y ∷ ys) h = elim (Bool-cases (le x y)) [
      | inl before ↦ rw before (
        (
          before,
          All-imp (λ z. le y z ≡ true) (λ z. le x z ≡ true) (λ z. le_trans x y z before) ys h.0,
        ),
        h,
      )
      | inr after ↦ rw after (
        All-insert_row le (λ z. le y z ≡ true) x ys (total x y after) h.0,
        insert_row-IsSorted x ys h.1,
      )
    ]

    pub order_by-IsSorted : (xs : List A) → IsSorted le (order_by le xs)
    unfolding order_by
    order_by-IsSorted [] = tt
    order_by-IsSorted (x ∷ xs) = insert_row-IsSorted x (order_by le xs) (order_by-IsSorted xs)

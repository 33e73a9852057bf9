-- ===== src/Base/Table.antt =====
-- A database table as the list of its rows in rowid order, and the statements that the program
-- runs on it: SELECT COUNT, SELECT SUM, SELECT ... LIMIT 1, UPDATE, DELETE.
use Prim.Native.Nat.{ℕ, ◌+◌, ◌≤◌}
use mathlib.Core.Path.{◌≡◌, refl}
use mathlib.Core.Bool.{Bool, false, ◌||◌}
use mathlib.Core.Option.{Option, none, some}
use mathlib.Core.List.{List, [], ◌∷◌, ◌++◌}
use native.Mathlib.Omega.{arith}
use eveai.Base.Tests.{if◌then◌else◌}

module _ {ℓ} {A : Type ℓ} where
  unfoldable pub count_where : (A → Bool) → List A → ℕ
  count_where p [] = 0
  count_where p (x ∷ xs) = (if p x then 1 else 0) + count_where p xs

  unfoldable pub sum_of : (A → ℕ) → List A → ℕ
  sum_of w [] = 0
  sum_of w (x ∷ xs) = w x + sum_of w xs

  unfoldable pub find_where : (A → Bool) → List A → Option A
  find_where p [] = none
  find_where p (x ∷ xs) = if p x then some x else find_where p xs

  unfoldable pub select_where : (A → Bool) → List A → List A
  select_where p [] = []
  select_where p (x ∷ xs) = let rest = select_where p xs in if p x then x ∷ rest else rest

  unfoldable pub delete_where : (A → Bool) → List A → List A
  delete_where p [] = []
  delete_where p (x ∷ xs) = let rest = delete_where p xs in if p x then rest else x ∷ rest

  unfoldable pub update_where : (A → Bool) → (A → A) → List A → List A
  update_where p f [] = []
  update_where p f (x ∷ xs) = (if p x then f x else x) ∷ update_where p f xs

  -- `Map.set` on a map in the order of insertion: in place, or at the end.
  unfoldable pub put_by : (A → Bool) → A → List A → List A
  put_by p a [] = a ∷ []
  put_by p a (x ∷ xs) = let rest = put_by p a xs in if p x then a ∷ xs else x ∷ rest

  -- Does a row match?
  unfoldable pub exists_where : (A → Bool) → List A → Bool
  exists_where p [] = false
  exists_where p (x ∷ xs) = p x || exists_where p xs

module _ {ℓ} {A : Type ℓ} where
  pub sum_of-append : (w : A → ℕ) (xs ys : List A) → sum_of w (xs ++ ys) ≡ sum_of w xs + sum_of w ys
  unfolding sum_of
  sum_of-append w [] ys = omega arith
  sum_of-append w (x ∷ xs) ys = omega (arith, sum_of-append w xs ys)

  pub sum_of_mono :
      (v w : A → ℕ) → ((a : A) → v a ≤ w a) → (xs : List A) → sum_of v xs ≤ sum_of w xs
  unfolding sum_of
  sum_of_mono v w h [] = omega arith
  sum_of_mono v w h (x ∷ xs) = omega (arith, h x, sum_of_mono v w h xs)

  pub sum_of-delete_where :
      (w : A → ℕ) (p : A → Bool) (xs : List A) → sum_of w (delete_where p xs) ≤ sum_of w xs
  unfolding sum_of delete_where
  sum_of-delete_where w p [] = omega arith
  sum_of-delete_where w p (x ∷ xs) = ground (arith, sum_of-delete_where w p xs)

  pub count_where-append :
      (p : A → Bool) (xs ys : List A)
      → count_where p (xs ++ ys) ≡ count_where p xs + count_where p ys
  unfolding count_where
  count_where-append p [] ys = omega arith
  count_where-append p (x ∷ xs) ys = omega (arith, count_where-append p xs ys)

  pub count_where-delete_where :
      (p q : A → Bool) (xs : List A) → count_where p (delete_where q xs) ≤ count_where p xs
  unfolding count_where delete_where
  count_where-delete_where p q [] = omega arith
  count_where-delete_where p q (x ∷ xs) = ground (arith, count_where-delete_where p q xs)

  pub count_where-exists_where :
      (p : A → Bool) (xs : List A) → exists_where p xs ≡ false → count_where p xs ≡ 0
  unfolding count_where exists_where
  count_where-exists_where p [] h = refl
  count_where-exists_where p (x ∷ xs) h = ground (arith, count_where-exists_where p xs)

-- ===== src/Base/Maps.antt =====
-- A `Map` with numbers for keys, as the list of its entries in the order of insertion.
use Prim.Native.Nat.{ℕ}
use mathlib.Core.Path.{◌≡◌, refl}
use mathlib.Core.Logic.{inl, inr}
use mathlib.Core.Bool.{Bool, true, false, ◌||◌}
use mathlib.Core.Option.{Option, none, some}
use mathlib.Core.List.{List, [], ◌∷◌}
use native.Mathlib.Omega.{arith}
use eveai.Base.Tests.{if◌then◌else◌, ◌==◌, ==_iff, Bool-cases}

module _ {ℓ} {V : Type ℓ} where
  -- `Map.get`
  unfoldable pub get : ℕ → List (ℕ × V) → Option V
  get k [] = none
  get k ((j, v) ∷ m) = if j == k then some v else get k m

  -- `Map.has`
  unfoldable pub has : ℕ → List (ℕ × V) → Bool
  has k [] = false
  has k ((j, v) ∷ m) = j == k || has k m

  -- `Map.set`: in place, or at the end.
  unfoldable pub put : ℕ → V → List (ℕ × V) → List (ℕ × V)
  put k v [] = (k, v) ∷ []
  put k v ((j, w) ∷ m) = let rest = put k v m in if j == k then (k, v) ∷ m else (j, w) ∷ rest

  -- `Map.delete`
  unfoldable pub remove : ℕ → List (ℕ × V) → List (ℕ × V)
  remove k [] = []
  remove k ((j, w) ∷ m) = let rest = remove k m in if j == k then rest else (j, w) ∷ rest

  -- Each key once.
  abbrev pub IsKeyed : List (ℕ × V) → Type 0
  IsKeyed [] = Unit
  IsKeyed ((j, v) ∷ m) = (has j m ≡ false) × IsKeyed m

  pub get-put :
      (k j : ℕ) (v : V) (m : List (ℕ × V))
      → get j (put k v m) ≡ (if k == j then some v else get j m)
  unfolding get put
  get-put k j v [] = refl
  get-put k j v ((i, w) ∷ m) = ground (arith, get-put k j v m)

  pub get-remove :
      (k j : ℕ) (m : List (ℕ × V)) → get j (remove k m) ≡ (if k == j then none else get j m)
  unfolding get remove
  get-remove k j [] = ground arith
  get-remove k j ((i, w) ∷ m) = ground (arith, get-remove k j m)

  pub has-put : (k j : ℕ) (v : V) (m : List (ℕ × V)) → has j (put k v m) ≡ (k == j || has j m)
  unfolding has put
  has-put k j v [] = ground arith
  has-put k j v ((i, w) ∷ m) = ground (arith, has-put k j v m)

  pub has-remove_absent :
      (k j : ℕ) (m : List (ℕ × V)) → has j m ≡ false → has j (remove k m) ≡ false
  unfolding has remove
  has-remove_absent k j [] h = refl
  has-remove_absent k j ((i, w) ∷ m) h = ground (arith, has-remove_absent k j m)

  pub put-IsKeyed : (k : ℕ) (v : V) (m : List (ℕ × V)) → IsKeyed m → IsKeyed (put k v m)
  unfolding put has
  put-IsKeyed k v [] h = (refl, tt)
  put-IsKeyed k v ((i, w) ∷ m) h = elim (Bool-cases (i == k)) [
    | inl e ↦ rw e (ground (arith, ==_iff i k), h.1)
    | inr e ↦ rw e (ground (arith, has-put k i v m, ==_iff i k), put-IsKeyed k v m h.1)
  ]

  pub remove-IsKeyed : (k : ℕ) (m : List (ℕ × V)) → IsKeyed m → IsKeyed (remove k m)
  unfolding remove
  remove-IsKeyed k [] h = tt
  remove-IsKeyed k ((i, w) ∷ m) h = elim (Bool-cases (i == k)) [
    | inl e ↦ rw e (remove-IsKeyed k m h.1)
    | inr e ↦ rw e (has-remove_absent k i m h.0, remove-IsKeyed k m h.1)
  ]

  pub has-get-none : (k : ℕ) (m : List (ℕ × V)) → has k m ≡ false → get k m ≡ none
  unfolding has get
  has-get-none k [] h = refl
  has-get-none k ((i, w) ∷ m) h = ground (arith, has-get-none k m)

  pub get-none-has : (k : ℕ) (m : List (ℕ × V)) → get k m ≡ none → has k m ≡ false
  unfolding has get
  get-none-has k [] h = refl
  get-none-has k ((i, w) ∷ m) h = ground (arith, get-none-has k m)

  pub has-get : (k : ℕ) (m : List (ℕ × V)) → has k m ≡ true → (v : V) × (get k m ≡ some v)
  unfolding has get
  has-get k [] h = cc
  has-get k ((i, w) ∷ m) h = elim (Bool-cases (i == k)) [
    | inl e ↦ (w, rw e refl)
    | inr e ↦ let rest = rw e at h in let (v, at) = has-get k m rest in (v, rw e at)
  ]

-- ===== src/Common/Keyed.antt =====
-- Elements that are found and taken out by a number.
use Prim.Native.Nat.{ℕ, suc, ◌+◌}
use mathlib.Core.Path.{◌≡◌}
use mathlib.Core.Bool.{Bool}
use mathlib.Core.Option.{Option, none, some}
use mathlib.Core.List.{List, [], ◌∷◌, ◌++◌}
use native.Mathlib.Omega.{arith}
use ziguijia_translate_ml.Common.Tests.{◌==◌, if◌then◌else◌}
use ziguijia_translate_ml.Common.Lists.{count, length}

module _ {A : Type 0} (key : A → ℕ) where
  unfoldable pub find_by : ℕ → List A → Option A
  find_by k [] = none
  find_by k (a ∷ xs) = if key a == k then some a else find_by k xs

  unfoldable pub without : ℕ → List A → List A
  without k [] = []
  without k (a ∷ xs) = let rest = without k xs in if key a == k then xs else a ∷ rest

  abbrev pub weight : (A → Bool) → A → ℕ
  weight p a = if p a then 1 else 0

  pub key-find_by : (k : ℕ) (xs : List A) (a : A) → find_by k xs ≡ some a → key a ≡ k
  unfolding find_by
  key-find_by k [] a found = absurd (ground arith)
  key-find_by k (b ∷ xs) a found = ground (arith, key-find_by k xs a)

  pub find_by-key :
      (k : ℕ) (xs : List A) (a : A) → find_by k xs ≡ some a → find_by (key a) xs ≡ some a
  find_by-key k xs a found = rw (key-find_by k xs a found) found

  pub count-without :
      (p : A → Bool) (k : ℕ) (xs : List A) (a : A)
      → find_by k xs ≡ some a
      → count p xs ≡ count p (without k xs) + weight p a
  unfolding find_by without
  count-without p k [] a found = absurd (ground arith)
  count-without p k (b ∷ xs) a found = ground (arith, count-without p k xs a)

  pub length-without :
      (k : ℕ) (xs : List A) (a : A)
      → find_by k xs ≡ some a
      → length xs ≡ suc (length (without k xs))
  unfolding find_by without
  length-without k [] a found = absurd (ground arith)
  length-without k (b ∷ xs) a found = ground (arith, length-without k xs a)

pub count-append {ℓ} :
    {A : Type ℓ} (p : A → Bool) (xs ys : List A) → count p (xs ++ ys) ≡ count p xs + count p ys
count-append p [] ys = omega arith
count-append p (x ∷ xs) ys = ground (arith, count-append p xs ys)

-- ===== src/Common/Lists.antt =====
-- Lists with native lengths and Boolean predicates.
use Prim.Native.Nat.{ℕ, zero, suc, ◌+◌, ◌≤◌}
use Prim.Native.String.{String}
use mathlib.Core.Path.{◌≡◌, refl, ap}
use mathlib.Core.Bool.{Bool, true, false, ◌&&◌, ◌||◌}
use mathlib.Core.Option.{Option, none, some}
use mathlib.Core.List.{List, [], ◌∷◌, ◌++◌}
use native.Mathlib.Omega.{arith}
use text.Mathlib.Text.{◌==◌ as str_eq}
use text.Mathlib.TextEquality.{eq_iff}
use ziguijia_translate_ml.Common.Tests.{if◌then◌else◌, is_some}

module _ {ℓ} {A : Type ℓ} where
  abbrev pub length : List A → ℕ
  length [] = 0
  length (x ∷ xs) = suc (length xs)

  pub length-append : (xs ys : List A) → length (xs ++ ys) ≡ length xs + length ys
  length-append [] ys = omega arith
  length-append (x ∷ xs) ys = omega (arith, length-append xs ys)

  -- `[x for x in xs if p(x)]`
  abbrev pub keep : (A → Bool) → List A → List A
  keep p [] = []
  keep p (x ∷ xs) = let rest = keep p xs in if p x then x ∷ rest else rest

  pub length-keep-le : (p : A → Bool) (xs : List A) → length (keep p xs) ≤ length xs
  length-keep-le p [] = omega arith
  length-keep-le p (x ∷ xs) = ground (arith, length-keep-le p xs)

  -- `xs[i]`, for an index that is not negative
  abbrev pub get_elem? : List A → ℕ → Option A
  get_elem? [] i = none
  get_elem? (x ∷ xs) zero = some x
  get_elem? (x ∷ xs) (suc i) = get_elem? xs i

  -- How many elements pass a test.
  abbrev pub count : (A → Bool) → List A → ℕ
  count p [] = 0
  count p (x ∷ xs) = let rest = count p xs in if p x then suc rest else rest

  -- Every element satisfies a predicate.
  abbrev pub All {κ} : (A → Type κ) → List A → Type κ
  All P [] = Unit
  All P (x ∷ xs) = P x × All P xs

  pub All-append {κ} : (P : A → Type κ) (xs ys : List A) → All P xs → All P ys → All P (xs ++ ys)
  All-append P [] ys hx hy = hy
  All-append P (x ∷ xs) ys hx hy = (hx.0, All-append P xs ys hx.1 hy)

  pub All-keep {κ} : (P : A → Type κ) (p : A → Bool) (xs : List A) → All P xs → All P (keep p xs)
  All-keep P p [] h = tt
  All-keep P p (x ∷ xs) h = All-keep_cons (p x) (All-keep P p xs h.1)
    where
      All-keep_cons :
          (b : Bool) → All P (keep p xs) → All P (if b then x ∷ keep p xs else keep p xs)
      All-keep_cons true rest = (h.0, rest)
      All-keep_cons false rest = rest

-- `s in xs`
abbrev pub elem : String → List String → Bool
elem s [] = false
elem s (x ∷ xs) = str_eq s x || elem s xs

pub elem-append : (s : String) (xs ys : List String) → elem s (xs ++ ys) ≡ (elem s xs || elem s ys)
elem-append s [] ys = refl
elem-append s (x ∷ xs) ys = ground (arith, elem-append s xs ys)

pub elem-keep :
    (s : String) (p : String → Bool) (xs : List String) → elem s (keep p xs) ≡ (elem s xs && p s)
elem-keep s p [] = refl
elem-keep s p (x ∷ xs) = ground (arith, elem-keep s p xs, eq_iff s x, ap p)

-- `d.get(k)` on a dictionary written as a literal
abbrev pub lookup {ℓ} : {V : Type ℓ} → String → List (String × V) → Option V
lookup k [] = none
lookup k ((j, v) ∷ d) = if str_eq k j then some v else lookup k d

-- `d.keys()`
abbrev pub keys {ℓ} : {V : Type ℓ} → List (String × V) → List String
keys [] = []
keys ((k, v) ∷ d) = k ∷ keys d

pub is_some-lookup {ℓ} :
    {V : Type ℓ} (k : String) (d : List (String × V)) → is_some (lookup k d) ≡ elem k (keys d)
is_some-lookup k [] = refl
is_some-lookup k ((j, v) ∷ d) = ground (arith, eq_iff j k, eq_iff k j, is_some-lookup k d)

-- Every element of the first list is in the second.
abbrev pub subset : List String → List String → Bool
subset [] ys = true
subset (x ∷ xs) ys = elem x ys && subset xs ys

pub elem-subset :
    (s : String) (xs ys : List String) → subset xs ys ≡ true → elem s xs ≡ true → elem s ys ≡ true
elem-subset s [] ys h m = cc
elem-subset s (x ∷ xs) ys h m = ground (arith, eq_iff s x, elem-subset s xs ys)

-- Two lists with the same elements.
pub elem-eq_of_subset :
    (s : String) (xs ys : List String)
    → subset xs ys ≡ true
    → subset ys xs ≡ true
    → elem s xs ≡ elem s ys
elem-eq_of_subset s xs ys h k = ground (arith, elem-subset s xs ys, elem-subset s ys xs)

-- What a filter keeps satisfies its test.
pub All-keep_and {ℓ κ} :
    {A : Type ℓ} (P : A → Type κ) (p : A → Bool) (xs : List A)
    → All P xs
    → All (λ x. (p x ≡ true) × P x) (keep p xs)
All-keep_and P p [] h = tt
All-keep_and P p (x ∷ xs) h = kept (p x) refl (All-keep_and P p xs h.1)
  where
    kept :
        (b : Bool)
        → p x ≡ b
        → All (λ y. (p y ≡ true) × P y) (keep p xs)
        → All (λ y. (p y ≡ true) × P y) (if b then x ∷ keep p xs else keep p xs)
    kept true e rest = ((e, h.0), rest)
    kept false e rest = rest

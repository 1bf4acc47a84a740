-- ===== src/Pipeline/Tempo.antt =====
-- chatterbox-server/pipeline.py, `_build_atempo_filter`: the factors of the chain, which the filter's
-- text prints with six digits. A float is a fraction; all that are not above 0 are 0 here.
use ziguijia_translate_ml.Common.{
  ℕ, zero, suc, ◌≡◌, refl, false, Option, none, some, List, [], ◌∷◌, ◌+◌, ◌*◌, ◌≤◌, ◌<◌, ◌&&◌, ltb,
  leb, ◌==◌, arith, All, if◌then◌else◌, Bool-cases, inl, inr,
}

pub record Ratio : Type 0 where
  pub num : ℕ
  pub den : ℕ

abbrev two : Ratio
two = record { num = 2; den = 1 }

abbrev half : Ratio
half = record { num = 1; den = 2 }

-- `parts.append(f)`, in front of the parts that follow
abbrev prepend : Ratio → Option (List Ratio) → Option (List Ratio)
prepend f none = none
prepend f (some fs) = some (f ∷ fs)

-- The loops, with the turns that they may take; none where they do not suffice.
unfoldable pub halve : (turns : ℕ) → (remaining : Ratio) → Option (List Ratio)
halve zero r = if ltb (2 * r.den) r.num then none else some (r ∷ [])
halve (suc turns) r =
    let rest = halve turns (record { num = r.num; den = 2 * r.den }) in
    if ltb (2 * r.den) r.num then prepend two rest else some (r ∷ [])

unfoldable pub double : (turns : ℕ) → (remaining : Ratio) → Option (List Ratio)
double zero r = if ltb (2 * r.num) r.den then none else some (r ∷ [])
double (suc turns) r =
    let rest = double turns (record { num = 2 * r.num; den = r.den }) in
    if ltb (2 * r.num) r.den then prepend half rest else some (r ∷ [])

unfoldable pub build_atempo_filter : Ratio → Option (List Ratio)
unfolding halve double
build_atempo_filter stretch =
    if stretch.num == 0
    then some (half ∷ [])
    else (if leb stretch.den (2 * stretch.num) && leb stretch.num (2 * stretch.den)
        then some (stretch ∷ [])
        else (if ltb (2 * stretch.den) stretch.num
            then halve stretch.num stretch
            else double stretch.den stretch))

-- A factor that atempo takes: from one half to two.
abbrev pub IsFactor : Ratio → Type 0
IsFactor f = (f.den ≤ 2 * f.num) × (f.num ≤ 2 * f.den)

unfoldable pub product : List Ratio → Ratio
product [] = record { num = 1; den = 1 }
product (f ∷ fs) = let p = product fs in record { num = f.num * p.num; den = f.den * p.den }

-- The fractions are the same number.
abbrev pub Same : Ratio → Ratio → Type 0
Same a b = a.num * b.den ≡ b.num * a.den

pub record Chain (stretch : Ratio) (o : Option (List Ratio)) : Type 0 where
  pub factors : List Ratio
  pub made : o ≡ some factors
  pub in_range : All IsFactor factors
  pub multiplies : Same (product factors) stretch

single-Chain : (r : Ratio) (o : Option (List Ratio)) → o ≡ some (r ∷ []) → IsFactor r → Chain r o
unfolding product
single-Chain r o e h = record {
  factors = r ∷ [];
  made = e;
  in_range = (h, tt);
  multiplies = grind arith;
}

halve-Chain :
    (turns : ℕ) (r : Ratio)
    → 0 < r.den
    → r.den ≤ 2 * r.num
    → r.num ≤ 2 * r.den + turns
    → Chain r (halve turns r)
unfolding halve product
halve-Chain zero r pos low enough =
    single-Chain r (halve zero r) (ground arith) (low, omega (arith, enough))
halve-Chain (suc turns) r pos low enough = elim (Bool-cases (ltb (2 * r.den) r.num)) [
  | inl above ↦
      let rest =
        halve-Chain turns (record { num = r.num; den = 2 * r.den }) (omega (arith, pos))
          (ground arith) (omega (arith, pos, enough)) in
      record {
        factors = two ∷ rest.factors;
        made = rw (above, rest.made) refl;
        in_range = ((omega arith, omega arith), rest.in_range);
        multiplies = grind (arith, rest.multiplies);
      }
  | inr fits ↦ single-Chain r (halve (suc turns) r) (rw fits refl) (low, ground arith)
]

double-Chain :
    (turns : ℕ) (r : Ratio)
    → 0 < r.num
    → r.num ≤ 2 * r.den
    → r.den ≤ 2 * r.num + turns
    → Chain r (double turns r)
unfolding double product
double-Chain zero r pos high enough =
    single-Chain r (double zero r) (ground arith) (omega (arith, enough), high)
double-Chain (suc turns) r pos high enough = elim (Bool-cases (ltb (2 * r.num) r.den)) [
  | inl below ↦
      let rest =
        double-Chain turns (record { num = 2 * r.num; den = r.den }) (omega (arith, pos))
          (ground arith) (omega (arith, pos, enough)) in
      record {
        factors = half ∷ rest.factors;
        made = rw (below, rest.made) refl;
        in_range = ((omega arith, omega arith), rest.in_range);
        multiplies = grind (arith, rest.multiplies);
      }
  | inr fits ↦ single-Chain r (double (suc turns) r) (rw fits refl) (ground arith, high)
]

-- For every stretch above 0 the loops end, every factor of the chain is one that atempo takes, from
-- one half to two, and the factors multiply to the stretch.
pub build_atempo_filter-Chain :
    (stretch : Ratio)
    → 0 < stretch.num
    → 0 < stretch.den
    → Chain stretch (build_atempo_filter stretch)
unfolding build_atempo_filter
build_atempo_filter-Chain s pos pos' =
    rw (above_zero, build_atempo_filter)
      (elim (Bool-cases (leb s.den (2 * s.num) && leb s.num (2 * s.den))) [
        | inl fits ↦ rw fits (single-Chain s _ refl (ground arith, ground arith))
        | inr outside ↦ rw outside (elim (Bool-cases (ltb (2 * s.den) s.num)) [
          | inl above ↦ rw above (halve-Chain s.num s pos' (ground arith) (omega (arith, pos')))
          | inr below ↦ rw below (double-Chain s.den s pos (ground arith) (omega (arith, pos)))
        ])
      ])
  where
    above_zero : (s.num == 0) ≡ false
    above_zero = ground (arith, pos)

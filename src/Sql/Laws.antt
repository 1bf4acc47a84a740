-- ===== src/Sql/Laws.antt =====
-- What a SELECT by key sees after each statement.
use mathlib.Core.Option
use ziguijia_translate_ml.Common.{
  String, ◌≡◌, refl, ap, Bool, false, Option, none, some, List, [], ◌∷◌, arith, str_eq, eq_iff,
  eq_refl, if◌then◌else◌,
}
use ziguijia_translate_ml.Sql.{select, update_where, update_key, rowcount_key, insert_or_replace}

module _ {ℓ} {R : Type ℓ} where
  pub select-update_where :
      (k : String) (p : String → R → Bool) (f : R → R) (t : List (String × R))
      → select k (update_where p f t) ≡ Option.map (λ r. if p k r then f r else r) (select k t)
  unfolding select update_where
  select-update_where k p f [] = refl
  select-update_where k p f ((j, r) ∷ t) = ground (arith, eq_iff j k, select-update_where k p f t)

  pub select-update_key :
      (k j : String) (p : R → Bool) (f : R → R) (t : List (String × R))
      → select j (update_key k p f t)
        ≡ (if str_eq k j then Option.map (λ r. if p r then f r else r) (select j t) else select j t)
  unfolding select update_key
  select-update_key k j p f [] = ground arith
  select-update_key k j p f ((i, r) ∷ t) =
      ground (arith, eq_iff k j, eq_iff i j, eq_iff i k, select-update_key k j p f t)

  pub select-insert_or_replace :
      (k j : String) (r : R) (t : List (String × R))
      → select j (insert_or_replace k r t) ≡ (if str_eq k j then some r else select j t)
  unfolding select insert_or_replace
  select-insert_or_replace k j r [] = refl
  select-insert_or_replace k j r ((i, s) ∷ t) =
      ground (arith, eq_iff k j, eq_iff i j, eq_iff i k, select-insert_or_replace k j r t)

  -- An UPDATE by key that matches no row changes nothing.
  pub update_key_none :
      (k : String) (p : R → Bool) (f : R → R) (t : List (String × R))
      → rowcount_key k p t ≡ 0
      → update_key k p f t ≡ t
  unfolding update_key rowcount_key
  update_key_none k p f [] h = refl
  update_key_none k p f ((j, r) ∷ t) h = ground (arith, update_key_none k p f t)

  -- Where an UPDATE by key touches no row, the row of the key does not pass its test.
  pub rowcount_key_zero :
      (k : String) (p : R → Bool) (r : R) (t : List (String × R))
      → rowcount_key k p t ≡ 0
      → select k t ≡ some r
      → p r ≡ false
  unfolding select rowcount_key
  rowcount_key_zero k p r [] h found = cc
  rowcount_key_zero k p r ((j, s) ∷ t) h found = ground (arith, ap p, rowcount_key_zero k p r t)

  map-some :
      (p : R → Bool) (f : R → R) (o : Option R) (r : R)
      → Option.map (λ s. if p s then f s else s) o ≡ some r
      → (s : R) × (o ≡ some s) × ((if p s then f s else s) ≡ r)
  map-some p f none r h = cc
  map-some p f (some s) r h = (s, refl, cc)

  -- The row that an UPDATE by key leaves comes from the row that was there.
  pub update_key_inv :
      (k : String) (p : R → Bool) (f : R → R) (t : List (String × R)) (r : R)
      → select k (update_key k p f t) ≡ some r
      → (s : R) × (select k t ≡ some s) × ((if p s then f s else s) ≡ r)
  update_key_inv k p f t r h =
      map-some p f (select k t) r (rw (select-update_key k k p f t, eq_refl k) at h)

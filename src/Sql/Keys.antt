-- ===== src/Sql/Keys.antt =====
-- The primary key: no two rows of a table have the same one, and what that gives.

use ziguijia_translate_ml.Common.{
  String, ◌≡◌, refl, Bool, true, false, none, some, List, [], ◌∷◌, arith, str_eq, eq_iff,
  if◌then◌else◌, Bool-cases, inl, inr,
}
use ziguijia_translate_ml.Sql.{
  select, update_where, update_key, rowcount_key, delete_where, insert_or_replace,
}
use ziguijia_translate_ml.Sql.Laws.{
  select-update_where, select-update_key, select-insert_or_replace,
}

module _ {ℓ} {R : Type ℓ} where
  abbrev pub IsKeyed : List (String × R) → Type ℓ
  IsKeyed [] = Unit
  IsKeyed ((k, r) ∷ t) = (select k t ≡ none) × IsKeyed t

  pub update_where-IsKeyed :
      (p : String → R → Bool) (f : R → R) (t : List (String × R))
      → IsKeyed t
      → IsKeyed (update_where p f t)
  unfolding update_where
  update_where-IsKeyed p f [] h = tt
  update_where-IsKeyed p f ((k, r) ∷ t) h =
      (ground (arith, select-update_where k p f t), update_where-IsKeyed p f t h.1)

  pub update_key-IsKeyed :
      (k : String) (p : R → Bool) (f : R → R) (t : List (String × R))
      → IsKeyed t
      → IsKeyed (update_key k p f t)
  unfolding update_key
  update_key-IsKeyed k p f [] h = tt
  update_key-IsKeyed k p f ((j, r) ∷ t) h =
      (ground (arith, select-update_key k j p f t), update_key-IsKeyed k p f t h.1)

  -- A row that a DELETE takes is gone, and every other row stays.
  pub select-delete_where :
      (k : String) (p : String → R → Bool) (t : List (String × R))
      → IsKeyed t
      → select k (delete_where p t)
        ≡ elim (select k t) [ none ↦ none | some r ↦ if p k r then none else some r ]
  unfolding select delete_where
  select-delete_where k p [] h = refl
  select-delete_where k p ((j, r) ∷ t) h = ground (arith, eq_iff j k, select-delete_where k p t h.1)

  select-delete_where-none :
      (k : String) (p : String → R → Bool) (t : List (String × R))
      → select k t ≡ none
      → select k (delete_where p t) ≡ none
  unfolding select delete_where
  select-delete_where-none k p [] h = refl
  select-delete_where-none k p ((j, r) ∷ t) h = ground (arith, select-delete_where-none k p t)

  pub delete_where-IsKeyed :
      (p : String → R → Bool) (t : List (String × R)) → IsKeyed t → IsKeyed (delete_where p t)
  unfolding delete_where
  delete_where-IsKeyed p [] h = tt
  delete_where-IsKeyed p ((k, r) ∷ t) h =
      keep_or_drop (p k r) (select-delete_where-none k p t h.0) (delete_where-IsKeyed p t h.1)
    where
      keep_or_drop :
          (b : Bool)
          → select k (delete_where p t) ≡ none
          → IsKeyed (delete_where p t)
          → IsKeyed (if b then delete_where p t else (k, r) ∷ delete_where p t)
      keep_or_drop true fresh rest = rest
      keep_or_drop false fresh rest = (fresh, rest)

  pub insert_or_replace-IsKeyed :
      (k : String) (s : R) (t : List (String × R)) → IsKeyed t → IsKeyed (insert_or_replace k s t)
  unfolding insert_or_replace select
  insert_or_replace-IsKeyed k s [] h = (refl, tt)
  insert_or_replace-IsKeyed k s ((j, r) ∷ t) h = elim (Bool-cases (str_eq j k)) [
    | inl same ↦ rw same (insert_or_replace-IsKeyed k s t h.1)
    | inr other ↦ rw other (
      ground (arith, select-insert_or_replace k j s t, eq_iff k j, eq_iff j k),
      insert_or_replace-IsKeyed k s t h.1,
    )
  ]

  -- The number of rows that an UPDATE by key touches: one if the row is there and passes.
  pub rowcount_key_lem :
      (k : String) (p : R → Bool) (t : List (String × R))
      → IsKeyed t
      → rowcount_key k p t ≡ elim (select k t) [ none ↦ 0 | some r ↦ if p r then 1 else 0 ]
  unfolding select rowcount_key
  rowcount_key_lem k p [] h = refl
  rowcount_key_lem k p ((j, r) ∷ t) h = ground (arith, eq_iff j k, rowcount_key_lem k p t h.1)

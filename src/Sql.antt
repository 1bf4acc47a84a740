-- ===== src/Sql.antt =====
-- The SQL statements that the server runs on a table with a TEXT PRIMARY KEY (SQLite, through
-- chatterbox-server/db_schema.py): rows in insertion order, each with its key.
pub mod Laws
pub mod Keys
use ziguijia_translate_ml.Common.{
  ℕ, suc, String, Bool, Option, none, some, List, [], ◌∷◌, ◌&&◌, str_eq, if◌then◌else◌,
}

module _ {ℓ} {R : Type ℓ} where
  -- SELECT ... WHERE key = ?, then fetchone()
  unfoldable pub select : String → List (String × R) → Option R
  select k [] = none
  select k ((j, r) ∷ t) = if str_eq j k then some r else select k t

  -- SELECT ... WHERE p, then fetchall()
  unfoldable pub select_where : (String → R → Bool) → List (String × R) → List (String × R)
  select_where p [] = []
  select_where p ((j, r) ∷ t) = let rest = select_where p t in if p j r then (j, r) ∷ rest else rest

  -- UPDATE ... SET f WHERE p
  unfoldable pub update_where :
      (String → R → Bool) → (R → R) → List (String × R) → List (String × R)
  update_where p f [] = []
  update_where p f ((j, r) ∷ t) = (j, if p j r then f r else r) ∷ update_where p f t

  -- UPDATE ... SET f WHERE key = ? AND p
  unfoldable pub update_key : String → (R → Bool) → (R → R) → List (String × R) → List (String × R)
  update_key k p f [] = []
  update_key k p f ((j, r) ∷ t) = (j, if str_eq j k && p r then f r else r) ∷ update_key k p f t

  -- `cursor.rowcount` of that UPDATE
  unfoldable pub rowcount_key : String → (R → Bool) → List (String × R) → ℕ
  rowcount_key k p [] = 0
  rowcount_key k p ((j, r) ∷ t) =
      let rest = rowcount_key k p t in if str_eq j k && p r then suc rest else rest

  -- DELETE FROM ... WHERE p
  unfoldable pub delete_where : (String → R → Bool) → List (String × R) → List (String × R)
  delete_where p [] = []
  delete_where p ((j, r) ∷ t) = let rest = delete_where p t in if p j r then rest else (j, r) ∷ rest

  -- INSERT OR REPLACE INTO ...: a row with the same key goes, and the new row comes last.
  unfoldable pub insert_or_replace : String → R → List (String × R) → List (String × R)
  insert_or_replace k r [] = (k, r) ∷ []
  insert_or_replace k r ((j, s) ∷ t) =
      let rest = insert_or_replace k r t in if str_eq j k then rest else (j, s) ∷ rest

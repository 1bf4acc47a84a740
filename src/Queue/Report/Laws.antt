-- ===== src/Queue/Report/Laws.antt =====
-- What the job list of a user holds, and its order.
use mathlib.Core.Option
use ziguijia_translate_ml.Common.{
  ℕ, String, ◌≡◌, refl, ap, ◌∙◌, Bool, true, false, Option, none, some, List, [], ◌∷◌, ◌≤◌, map,
  arith, leb, if◌then◌else◌, str_eq, eq_iff, eq_refl, Bool-cases, inl, inr, leb→le,
}
use ziguijia_translate_ml.Sql.{select, select_where}
use ziguijia_translate_ml.Sql.Keys.{IsKeyed}
use ziguijia_translate_ml.Job.{Row}
use ziguijia_translate_ml.Queue.{JobQueue}
use ziguijia_translate_ml.Queue.Report.{
  insert_desc, order_desc, Entry, is_listed, changed_at, entry_of, get_user_jobs,
}

module _ {ℓ} {A : Type ℓ} (key : A → ℕ) where
  -- No later element has a larger key.
  abbrev pub IsDesc : List A → Type 0
  IsDesc [] = Unit
  IsDesc (x ∷ []) = Unit
  IsDesc (x ∷ y ∷ ys) = (key y ≤ key x) × IsDesc (y ∷ ys)

  insert_desc-IsDesc : (x : A) (ys : List A) → IsDesc ys → IsDesc (insert_desc key x ys)
  unfolding insert_desc
  insert_desc-IsDesc x [] h = tt
  insert_desc-IsDesc x (y ∷ []) h = elim (Bool-cases (leb (key y) (key x))) [
    | inl le ↦ rw le (leb→le (key y) (key x) le, tt)
    | inr gt ↦ rw gt (ground arith, tt)
  ]
  insert_desc-IsDesc x (y ∷ z ∷ zs) h = elim (Bool-cases (leb (key y) (key x))) [
    | inl le ↦ rw le (leb→le (key y) (key x) le, h)
    | inr gt ↦
        rw gt (below (leb (key z) (key x)) (ground arith) (insert_desc-IsDesc x (z ∷ zs) h.1))
  ]
    where
      below :
          (b : Bool)
          → key x ≤ key y
          → IsDesc (if b then x ∷ z ∷ zs else z ∷ insert_desc key x zs)
          → IsDesc (y ∷ (if b then x ∷ z ∷ zs else z ∷ insert_desc key x zs))
      below true le rest = (le, rest)
      below false le rest = (h.0, rest)

  pub order_desc-IsDesc : (xs : List A) → IsDesc (order_desc key xs)
  unfolding order_desc
  order_desc-IsDesc [] = tt
  order_desc-IsDesc (x ∷ xs) = insert_desc-IsDesc x (order_desc key xs) (order_desc-IsDesc xs)

-- A keyed table holds the same rows by key when it is ordered.
select-insert_desc :
    (key : String × Row → ℕ) (j k : String) (r : Row) (t : List (String × Row))
    → select k t ≡ none
    → select j (insert_desc key (k, r) t) ≡ (if str_eq k j then some r else select j t)
unfolding select insert_desc
select-insert_desc key j k r [] fresh = refl
select-insert_desc key j k r ((i, s) ∷ t) fresh =
    ground (arith, eq_iff k j, eq_iff i j, eq_iff i k, eq_refl k, select-insert_desc key j k r t)

pub select-order_desc :
    (key : String × Row → ℕ) (j : String) (t : List (String × Row))
    → IsKeyed t
    → select j (order_desc key t) ≡ select j t
unfolding select order_desc
select-order_desc key j [] h = refl
select-order_desc key j ((k, r) ∷ t) h =
    rw (select-insert_desc key j k r (order_desc key t) (select-order_desc key k t h.1 ∙ h.0))
      (rw (select-order_desc key j t h.1) refl)

pub select-select_where :
    (p : String → Row → Bool) (j : String) (t : List (String × Row))
    → IsKeyed t
    → select j (select_where p t)
      ≡ elim (select j t) [ none ↦ none | some r ↦ if p j r then some r else none ]
unfolding select select_where
select-select_where p j [] h = refl
select-select_where p j ((k, r) ∷ t) h = ground (arith, eq_iff k j, select-select_where p j t h.1)

pub select_where-IsKeyed :
    (p : String → Row → Bool) (t : List (String × Row)) → IsKeyed t → IsKeyed (select_where p t)
unfolding select_where
select_where-IsKeyed p [] h = tt
select_where-IsKeyed p ((k, r) ∷ t) h = kept (p k r) (select_where-IsKeyed p t h.1)
  where
    kept :
        (b : Bool)
        → IsKeyed (select_where p t)
        → IsKeyed (if b then (k, r) ∷ select_where p t else select_where p t)
    kept true rest = (rw (select-select_where p k t h.1, h.0) refl, rest)
    kept false rest = rest

-- The entry of a code in a job list.
unfoldable pub entry_at : String → List Entry → Option Entry
entry_at j [] = none
entry_at j (e ∷ es) = if str_eq e.access_code j then some e else entry_at j es

entry_at-map :
    (j : String) (t : List (String × Row))
    → entry_at j (map entry_of t) ≡ Option.map (λ r. entry_of (j, r)) (select j t)
unfolding entry_at select
entry_at-map j [] = refl
entry_at-map j ((k, r) ∷ t) = elim (Bool-cases (str_eq k j)) [
  | inl same ↦ rw same (ap (λ x. some (entry_of (x, r))) ((eq_iff k j).0 same))
  | inr other ↦ rw other (entry_at-map j t)
]

-- The job list of a user has an entry for exactly the jobs of that user which are not deleted, and
-- each entry shows its job's row.
pub get_user_jobs_lem :
    (user_id : ℕ) (q : JobQueue) (j : String)
    → IsKeyed q.jobs
    → entry_at j (get_user_jobs user_id q) ≡ elim (select j q.jobs) [
      | none ↦ none
      | some r ↦ if is_listed user_id j r then some (entry_of (j, r)) else none
    ]
unfolding get_user_jobs
get_user_jobs_lem user_id q j keyed =
    let listed = select_where-IsKeyed (is_listed user_id) q.jobs keyed in
    entry_at-map j _
    ∙ rw
        (
          select-order_desc changed_at j _ listed,
          select-select_where (is_listed user_id) j q.jobs keyed,
        )
        (ground arith)

-- COALESCE(status_changed_at, created_at) of an entry
unfoldable pub entry_changed_at : Entry → ℕ
entry_changed_at e = elim e.status_changed_at [ none ↦ e.created_at | some t ↦ t ]

map-IsDesc :
    (t : List (String × Row)) → IsDesc changed_at t → IsDesc entry_changed_at (map entry_of t)
unfolding entry_changed_at
map-IsDesc [] h = tt
map-IsDesc (x ∷ []) h = tt
map-IsDesc (x ∷ y ∷ t) h = (h.0, map-IsDesc (y ∷ t) h.1)

-- The job list of a user is ordered by the last change of the status, the newest first.
pub get_user_jobs-IsDesc :
    (user_id : ℕ) (q : JobQueue) → IsDesc entry_changed_at (get_user_jobs user_id q)
unfolding get_user_jobs
get_user_jobs-IsDesc user_id q =
    map-IsDesc _ (order_desc-IsDesc changed_at (select_where (is_listed user_id) q.jobs))

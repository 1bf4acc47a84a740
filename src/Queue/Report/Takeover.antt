-- ===== src/Queue/Report/Takeover.antt =====
-- Which failed job a new submission of the same video takes over.

use mathlib.Core.Path.{subst}
use ziguijia_translate_ml.Common.{
  ℕ, String, ◌≡◌, refl, ap, sym, ◌∙◌, true, Option, none, some, List, [], ◌∷◌, ◌≤◌, arith,
  if◌then◌else◌, str_eq, eq_refl, Bool-cases, inl, inr,
}
use ziguijia_translate_ml.Sql.{select, select_where}
use ziguijia_translate_ml.Sql.Keys.{IsKeyed}
use ziguijia_translate_ml.Job.{Row}
use ziguijia_translate_ml.Queue.{JobQueue}
use ziguijia_translate_ml.Queue.Report.{
  order_desc, failed_of, first_of_rows, find_failed, find_failed_ocr_job,
}
use ziguijia_translate_ml.Queue.Report.Laws.{
  IsDesc, order_desc-IsDesc, select-order_desc, select-select_where, select_where-IsKeyed,
}

-- In an ordered table, the first row has the largest key.
first_largest :
    (k : String) (r : Row) (t : List (String × Row))
    → IsDesc (λ (e : String × Row). e.1.created_at) ((k, r) ∷ t)
    → (j : String) (s : Row) → select j ((k, r) ∷ t) ≡ some s
    → s.created_at ≤ r.created_at
unfolding select
first_largest k r [] h j s found = ground arith
first_largest k r ((i, u) ∷ t) h j s found = elim (Bool-cases (str_eq k j)) [
  | inl same ↦ ground arith
  | inr other ↦
      let rest : s.created_at ≤ u.created_at = first_largest i u t h.1 j s (rw other at found) in
      omega (arith, rest, h.0)
]

-- A failed job of the handler for the video and the user, no older than any other such job.
pub record IsNewestFailed (name video_number : String) (user_id : Option ℕ) (q : JobQueue)
    (code : String) (dir : Option String) : Type 0 where
  pub row : Row
  pub found : select code q.jobs ≡ some row
  pub matches : failed_of name video_number user_id code row ≡ true
  pub is_dir : row.output_dir ≡ dir
  pub newest :
      (j : String) (s : Row)
      → select j q.jobs ≡ some s
      → failed_of name video_number user_id j s ≡ true
      → s.created_at ≤ row.created_at

module _ (name video_number : String) (user_id : Option ℕ) (q : JobQueue)
    (keyed : IsKeyed q.jobs) where
  abbrev ordered : List (String × Row)
  ordered =
      order_desc (λ (e : String × Row). e.1.created_at)
        (select_where (failed_of name video_number user_id) q.jobs)

  select-ordered :
      (j : String)
      → select j ordered ≡ elim (select j q.jobs) [
        | none ↦ none
        | some r ↦ if failed_of name video_number user_id j r then some r else none
      ]
  select-ordered j =
      select-order_desc (λ (e : String × Row). e.1.created_at) j
        (select_where (failed_of name video_number user_id) q.jobs)
        (select_where-IsKeyed (failed_of name video_number user_id) q.jobs keyed)
      ∙ select-select_where (failed_of name video_number user_id) j q.jobs keyed

  first_row :
      (t : List (String × Row))
      → ordered ≡ t
      → (code : String) (dir : Option String) → first_of_rows t ≡ some (code, dir)
      → IsNewestFailed name video_number user_id q code dir
  unfolding select
  first_row [] e code dir h = cc
  first_row ((k, r) ∷ t) e code dir h =
      let same : k ≡ code = cc in
      let in_first : some r ≡ elim (select k q.jobs) [
        | none ↦ none
        | some s ↦ if failed_of name video_number user_id k s then some s else none
      ] =
        (rw (← (select-ordered k)) (rw e (rw (eq_refl k) refl))) in
      subst (λ c. IsNewestFailed name video_number user_id q c dir) same
        (record {
          row = r;
          found = ground arith;
          matches = ground arith;
          is_dir = cc;
          newest = λ j s at m.
              first_largest k r t
                (rw e at (
                  order_desc-IsDesc (λ (x : String × Row). x.1.created_at)
                    (select_where (failed_of name video_number user_id) q.jobs)))
                j s (sym (ap (select j) e) ∙ (select-ordered j ∙ rw (at, m) refl));
        })

  pub find_failed_lem :
      (code : String) (dir : Option String)
      → find_failed name video_number user_id q ≡ some (code, dir)
      → IsNewestFailed name video_number user_id q code dir
  unfolding find_failed
  find_failed_lem code dir h = first_row ordered refl code dir h

-- The job that a new OCR submission takes over is a failed OCR job of the same video and user, and
-- none of these is newer.
pub find_failed_ocr_job_lem :
    (video_number : String) (user_id : Option ℕ) (q : JobQueue)
    → IsKeyed q.jobs
    → (code : String) (dir : Option String)
    → find_failed_ocr_job video_number user_id q ≡ some (code, dir)
    → IsNewestFailed "_run_video_ning_ocr_job" video_number user_id q code dir
unfolding find_failed_ocr_job
find_failed_ocr_job_lem video_number user_id q keyed code dir h =
    find_failed_lem "_run_video_ning_ocr_job" video_number user_id q keyed code dir h

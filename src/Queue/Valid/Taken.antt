-- ===== src/Queue/Valid/Taken.antt =====
-- The invariant of the job queue while the worker holds a job that it has taken.
use mathlib.Core.Path.{subst}
use ziguijia_translate_ml.Common.{
  ℕ, String, ◌≡◌, ◌≢◌, refl, sym, ap, Bool, true, false, none, some, ◌∙◌, arith, if◌then◌else◌,
  str_eq, eq_iff, elem, is_some, ◌||◌, ◌&&◌, ◌⊎◌, Option-cases, Bool-cases, inl, inr,
}
use ziguijia_translate_ml.Sql.{select, update_key}
use ziguijia_translate_ml.Sql.Laws.{select-update_key, update_key_inv}
use ziguijia_translate_ml.Sql.Keys.{IsKeyed, update_key-IsKeyed}
use ziguijia_translate_ml.Job.{pending, Row}
use ziguijia_translate_ml.Queue.{JobQueue}
use ziguijia_translate_ml.Queue.Frame.{frame}
use ziguijia_translate_ml.Queue.Worker.{
  Outcome, returned, raises, Handler, is_pending, claim_row, claimed, completed_row, failed_row,
  finish_job, mark_failed, try_mark_failed, Failures, Statement, unless, job_read, unloaded_update,
  claim_update, completed_update, first_attempt, second_attempt,
}
use ziguijia_translate_ml.Queue.Valid.{IsValid, IsValid-same}
use ziguijia_translate_ml.Queue.Valid.Requests.{updated-IsValid}

-- The invariant without the job that the worker has just taken from the queue.
pub record IsValidBut (code : String) (q : JobQueue) : Type 0 where
  pub keyed : IsKeyed q.jobs
  pub queued :
      (j : String) (r : Row)
      → str_eq code j ≡ false
      → select j q.jobs ≡ some r
      → r.status ≡ pending
      → elem j q.memory ≡ true

pub IsValidBut-of_IsValid : (code : String) (q : JobQueue) → IsValid q → IsValidBut code q
IsValidBut-of_IsValid code q v = record {
  keyed = v.keyed;
  queued = λ j r other found w. v.queued j r found w;
}

module _ (code : String) (q : JobQueue) (v : IsValidBut code q) where
  -- Where the taken job is not pending, the invariant holds as it is.
  pub settled : ((r : Row) → select code q.jobs ≡ some r → r.status ≢ pending) → IsValid q
  settled not_pending = record {
    keyed = v.keyed;
    queued = λ j r found w. elim (Bool-cases (str_eq code j)) [
      | inl same ↦
          let e : code ≡ j = (eq_iff code j).0 same in
          absurd (not_pending r (subst (λ x. select x q.jobs ≡ some r) (sym e) found) w)
      | inr other ↦ v.queued j r other found w
    ];
  }

  -- An UPDATE that leaves the taken job not pending restores the invariant.
  pub updated :
      (p : Row → Bool) (f : Row → Row)
      → ((r : Row) → (if p r then f r else r).status ≢ pending)
      → IsValid (record q { jobs = update_key code p f q.jobs })
  updated p f ends = record {
    keyed = update_key-IsKeyed code p f q.jobs v.keyed;
    queued = λ j r found w. elim (Bool-cases (str_eq code j)) [
      | inl same ↦
          let e : code ≡ j = (eq_iff code j).0 same in
          let (s, at, is_r) =
            update_key_inv code p f q.jobs r
              (subst (λ x. select x (update_key code p f q.jobs) ≡ some r) (sym e) found) in
          absurd (ends s (ap (λ (x : Row). x.status) is_r ∙ w))
      | inr other ↦ v.queued j r other (rw (select-update_key code j p f q.jobs, other) at found) w
    ];
  }

  pub loaded : (now : ℕ) (r : Row) → IsValid (claimed now code r q)
  unfolding claimed
  loaded now r =
      IsValid-same {q = record q { jobs = update_key code is_pending (claim_row now) q.jobs }}
        (simp frame) (simp frame) (updated is_pending (claim_row now) (λ r. ground arith))

-- A handler, with all that other threads do while it runs, keeps the invariant.
unfoldable pub Keeps : Handler → Type 0
Keeps h = (code : String) (r : Row) (q : JobQueue) → IsValid q → IsValid (h code r q).1

-- A statement before the handler fails, and so do both attempts to mark the job.
abbrev pub loses : Failures → Bool
loses fails =
    (is_some (fails job_read) || (is_some (fails unloaded_update) || is_some (fails claim_update)))
    && (is_some (fails first_attempt) && is_some (fails second_attempt))

-- What `_run_job` leaves: the invariant, or a job that waits for its failure to be marked, which can be.
unfoldable pub Ends : Failures → String → Outcome × JobQueue → Type 0
Ends fails code (returned, q) = IsValid q
Ends fails code (raises e, q) =
    IsValid q ⊎ (IsValidBut code q × ((fails first_attempt ≡ none) ⊎ (fails second_attempt ≡ none)))

pub Ends-of_IsValid :
    (fails : Failures) (code : String) (o : Outcome × JobQueue) → IsValid o.1 → Ends fails code o
unfolding Ends
Ends-of_IsValid fails code (returned, q) v = v
Ends-of_IsValid fails code (raises e, q) v = inl v

-- A statement before the handler, which may fail.
pub Ends-unless :
    (fails : Failures) (code : String) (s : Statement) (q : JobQueue) (o : Outcome × JobQueue)
    → (is_some (fails s) ≡ true → (fails first_attempt ≡ none) ⊎ (fails second_attempt ≡ none))
    → IsValidBut code q
    → Ends fails code o
    → Ends fails code (unless (fails s) q o)
unfolding Ends
Ends-unless fails code s q o written v rest = elim (Option-cases (fails s)) [
  | inl fine ↦ rw fine rest
  | inr (e, broken) ↦ rw broken (inr (v, written (rw broken refl)))
]

pub finish_job-IsValid :
    (fails : Failures) (now : ℕ) (code : String) (o : Outcome × JobQueue)
    → IsValid o.1
    → IsValid (finish_job fails now code o).1
unfolding finish_job
finish_job-IsValid fails now code (returned, q) v = elim (Option-cases (fails completed_update)) [
  | inl fine ↦ rw fine (
      IsValid-same {q = record q { jobs = update_key code (λ _. true) (completed_row now) q.jobs }}
        (simp frame) (simp frame)
        (updated-IsValid code (λ _. true) (completed_row now) q (λ r w. cc) v))
  | inr (e, broken) ↦ rw broken v
]
finish_job-IsValid fails now code (raises e, q) v = v

pub marked-IsValid :
    (now : ℕ) (code msg : String) (q : JobQueue)
    → IsValidBut code q
    → IsValid (mark_failed now code msg q)
unfolding mark_failed
marked-IsValid now code msg q v =
    IsValid-same {q = record q { jobs = update_key code (λ _. true) (failed_row now msg) q.jobs }}
      (simp frame) (simp frame) (updated code q v (λ _. true) (failed_row now msg) (λ r w. cc))

pub try_mark_failed-IsValid :
    (fails : Failures) (now : ℕ) (code msg : String) (q : JobQueue)
    → IsValid q
      ⊎ (IsValidBut code q × ((fails first_attempt ≡ none) ⊎ (fails second_attempt ≡ none)))
    → IsValid (try_mark_failed fails now code msg q)
unfolding try_mark_failed
try_mark_failed-IsValid fails now code msg q (inl v) =
    let marked = marked-IsValid now code msg q (IsValidBut-of_IsValid code q v) in
    elim (Bool-cases (is_some (fails first_attempt))) [
      | inl first ↦ rw first (elim (Bool-cases (is_some (fails second_attempt))) [
        | inl second ↦ rw second v
        | inr second ↦ rw second marked
      ])
      | inr first ↦ rw first marked
    ]
try_mark_failed-IsValid fails now code msg q (inr (v, inl fine)) =
    rw fine (marked-IsValid now code msg q v)
try_mark_failed-IsValid fails now code msg q (inr (v, inr fine)) =
    let marked = marked-IsValid now code msg q v in
    elim (Bool-cases (is_some (fails first_attempt))) [
      | inl first ↦ rw (first, fine) marked
      | inr first ↦ rw first marked
    ]

-- ===== src/Queue/Valid/Requests.antt =====
-- The requests of other threads and the invariant of the job queue.
use ziguijia_translate_ml.Common.{
  ℕ, String, ◌≡◌, refl, Bool, true, Option, some, List, [], ◌∷◌, ◌++◌, arith, str_eq, eq_iff,
  eq_refl, elem, elem-append, Option-cases, Bool-cases, inl, inr,
}
use ziguijia_translate_ml.Sql.{select, update_key, insert_or_replace}
use ziguijia_translate_ml.Sql.Laws.{select-insert_or_replace}
use ziguijia_translate_ml.Sql.Keys.{insert_or_replace-IsKeyed}
use ziguijia_translate_ml.Job.{pending, Row}
use ziguijia_translate_ml.Queue.{JobQueue, enqueue, ensure_worker}
use ziguijia_translate_ml.Queue.Frame.{frame}
use ziguijia_translate_ml.Queue.Submit.{JobData, add_job, resubmit_row, resubmit_job}
use ziguijia_translate_ml.Queue.Control.{
  is_active, cancel_row, cancel_job, delete_row, delete_job, update_job_progress,
  update_target_language, terminate_processes, signal_worker, cancel_update,
}
use ziguijia_translate_ml.Queue.Control.Laws.{
  jobs-signal_worker, memory-signal_worker, jobs-terminate_processes, memory-terminate_processes,
}
use ziguijia_translate_ml.Queue.Valid.{AllQueued, IsValid, IsValid-same, IsValid-update}

elem-snoc : (j k : String) (m : List String) → elem j m ≡ true → elem j (m ++ k ∷ []) ≡ true
elem-snoc j k m h = ground (arith, elem-append j m (k ∷ []))

elem-snoc_self : (k : String) (m : List String) → elem k (m ++ k ∷ []) ≡ true
elem-snoc_self k m = ground (arith, elem-append k m (k ∷ []), eq_refl k)

pub enqueued-IsValid :
    (k : String) (p : Row → Bool) (f : Row → Row) (q : JobQueue)
    → IsValid q
    → IsValid (ensure_worker (enqueue k (record q { jobs = update_key k p f q.jobs })))
enqueued-IsValid k p f q v =
    IsValid-update {q = q} k p f (simp frame) (λ j h. simp frame (elem-snoc j k q.memory h))
      (λ r w. inr (simp frame (elem-snoc_self k q.memory))) v

-- A resubmission, refused or not, keeps the invariant: codes stay unique and every pending job is in
-- the in-memory queue.
pub resubmit_job-IsValid :
    (now : ℕ) (code : String) (checkpoint : Option String) (q : JobQueue)
    → IsValid q
    → IsValid (resubmit_job now code checkpoint q).1
unfolding resubmit_job
resubmit_job-IsValid now code checkpoint q v =
    ground (arith, enqueued-IsValid code (λ _. true) (resubmit_row now checkpoint) q v)

add_job-AllQueued :
    (k : String) (row : Row) (t : List (String × Row)) (memory : List String)
    → AllQueued memory t
    → AllQueued (memory ++ k ∷ []) (insert_or_replace k row t)
add_job-AllQueued k row t memory queued j r found w = elim (Bool-cases (str_eq k j)) [
  | inl same ↦ let e : k ≡ j = (eq_iff k j).0 same in rw (← e) (elem-snoc_self k memory)
  | inr other ↦
      elem-snoc j k memory (queued j r (rw (select-insert_or_replace k j row t, other) at found) w)
]

-- A submission keeps the invariant, also where its access code is that of an older job: codes stay
-- unique and every pending job is in the in-memory queue.
pub add_job-IsValid :
    (fresh : String) (now : ℕ) (d : JobData) (f : String) (u : Option ℕ) (q : JobQueue)
    → IsValid q
    → IsValid (add_job fresh now d f u q).1
unfolding add_job
add_job-IsValid fresh now d f u q v = record {
  keyed = simp frame (insert_or_replace-IsKeyed _ _ q.jobs v.keyed);
  queued = simp frame (add_job-AllQueued _ _ q.jobs q.memory v.queued);
}

-- An UPDATE of one job that leaves it not pending, or as pending as it was.
pub updated-IsValid :
    (k : String) (p : Row → Bool) (f : Row → Row) (q : JobQueue)
    → ((r : Row) → (f r).status ≡ pending → r.status ≡ pending)
    → IsValid q
    → IsValid (record q { jobs = update_key k p f q.jobs })
updated-IsValid k p f q keeps v =
    IsValid-update {q = q} k p f refl (λ j h. h) (λ r w. inl (keeps r w)) v

pub delete_job-IsValid :
    (now : ℕ) (code : String) (q : JobQueue) → IsValid q → IsValid (delete_job now code q).1
unfolding delete_job
delete_job-IsValid now code q v =
    ground (arith, updated-IsValid code (λ _. true) (delete_row now) q (λ r w. cc) v)

pub update_target_language-IsValid :
    (code lang : String) (q : JobQueue) → IsValid q → IsValid (update_target_language code lang q)
unfolding update_target_language
update_target_language-IsValid code lang q v = updated-IsValid code _ _ q (λ r w. w) v

pub update_job_progress-IsValid :
    (code progress : String) (q : JobQueue)
    → IsValid q
    → IsValid (update_job_progress code progress q)
unfolding update_job_progress
update_job_progress-IsValid code progress q v =
    IsValid-same
      {q = record q {
        jobs = update_key code (λ _. true) (λ r. record r { progress = some progress }) q.jobs;
      }}
      (simp frame) (simp frame) (updated-IsValid code _ _ q (λ r w. w) v)

cancel_update-IsValid :
    (now : ℕ) (code : String) (q : JobQueue) → IsValid q → IsValid (cancel_update now code q)
unfolding cancel_update
cancel_update-IsValid now code q v =
    IsValid-same {q = record q { jobs = update_key code is_active (cancel_row now) q.jobs }}
      (simp frame) (simp frame) (updated-IsValid code is_active (cancel_row now) q (λ r w. cc) v)

-- A cancellation keeps the invariant, where what other threads do while it waits keeps it: codes stay
-- unique and every pending job is in the in-memory queue.
pub cancel_job-IsValid :
    (meanwhile : JobQueue → JobQueue) (now : ℕ) (code : String) (q : JobQueue)
    → ((s : JobQueue) → IsValid s → IsValid (meanwhile s))
    → IsValid q
    → IsValid (cancel_job meanwhile now code q).1
unfolding cancel_job
cancel_job-IsValid meanwhile now code q keeps v = elim (Option-cases (select code q.jobs)) [
  | inl missing ↦ rw missing v
  | inr (r, found) ↦ rw found (elim (Bool-cases (is_active r)) [
    | inl active ↦ rw active (cancel_update-IsValid now code _ (ended r))
    | inr over ↦ rw over v
  ])
]
  where
    ended :
        (r : Row) → IsValid (signal_worker code (meanwhile (terminate_processes r.output_dir q)))
    ended r = IsValid-same (jobs-signal_worker code _) (memory-signal_worker code _) (
        keeps _ (
          IsValid-same (jobs-terminate_processes r.output_dir q)
            (memory-terminate_processes r.output_dir q) v))

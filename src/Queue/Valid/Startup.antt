-- ===== src/Queue/Valid/Startup.antt =====
-- jobqueue.py: `_load_pending_jobs` at the start of the server, and the invariant of the job queue.
use mathlib.Core.Option
use ziguijia_translate_ml.Common.{
  ℕ, String, ◌≡◌, refl, ap, ◌∙◌, Bool, true, false, Option, some, List, [], ◌∷◌, ◌||◌, arith,
  if◌then◌else◌, eq_iff, eq_refl, elem, elem-append, keys,
}
use ziguijia_translate_ml.Sql.{select, select_where}
use ziguijia_translate_ml.Sql.Laws.{select-update_where}
use ziguijia_translate_ml.Sql.Keys.{IsKeyed, update_where-IsKeyed}
use ziguijia_translate_ml.Job.{Row}
use ziguijia_translate_ml.Queue.{JobQueue, enqueue}
use ziguijia_translate_ml.Queue.Frame.{jobs-enqueue, memory-enqueue}
use ziguijia_translate_ml.Queue.Loop.{
  is_waiting, is_reset, reset_row, reset_processing, enqueue_all, terminate_all, load_pending_jobs,
}
use ziguijia_translate_ml.Queue.Control.{terminate_processes}
use ziguijia_translate_ml.Queue.Control.Laws.{jobs-terminate_processes}
use ziguijia_translate_ml.Queue.Valid.{IsValid}

jobs-enqueue_all : (rows : List (String × Row)) (q : JobQueue) → (enqueue_all rows q).jobs ≡ q.jobs
unfolding enqueue_all
jobs-enqueue_all [] q = refl
jobs-enqueue_all ((code, r) ∷ rows) q = rw (jobs-enqueue_all rows, jobs-enqueue) refl

-- The codes are queued behind what is there.
memory-enqueue_all :
    (j : String) (rows : List (String × Row)) (q : JobQueue)
    → elem j (enqueue_all rows q).memory ≡ (elem j q.memory || elem j (keys rows))
unfolding enqueue_all
memory-enqueue_all j [] q = ground arith
memory-enqueue_all j ((code, r) ∷ rows) q = ground (
  arith,
  memory-enqueue_all j rows (enqueue code q),
  memory-enqueue code q,
  elem-append j q.memory (code ∷ []),
)

jobs-terminate_all :
    (rows : List (String × Row)) (q : JobQueue) → (terminate_all rows q).jobs ≡ q.jobs
unfolding terminate_all
jobs-terminate_all [] q = refl
jobs-terminate_all ((code, r) ∷ rows) q =
    jobs-terminate_all rows (terminate_processes r.output_dir q)
    ∙ jobs-terminate_processes r.output_dir q

current-terminate_processes :
    (d : Option String) (q : JobQueue) → (terminate_processes d q).current ≡ q.current
unfolding terminate_processes
current-terminate_processes d q = ground arith

current-terminate_all :
    (rows : List (String × Row)) (q : JobQueue) → (terminate_all rows q).current ≡ q.current
unfolding terminate_all
current-terminate_all [] q = refl
current-terminate_all ((code, r) ∷ rows) q =
    current-terminate_all rows (terminate_processes r.output_dir q)
    ∙ current-terminate_processes r.output_dir q

-- A job that a SELECT by key finds and that passes the test is among the rows of a SELECT ... WHERE.
select-select_where :
    (p : String → Row → Bool) (j : String) (r : Row) (t : List (String × Row))
    → select j t ≡ some r
    → p j r ≡ true
    → elem j (keys (select_where p t)) ≡ true
unfolding select select_where
select-select_where p j r [] found h = cc
select-select_where p j r ((k, s) ∷ t) found h =
    ground (arith, eq_iff k j, eq_iff j k, eq_refl j, ap p, select-select_where p j r t)

enqueue_all-IsValid :
    (q : JobQueue) → IsKeyed q.jobs → IsValid (enqueue_all (select_where is_waiting q.jobs) q)
enqueue_all-IsValid q keyed = record {
  keyed = rw (jobs-enqueue_all (select_where is_waiting q.jobs) q) keyed;
  queued = λ j r found w.
      let found' : select j q.jobs ≡ some r =
        rw (jobs-enqueue_all (select_where is_waiting q.jobs) q) at found in
      ground (
        arith,
        memory-enqueue_all j (select_where is_waiting q.jobs) q,
        select-select_where is_waiting j r q.jobs found',
      );
}

-- The server starts with the invariant, whatever a stopped server left in the table.
pub load_pending_jobs-IsValid :
    (now : ℕ) (q : JobQueue) → IsKeyed q.jobs → IsValid (load_pending_jobs false now q)
unfolding load_pending_jobs reset_processing
load_pending_jobs-IsValid now q keyed =
    enqueue_all-IsValid _ (update_where-IsKeyed _ _ _ (rw (jobs-terminate_all) keyed))

-- The start puts every processing job but the current one back to pending, and changes no other row.
pub select-load_pending_jobs :
    (now : ℕ) (q : JobQueue) (j : String)
    → select j (load_pending_jobs false now q).jobs
      ≡ Option.map (λ r. if is_reset q.current j r then reset_row now r else r) (select j q.jobs)
unfolding load_pending_jobs reset_processing
select-load_pending_jobs now q j =
    rw (jobs-enqueue_all, jobs-terminate_all, current-terminate_all)
      (select-update_where j (is_reset q.current) (reset_row now) q.jobs)

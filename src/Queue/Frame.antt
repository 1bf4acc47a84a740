-- ===== src/Queue/Frame.antt =====
-- What the small operations of `JobQueue` leave alone.
use ziguijia_translate_ml.Common.{String, ◌≡◌, true, List, [], ◌∷◌, ◌++◌, arith}
use ziguijia_translate_ml.Queue.{JobQueue, publish_job_status, queue_pop, enqueue, ensure_worker}

module _ (code status : String) (extra : List (String × String)) (q : JobQueue) where
  pub jobs-publish_job_status : (publish_job_status code status extra q).jobs ≡ q.jobs
  unfolding publish_job_status
  jobs-publish_job_status = ground arith

  pub memory-publish_job_status : (publish_job_status code status extra q).memory ≡ q.memory
  unfolding publish_job_status
  memory-publish_job_status = ground arith

  pub current-publish_job_status : (publish_job_status code status extra q).current ≡ q.current
  unfolding publish_job_status
  current-publish_job_status = ground arith

module _ (code : String) (q : JobQueue) where
  pub jobs-enqueue : (enqueue code q).jobs ≡ q.jobs
  unfolding enqueue
  jobs-enqueue = ground arith

  pub memory-enqueue : (enqueue code q).memory ≡ q.memory ++ code ∷ []
  unfolding enqueue
  memory-enqueue = ground arith

  pub current-enqueue : (enqueue code q).current ≡ q.current
  unfolding enqueue
  current-enqueue = ground arith

module _ (q : JobQueue) where
  pub jobs-ensure_worker : (ensure_worker q).jobs ≡ q.jobs
  unfolding ensure_worker
  jobs-ensure_worker = ground arith

  pub memory-ensure_worker : (ensure_worker q).memory ≡ q.memory
  unfolding ensure_worker
  memory-ensure_worker = ground arith

  pub current-ensure_worker : (ensure_worker q).current ≡ q.current
  unfolding ensure_worker
  current-ensure_worker = ground arith

  pub running-ensure_worker : (ensure_worker q).running ≡ true
  unfolding ensure_worker
  running-ensure_worker = ground arith

  pub jobs-queue_pop : (queue_pop q).1.jobs ≡ q.jobs
  unfolding queue_pop
  jobs-queue_pop = ground arith

  pub memory-queue_pop : (queue_pop q).1.memory ≡ q.memory
  unfolding queue_pop
  memory-queue_pop = ground arith

pub ruleset frame = (
  jobs-publish_job_status, memory-publish_job_status, current-publish_job_status, jobs-enqueue,
  memory-enqueue, current-enqueue, jobs-ensure_worker, memory-ensure_worker, current-ensure_worker,
)

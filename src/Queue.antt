-- ===== src/Queue.antt =====
-- chatterbox-server/jobqueue.py: the state of `JobQueue`, and the parts of
-- chatterbox-server/valkey_util.py that it calls. What other parts of the program, or the
-- operating system, are told is recorded in `effects`, oldest first.
pub mod Frame
pub mod Submit
pub mod Control
pub mod Report
pub mod Clear
pub mod Worker
pub mod Loop
pub mod Single
pub mod Valid
use ziguijia_translate_ml.Common.{
  ℕ, suc, String, Bool, true, false, not, Option, none, some, List, [], ◌∷◌, ◌++◌, if◌then◌else◌,
}
use ziguijia_translate_ml.Job.{Row}

pub data Effect : Type 0 where
  -- a message on the `job:status` channel, with its extra fields
  publish : String → String → List (String × String) → Effect
  -- the processes whose command line names the directory are signalled
  terminate : String → Effect
  -- `cleanup_orphan_processes`
  clean_orphans : Effect
  -- a new worker thread, and a wait for an old one
  start_worker : ℕ → Effect
  join_worker : ℕ → Effect
  -- `prewarm_for_job`
  prewarm : String → Effect
  -- `shutil.rmtree`
  remove_dir : String → Effect

-- A worker thread: its identity, and `is_alive()`.
pub record Thread : Type 0 where
  pub ident : ℕ
  pub is_alive : Bool

pub record JobQueue : Type 0 where
  pub jobs : List (String × Row)
  pub memory : List String
  pub valkey : Option (List String)
  pub current : Option String
  pub cancel_event : Bool
  pub worker_thread : Option Thread
  pub next_ident : ℕ
  pub running : Bool
  pub graceful_shutdown : Bool
  pub shutdown_done : Bool
  pub effects : List Effect

-- What a request handler answers.
pub data Reply : Type 0 where
  success : String → Reply
  failure : String → Reply

abbrev pub emit : Effect → JobQueue → JobQueue
emit e q = record q { effects = q.effects ++ e ∷ [] }

-- `publish_job_status`: nothing where Valkey is down
unfoldable pub publish_job_status : String → String → List (String × String) → JobQueue → JobQueue
publish_job_status code status extra q = elim q.valkey [
  | none ↦ q
  | some pending ↦ emit (publish code status extra) q
]

-- `queue_push`: nothing where Valkey is down
unfoldable pub queue_push : String → JobQueue → JobQueue
queue_push code q = elim q.valkey [
  | none ↦ q
  | some pending ↦ record q { valkey = some (pending ++ code ∷ []) }
]

-- `queue_pop`: the code at the head of the shared list, where Valkey is up and there is one
unfoldable pub queue_pop : JobQueue → Option String × JobQueue
queue_pop q = elim q.valkey [
  | none ↦ (none, q)
  | some [] ↦ (none, q)
  | some (code ∷ rest) ↦ (some code, record q { valkey = some rest })
]

-- `self._queue.put(code)`, then `queue_push(code)`
unfoldable pub enqueue : String → JobQueue → JobQueue
unfolding queue_push
enqueue code q = queue_push code (record q { memory = q.memory ++ code ∷ [] })

-- `_ensure_worker`, first part: a dead thread is forgotten.
abbrev forget_dead : JobQueue → JobQueue
forget_dead q = elim q.worker_thread [
  | none ↦ q
  | some t ↦
      if not t.is_alive
      then emit (join_worker t.ident) (record q { running = false; worker_thread = none })
      else q
]

abbrev start : JobQueue → JobQueue
start q = emit (start_worker q.next_ident) (record q {
  running = true;
  worker_thread = some (record { ident = q.next_ident; is_alive = true });
  next_ident = suc q.next_ident;
})

-- `_ensure_worker`
unfoldable pub ensure_worker : JobQueue → JobQueue
ensure_worker q = let q' = forget_dead q in if not q'.running then start q' else q'

-- ===== src/Queue/Single.antt =====
-- jobqueue.py: the worker thread behind `_ensure_worker`.
use ziguijia_translate_ml.Common.{◌≡◌, true, false, some, ◌<◌, arith}
use ziguijia_translate_ml.Queue.{JobQueue, Thread, ensure_worker}
use ziguijia_translate_ml.Queue.Loop.{goes_on}

module _ (q : JobQueue) (t : Thread) (thread : q.worker_thread ≡ some t) where
  -- A live worker thread of a running queue is neither replaced nor joined: nothing changes.
  pub ensure_worker_alive : t.is_alive ≡ true → q.running ≡ true → ensure_worker q ≡ q
  unfolding ensure_worker
  ensure_worker_alive alive running = ground arith

  -- A dead worker thread is replaced by one new thread, which goes on, and the loop of the old
  -- thread would not. Identities are handed out in order, and the old thread has one of them.
  pub ensure_worker_dead :
      t.is_alive ≡ false
      → t.ident < q.next_ident
      → (goes_on t.ident (ensure_worker q) ≡ false)
        × (goes_on q.next_ident (ensure_worker q) ≡ true)
  unfolding ensure_worker
  ensure_worker_dead dead old = (ground arith, ground arith)

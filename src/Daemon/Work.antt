-- ===== src/Daemon/Work.antt =====
-- The start, the response and the end of a job, and the worker slots.
use mathlib.Core.Path.{ap}
use ziguijia_translate_ml.Common.{
  ℕ, ◌≡◌, refl, Bool, true, false, some, List, [], ◌∷◌, ◌+◌, ◌-◌, arith, ◌==◌, count, weight,
  count-without, length-without, find_by, without, find_by-key, if◌then◌else◌,
}
use ziguijia_translate_ml.Thermal.{Limits}
use ziguijia_translate_ml.Thermal.Hang.{JobStart}
use ziguijia_translate_ml.Thermal.Hang
use ziguijia_translate_ml.Daemon.{
  State, Job, Running, Response, job_conn, running_conn, runs, has_thread,
}
use ziguijia_translate_ml.Daemon.Jobs.{start_job, respond, finish, moved, unwound}
use ziguijia_translate_ml.Daemon.Slots.{
  is_on, of_running, total, is_gpu_on, watched, IsBalanced, IsBalancedButOne, recount,
  IsBalancedBut-send_response, release_slot-IsBalanced,
}

watched-arm :
    (tid now t : ℕ) (d : JobStart)
    → watched tid d ≡ 0
    → watched t (Hang.arm tid now d) ≡ watched t d + (if tid == t then 1 else 0)
unfolding Hang.arm
watched-arm tid now t [] absent = ground arith
watched-arm tid now t (e ∷ d) absent = ground (arith, watched-arm tid now t d)

watched-disarm :
    (tid t : ℕ) (d : JobStart)
    → watched t (Hang.disarm tid d) ≡ watched t d - (if tid == t then 1 else 0)
unfolding Hang.disarm
watched-disarm tid t [] = ground arith
watched-disarm tid t (e ∷ d) = ground (arith, watched-disarm tid t d)

count-runs : (tid : ℕ) (rs : List Running) → runs tid rs ≡ false → count (is_gpu_on tid) rs ≡ 0
count-runs tid [] free = refl
count-runs tid (r ∷ rs) free = ground (arith, count-runs tid rs)

count-found :
    (p : Job → Bool) (conn : ℕ) (js : List Job) (job : Job)
    → find_by job_conn conn js ≡ some job
    → count p js ≡ count p (without job_conn job.conn js) + weight job_conn p job
count-found p conn js job found =
    count-without job_conn p job.conn js job (find_by-key job_conn conn js job found)

count-found_running :
    (p : Running → Bool) (conn : ℕ) (rs : List Running) (r : Running)
    → find_by running_conn conn rs ≡ some r
    → count p rs ≡ count p (without running_conn r.0.conn rs) + weight running_conn p r
count-found_running p conn rs r found =
    count-without running_conn p r.0.conn rs r (find_by-key running_conn conn rs r found)

pub total-start_job :
    (p : Job → Bool) (tid now conn : ℕ) (job : Job) (s : State)
    → find_by job_conn conn s.queued ≡ some job
    → total p s ≡ total p (start_job tid now job s)
unfolding start_job
total-start_job p tid now conn job s found = ground (arith, count-found p conn s.queued job found)

guarded-start_job :
    (t tid now conn : ℕ) (job : Job) (s : State)
    → has_thread tid s ≡ false
    → IsBalanced s
    → watched t (start_job tid now job s).job_start
      ≡ count (is_gpu_on t) (start_job tid now job s).running + count (is_gpu_on t) s.ending
unfolding start_job IsBalanced
guarded-start_job t tid now conn job s free v = ground (
  arith,
  v.guarded t,
  v.guarded tid,
  watched-arm tid now t s.job_start,
  count-runs tid s.running,
  count-runs tid s.ending,
)

pub start_job-IsBalanced :
    (tid now conn : ℕ) (job : Job) (s : State)
    → find_by job_conn conn s.queued ≡ some job
    → has_thread tid s ≡ false
    → IsBalanced s
    → IsBalanced (start_job tid now job s)
unfolding IsBalanced start_job
start_job-IsBalanced tid now conn job s found free v = record {
  npu = recount _ (ap (0 +◌) (total-start_job (is_on true) tid now conn job s found)) v.npu;
  gpu = recount _ (ap (0 +◌) (total-start_job (is_on false) tid now conn job s found)) v.gpu;
  counted = omega (arith, v.counted);
  in_bounds = v.in_bounds;
  guarded = λ t. guarded-start_job t tid now conn job s free v;
}

pub total-respond :
    (p : Job → Bool) (conn : ℕ) (r : Running) (resp : Response) (s : State)
    → find_by running_conn conn s.running ≡ some r
    → total p s ≡ total p (moved r s)
unfolding moved
total-respond p conn r resp s found =
    ground (arith, count-found_running (of_running p) conn s.running r found)

guarded-respond :
    (t conn : ℕ) (r : Running) (s : State)
    → find_by running_conn conn s.running ≡ some r
    → IsBalanced s
    → watched t s.job_start
      ≡ count (is_gpu_on t) (moved r s).running + count (is_gpu_on t) (moved r s).ending
unfolding moved IsBalanced
guarded-respond t conn r s found v =
    ground (arith, v.guarded t, count-found_running (is_gpu_on t) conn s.running r found)

pub moved-IsBalanced :
    (conn : ℕ) (r : Running) (resp : Response) (s : State)
    → find_by running_conn conn s.running ≡ some r
    → IsBalanced s
    → IsBalanced (moved r s)
unfolding IsBalanced moved
moved-IsBalanced conn r resp s found v = record {
  npu = recount _ (ap (0 +◌) (total-respond (is_on true) conn r resp s found)) v.npu;
  gpu = recount _ (ap (0 +◌) (total-respond (is_on false) conn r resp s found)) v.gpu;
  counted = omega (
    arith,
    v.counted,
    length-without running_conn r.0.conn s.running r
        (find_by-key running_conn conn s.running r found),
  );
  in_bounds = v.in_bounds;
  guarded = λ t. guarded-respond t conn r s found v;
}

pub respond-IsBalanced :
    (conn : ℕ) (r : Running) (resp : Response) (s : State)
    → find_by running_conn conn s.running ≡ some r
    → IsBalanced s
    → IsBalanced (respond r resp s)
unfolding IsBalanced respond
respond-IsBalanced conn r resp s found v =
    IsBalancedBut-send_response 0 0 r.0.conn resp (moved r s)
      (moved-IsBalanced conn r resp s found v)

pub total-finish :
    (p : Job → Bool) (l : Limits) (now conn : ℕ) (r : Running) (s : State)
    → find_by running_conn conn s.ending ≡ some r
    → total p s ≡ weight running_conn (of_running p) r + total p (unwound l now r s)
unfolding unwound
total-finish p l now conn r s found =
    ground (arith, count-found_running (of_running p) conn s.ending r found)

guarded-finish :
    (t : ℕ) (l : Limits) (now conn : ℕ) (r : Running) (s : State)
    → find_by running_conn conn s.ending ≡ some r
    → IsBalanced s
    → watched t (unwound l now r s).job_start
      ≡ count (is_gpu_on t) s.running + count (is_gpu_on t) (unwound l now r s).ending
unfolding unwound IsBalanced
guarded-finish t l now conn r s found v = ground (
  arith,
  v.guarded t,
  watched-disarm r.1 t s.job_start,
  count-found_running (is_gpu_on t) conn s.ending r found,
)

unwound-IsBalancedButOne :
    (l : Limits) (now conn : ℕ) (r : Running) (npu : Bool) (s : State)
    → find_by running_conn conn s.ending ≡ some r
    → r.0.npu ≡ npu
    → IsBalanced s
    → IsBalancedButOne npu (unwound l now r s)
unfolding IsBalanced unwound
unwound-IsBalancedButOne l now conn r true s found on v = record {
  npu = recount _ (ground (arith, total-finish (is_on true) l now conn r s found)) v.npu;
  gpu = recount _ (ground (arith, total-finish (is_on false) l now conn r s found)) v.gpu;
  counted = omega (
    arith,
    v.counted,
    length-without running_conn r.0.conn s.ending r
        (find_by-key running_conn conn s.ending r found),
  );
  in_bounds = v.in_bounds;
  guarded = λ t. guarded-finish t l now conn r s found v;
}
unwound-IsBalancedButOne l now conn r false s found on v = record {
  npu = recount _ (ground (arith, total-finish (is_on true) l now conn r s found)) v.npu;
  gpu = recount _ (ground (arith, total-finish (is_on false) l now conn r s found)) v.gpu;
  counted = omega (
    arith,
    v.counted,
    length-without running_conn r.0.conn s.ending r
        (find_by-key running_conn conn s.ending r found),
  );
  in_bounds = v.in_bounds;
  guarded = λ t. guarded-finish t l now conn r s found v;
}

pub finish-IsBalanced :
    (l : Limits) (now conn : ℕ) (r : Running) (s : State)
    → find_by running_conn conn s.ending ≡ some r
    → IsBalanced s
    → IsBalanced (finish l now r s)
unfolding finish unwound
finish-IsBalanced l now conn r s found v =
    release_slot-IsBalanced r.0.npu (unwound l now r s)
      (unwound-IsBalancedButOne l now conn r r.0.npu s found refl v)

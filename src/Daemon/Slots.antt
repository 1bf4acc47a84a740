-- ===== src/Daemon/Slots.antt =====
-- The worker slots: every slot is free or held by one job, in every state that the daemon reaches.
use mathlib.Core.Path.{subst}
use ziguijia_translate_ml.Common.{
  ℕ, suc, ◌≡◌, refl, Bool, true, false, not, Option, none, some, ◌+◌, ◌-◌, ◌&&◌, arith, ltb, ◌==◌,
  count, length, count-append, Bool-cases, inl, inr,
}
use ziguijia_translate_ml.Thermal.Hang.{JobStart}
use ziguijia_translate_ml.Daemon.{State, Semaphore, Job, Running, Request, Response, has, failed}
use ziguijia_translate_ml.Daemon.Requests.{
  acquire, release, is_over, release_slot, send_response, submit_job,
}

-- The jobs of the NPU slot, or of the GPU slots.
abbrev pub is_on : Bool → Job → Bool
is_on true j = j.npu
is_on false j = not j.npu

-- A test of the job that a thread runs.
abbrev pub of_running : (Job → Bool) → Running → Bool
of_running p r = p r.0

-- How many jobs that wait, run or end pass a test.
abbrev pub total : (Job → Bool) → State → ℕ
total p s = count p s.queued + (count (of_running p) s.running + count (of_running p) s.ending)

abbrev pub held : Bool → State → ℕ
held b s = total (is_on b) s

-- A semaphore whose free slots and `n` held ones make up its bound.
abbrev pub Accounts : Option Semaphore → ℕ → Type 0
Accounts none n = n ≡ 0
Accounts (some sem) n = sem.permits + n ≡ sem.bound

-- A running job of the GPU on the thread `tid`.
abbrev pub is_gpu_on : ℕ → Running → Bool
is_gpu_on tid r = not r.0.npu && (r.1 == tid)

-- How often the hang guard watches the thread.
abbrev pub watched : ℕ → JobStart → ℕ
watched tid d = count (λ (e : ℕ × ℕ). e.0 == tid) d

-- The slots are accounted for but for `a` of the NPU and `b` of the GPU, which are held besides the
-- jobs of the lists; the jobs that run are counted, and the hang guard watches those on the GPU.
pub record IsBalancedBut (a b : ℕ) (s : State) : Type 0 where
  pub npu : Accounts s.npu_slot_sem (a + held true s)
  pub gpu : Accounts s.gpu_slot_sem (b + held false s)
  pub counted : s.active ≡ length s.running + length s.ending
  pub in_bounds : s.over_released ≡ false
  pub guarded :
      (tid : ℕ)
      → watched tid s.job_start ≡ count (is_gpu_on tid) s.running + count (is_gpu_on tid) s.ending

unfoldable pub IsBalanced : State → Type 0
IsBalanced s = IsBalancedBut 0 0 s

pub recount : {m n : ℕ} (sem : Option Semaphore) → m ≡ n → Accounts sem m → Accounts sem n
recount sem e h = subst (Accounts sem) e h

release-Accounts :
    (sem : Option Semaphore) (n : ℕ)
    → Accounts sem (suc n)
    → Accounts (release sem) n × (is_over sem ≡ false)
unfolding release is_over
release-Accounts none n h = absurd (omega (arith, h))
release-Accounts (some s) n h =
    let below : ltb s.permits s.bound ≡ true = ground (arith, h) in
    rw below (omega (arith, h), refl)

-- No slot is free, or one is taken.
pub data Acquired (sem : Option Semaphore) (n : ℕ) : Type 0 where
  occupied : acquire sem ≡ none → Acquired sem n
  taken :
      (sem' : Option Semaphore) → acquire sem ≡ some sem' → Accounts sem' (suc n) → Acquired sem n

pub acquire-Acquired : (sem : Option Semaphore) (n : ℕ) → Accounts sem n → Acquired sem n
unfolding acquire
acquire-Acquired none n h = occupied refl
acquire-Acquired (some s) n h = elim (Bool-cases (ltb 0 s.permits)) [
  | inl free ↦
      taken (some (record s { permits = s.permits - 1 })) (rw free refl) (ground (arith, h))
  | inr full ↦ occupied (rw full refl)
]

pub IsBalancedBut-send_response :
    (a b conn : ℕ) (resp : Response) (s : State)
    → IsBalancedBut a b s
    → IsBalancedBut a b (send_response conn resp s)
unfolding send_response
IsBalancedBut-send_response a b conn resp s v = elim (Bool-cases (has conn s.closed)) [
  | inl shut ↦ rw shut v
  | inr listening ↦ rw listening (record {
    npu = v.npu;
    gpu = v.gpu;
    counted = v.counted;
    in_bounds = v.in_bounds;
    guarded = v.guarded;
  })
]

-- One slot of the NPU, or of the GPU, that no job of the lists holds.
abbrev pub IsBalancedButOne : Bool → State → Type 0
IsBalancedButOne true s = IsBalancedBut 1 0 s
IsBalancedButOne false s = IsBalancedBut 0 1 s

pub release_slot-IsBalanced :
    (npu : Bool) (s : State) → IsBalancedButOne npu s → IsBalanced (release_slot npu s)
unfolding release_slot IsBalanced
release_slot-IsBalanced true s v =
    let (freed, sound) =
      release-Accounts s.npu_slot_sem (held true s) (recount _ (omega arith) v.npu) in
    record {
      npu = recount _ (omega arith) freed;
      gpu = v.gpu;
      counted = v.counted;
      in_bounds = ground (arith, v.in_bounds, sound);
      guarded = v.guarded;
    }
release_slot-IsBalanced false s v =
    let (freed, sound) =
      release-Accounts s.gpu_slot_sem (held false s) (recount _ (omega arith) v.gpu) in
    record {
      npu = v.npu;
      gpu = recount _ (omega arith) freed;
      counted = v.counted;
      in_bounds = ground (arith, v.in_bounds, sound);
      guarded = v.guarded;
    }

pub submit_job-IsBalanced :
    (accepts : Bool) (conn : ℕ) (req : Request) (npu : Bool) (s : State)
    → IsBalancedButOne npu s
    → IsBalanced (submit_job accepts conn req npu s)
unfolding submit_job IsBalanced
submit_job-IsBalanced true conn req true s v = record {
  npu = recount _ (omega (arith, count-append (is_on true) s.queued _)) v.npu;
  gpu = recount _ (omega (arith, count-append (is_on false) s.queued _)) v.gpu;
  counted = v.counted;
  in_bounds = v.in_bounds;
  guarded = v.guarded;
}
submit_job-IsBalanced true conn req false s v = record {
  npu = recount _ (omega (arith, count-append (is_on true) s.queued _)) v.npu;
  gpu = recount _ (omega (arith, count-append (is_on false) s.queued _)) v.gpu;
  counted = v.counted;
  in_bounds = v.in_bounds;
  guarded = v.guarded;
}
submit_job-IsBalanced false conn req npu s v =
    IsBalancedBut-send_response 0 0 conn (failed "daemon shutting down") (release_slot npu s)
      (release_slot-IsBalanced npu s v)

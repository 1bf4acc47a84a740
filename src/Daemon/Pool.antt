-- ===== src/Daemon/Pool.antt =====
-- The contract of the translation daemon's slots: two counters with a capacity each, and the moves of
-- a pool that takes the NPU first.
use ziguijia_translate_ml.Common.{ℕ, suc, ◌≡◌, Bool, true, false, ◌<◌}
use ziguijia_translate_ml.Daemon.{State}
use ziguijia_translate_ml.Daemon.Slots.{held}
use ziguijia_translate_ml.Daemon.Capacity.{bound_of}

-- The slots of the NPU and of the GPU that are in use.
pub record Pool : Type 0 where
  pub npu_used : ℕ
  pub gpu_used : ℕ

-- One move: the pool stays, takes one slot more, or gives one back. A slot of the GPU is only taken
-- when those of the NPU are all in use.
pub data Move (npu_slots gpu_slots : ℕ) (p q : Pool) : Type 0 where
  stay : q.npu_used ≡ p.npu_used → q.gpu_used ≡ p.gpu_used → Move npu_slots gpu_slots p q
  take_npu :
      p.npu_used < npu_slots
      → q.npu_used ≡ suc p.npu_used
      → q.gpu_used ≡ p.gpu_used
      → Move npu_slots gpu_slots p q
  take_gpu :
      p.npu_used ≡ npu_slots
      → p.gpu_used < gpu_slots
      → q.npu_used ≡ p.npu_used
      → q.gpu_used ≡ suc p.gpu_used
      → Move npu_slots gpu_slots p q
  give_npu : p.npu_used ≡ suc q.npu_used → q.gpu_used ≡ p.gpu_used → Move npu_slots gpu_slots p q
  give_gpu : q.npu_used ≡ p.npu_used → p.gpu_used ≡ suc q.gpu_used → Move npu_slots gpu_slots p q

-- The pool that a state of the daemon stands for, and its slots.
abbrev pub view : State → Pool
view s = record { npu_used = held true s; gpu_used = held false s }

abbrev pub Moves : State → State → Type 0
Moves s t = Move (bound_of s.npu_slot_sem) (bound_of s.gpu_slot_sem) (view s) (view t)

pub same-Moves : (s t : State) → ((b : Bool) → held b t ≡ held b s) → Moves s t
same-Moves s t same = stay (same true) (same false)

-- ===== src/Speech/Loads/Apart.antt =====
-- When loads and generations are kept apart, and when they are not.
use ziguijia_translate_ml.Common.{ℕ, false, ◌+◌, ◌≤◌, ◌<◌, ◌≡◌, arith, if◌then◌else◌}
use ziguijia_translate_ml.Speech.Loads.{
  Threads, begin, announce, break_out, take_mutex, give_mutex, leave, enter, exit, Step, announced,
  broke_out, took_mutex, gave_mutex, left, entered, exited, Steps, none_yet, and_step, Overlaps,
  loads_under_way, IsAlone, LoneSteps,
}

-- The counter and the mutex tell the truth, and no thread is lost.
pub record IsSound (max_jobs : ℕ) (s : Threads) : Type 0 where
  pub counted : s.gens_active ≡ s.generating
  pub held : (if s.load_mutex then 1 else 0) ≡ s.loading
  pub threads : s.idle + loads_under_way s + s.generating ≡ max_jobs

Step-IsSound : {max_jobs : ℕ} {s t : Threads} → Step s t → IsSound max_jobs s → IsSound max_jobs t
unfolding announce break_out take_mutex give_mutex leave enter exit
Step-IsSound (announced h) v = ground arith
Step-IsSound (broke_out h g) v = ground arith
Step-IsSound (took_mutex h m) v = ground arith
Step-IsSound (gave_mutex h) v = ground arith
Step-IsSound (left h) v = ground arith
Step-IsSound (entered h l) v = ground arith
Step-IsSound (exited h) v = ground arith

-- In every interleaving the mutex admits one load at a time, the counter is the number of the
-- generations in flight, and the threads that load and generate are no more than the workers.
pub Steps-IsSound : {max_jobs : ℕ} {s : Threads} → Steps (begin max_jobs) s → IsSound max_jobs s
unfolding begin
Steps-IsSound none_yet = ground arith
Steps-IsSound (and_step r st) = Step-IsSound st (Steps-IsSound r)

record IsApart (s : Threads) : Type 0 where
  flag : s.load_active ≡ false → loads_under_way s ≡ 0
  one : loads_under_way s ≤ 1
  counted : s.gens_active ≡ s.generating
  apart : 0 < s.past + s.loading → s.generating ≡ 0

Step-IsApart : {s t : Threads} (st : Step s t) → IsAlone st → IsApart s → IsApart t
unfolding announce break_out take_mutex give_mutex leave enter exit
Step-IsApart (announced h) alone v = ground (arith, v.flag, v.apart)
Step-IsApart (broke_out h g) alone v = ground (arith, v.flag, v.apart)
Step-IsApart (took_mutex h m) alone v = ground (arith, v.flag, v.apart)
Step-IsApart (gave_mutex h) alone v = ground (arith, v.flag, v.apart)
Step-IsApart (left h) alone v = ground (arith, v.flag, v.apart)
Step-IsApart (entered h l) alone v = ground (arith, v.flag, v.apart)
Step-IsApart (exited h) alone v = ground (arith, v.flag, v.apart)

LoneSteps-IsApart : (max_jobs : ℕ) {s : Threads} → LoneSteps (begin max_jobs) s → IsApart s
unfolding begin
LoneSteps-IsApart max_jobs none_yet = ground arith
LoneSteps-IsApart max_jobs (and_step r st alone) =
    Step-IsApart st alone (LoneSteps-IsApart max_jobs r)

-- As long as no thread announces a load while another load is under way, no load runs while a
-- generation does.
pub not-Overlaps : (max_jobs : ℕ) {s : Threads} → LoneSteps (begin max_jobs) s → ¬ Overlaps s
not-Overlaps max_jobs r h = let v = LoneSteps-IsApart max_jobs r in omega (arith, v.apart)

-- One thread loads and another one stands before the mutex: the first one may leave and generate while
-- the second one loads.
Overlaps-take_mutex :
    {r s : Threads}
    → Steps r s
    → 0 < s.loading
    → 0 < s.past
    → (t : Threads) × Steps r t × Overlaps t
unfolding announce break_out take_mutex give_mutex leave enter exit
Overlaps-take_mutex {r} {s} run l p =
    let a = give_mutex s in
    let b = leave a in
    let c = enter b in
    let left_it : Steps r b = and_step (and_step run (gave_mutex l)) (left (ground arith)) in
    let generates : Steps r c = and_step left_it (entered (ground arith) (ground arith)) in
    (
      take_mutex c,
      and_step generates (took_mutex (ground arith) (ground arith)),
      (ground arith, ground arith),
    )

-- With two workers or more, loads and generations are not kept apart: from the start a run leads to a
-- load during a generation, since the thread that leaves the first of two loads clears the flag of
-- both.
pub Overlaps-begin :
    (max_jobs : ℕ) → 1 < max_jobs → (t : Threads) × Steps (begin max_jobs) t × Overlaps t
unfolding begin announce break_out take_mutex give_mutex leave enter exit
Overlaps-begin max_jobs h =
    let a = announce (announce (begin max_jobs)) in
    let b = take_mutex (break_out (break_out a)) in
    let announce_both : Steps (begin max_jobs) a =
      and_step (and_step none_yet (announced (ground arith))) (announced (ground arith)) in
    let pass_both : Steps (begin max_jobs) (break_out (break_out a)) =
      and_step (and_step announce_both (broke_out (ground arith) (ground arith)))
        (broke_out (ground arith) (ground arith)) in
    let loads : Steps (begin max_jobs) b =
      and_step pass_both (took_mutex (ground arith) (ground arith)) in
    Overlaps-take_mutex loads (ground arith) (ground arith)

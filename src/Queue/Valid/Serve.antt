-- ===== src/Queue/Valid/Serve.antt =====
-- A turn of the worker's loop and the invariant of the job queue.
use ziguijia_translate_ml.Common.{
  ℕ, String, ◌≡◌, ◌≢◌, refl, Bool, true, false, Option, none, some, List, [], ◌∷◌, arith, str_eq,
  eq_iff, elem, Bool-cases, inl, inr, is_some,
}
use ziguijia_translate_ml.Job.Handlers.{Imported, attribute}
use ziguijia_translate_ml.Queue.{JobQueue, emit, clean_orphans, queue_pop}
use ziguijia_translate_ml.Queue.Frame.{jobs-queue_pop, memory-queue_pop}
use ziguijia_translate_ml.Queue.Worker.{Handler, Failures}
use ziguijia_translate_ml.Queue.Loop.{
  take_code, serve, goes_on, left, memory_pop, next_code, or_memory, process_queue_turn,
}
use ziguijia_translate_ml.Queue.Valid.{IsValid, IsValid-same}
use ziguijia_translate_ml.Queue.Valid.Taken.{IsValidBut, IsValidBut-of_IsValid, Keeps, loses}
use ziguijia_translate_ml.Queue.Valid.Turns.{process_code-IsValid}

-- What `next_code` gives leaves the invariant but for the job that it takes.
NextValid : Option String × JobQueue → Type 0
NextValid (none, q) = IsValid q
NextValid (some code, q) = IsValidBut code q

memory_pop-NextValid : (q : JobQueue) → IsValid q → NextValid (memory_pop q)
unfolding memory_pop NextValid
memory_pop-NextValid q v = from_memory q.memory refl
  where
    from_memory :
        (m : List String)
        → q.memory ≡ m
        → NextValid
            (elim m [ [] ↦ (none, q) | code ∷ rest ↦ (some code, record q { memory = rest }) ])
    from_memory [] e = v
    from_memory (code ∷ rest) e = record {
      keyed = v.keyed;
      queued = λ j r other found w. in_rest j other (rw e at (v.queued j r found w));
    }
      where
        in_rest :
            (j : String) → str_eq code j ≡ false → elem j (code ∷ rest) ≡ true → elem j rest ≡ true
        in_rest j other h = ground (arith, eq_iff code j, eq_iff j code)

next_code-NextValid : (q : JobQueue) → IsValid q → NextValid (next_code q)
unfolding next_code or_memory NextValid
next_code-NextValid q v =
    from_valkey (queue_pop q) (IsValid-same (jobs-queue_pop q) (memory-queue_pop q) v)
  where
    from_valkey : (o : Option String × JobQueue) → IsValid o.1 → NextValid (or_memory o)
    from_valkey (some code, q) v = IsValidBut-of_IsValid code q v
    from_valkey (none, q) v = memory_pop-NextValid q v

module _ (import_attr : String → String → Imported Handler) (fails : Failures) (now now' : ℕ)
    (safe : loses fails ≡ false)
    (handlers_keep : (m a : String) (h : Handler) → import_attr m a ≡ attribute h → Keeps h) where
  take_code-IsValid :
      (o : Option String × JobQueue)
      → NextValid o
      → IsValid (take_code import_attr fails now now' o).1
  unfolding take_code NextValid
  take_code-IsValid (none, q) v = v
  take_code-IsValid (some code, q) v =
      process_code-IsValid import_attr fails now now' safe handlers_keep code q v

  serve-IsValid :
      (q : JobQueue)
      → IsValid q
      → (serve import_attr fails now now' q).0 ≢ left
      → IsValid (serve import_attr fails now now' q).1
  unfolding serve
  serve-IsValid q v stays = elim (Bool-cases q.graceful_shutdown) [
    | inl closing ↦ elim (Bool-cases (is_some q.current)) [
      | inl busy ↦ simp (closing, busy) v
      | inr free ↦ absurd (stays (simp (closing, free)))
    ]
    | inr serving ↦ simp serving (take_code-IsValid (next_code q) (next_code-NextValid q v))
  ]

  -- As long as the loop goes on, a turn keeps the invariant: whatever job it takes, runs or skips,
  -- codes stay unique and every pending job stands in the in-memory queue, where every handler, with
  -- all that other threads do while it runs, keeps that, and unless a statement of the database
  -- fails before the handler and so do both attempts to mark the job as failed.
  pub process_queue_turn-IsValid :
      (me : ℕ) (orphans_due : Bool) (q : JobQueue)
      → IsValid q
      → (process_queue_turn import_attr fails now now' me orphans_due q).0 ≢ left
      → IsValid (process_queue_turn import_attr fails now now' me orphans_due q).1
  unfolding process_queue_turn
  process_queue_turn-IsValid me orphans_due q v stays = elim (Bool-cases (goes_on me q)) [
    | inl on ↦ elim (Bool-cases orphans_due) [
      | inl due ↦
          rw (on, due)
            (serve-IsValid (emit clean_orphans q) (IsValid-same refl refl v)
              (rw (on, due) at stays))
      | inr not_due ↦ rw (on, not_due) (serve-IsValid q v (rw (on, not_due) at stays))
    ]
    | inr off ↦ absurd (stays (rw off refl))
  ]

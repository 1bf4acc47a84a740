-- ===== src/Daemon/Fair.antt =====
-- What every operation keeps of the responses that are due.
use ziguijia_translate_ml.Common.{
  ℕ, suc, ◌≡◌, refl, ◌∙◌, Bool, true, false, some, ◌∷◌, ◌+◌, ◌≤◌, ◌<◌, arith, ◌==◌, count, find_by,
  without, count-without, find_by-key, weight,
}
use ziguijia_translate_ml.Thermal.{Limits}
use ziguijia_translate_ml.Daemon.{
  Config, State, Job, Running, Request, Response, has, job_conn, running_conn,
}
use ziguijia_translate_ml.Daemon.Requests.{
  Input, Input, nothing, socket_error, malformed, not_object, parsed, release_slot, send_response,
  handle,
}
use ziguijia_translate_ml.Daemon.Jobs.{start_job, moved, respond, unwound, finish}
use ziguijia_translate_ml.Daemon.Answers.{
  answered, waiting, Handled, placed, replied, handle_command-Handled,
}

-- The responses that a connection has had, and those that are still due.
abbrev pub owed : ℕ → State → ℕ
owed c s = answered c s + waiting c s

-- A connection that is still to come has nothing; a job that is not answered has its connection open;
-- and no connection has more than one response.
pub record IsFair (s : State) : Type 0 where
  pub unused : (c : ℕ) → s.next_conn ≤ c → owed c s ≡ 0
  pub unclosed : (c : ℕ) → s.next_conn ≤ c → has c s.closed ≡ false
  pub listening : (c : ℕ) → 0 < waiting c s → has c s.closed ≡ false
  pub once : (c : ℕ) → owed c s ≤ 1

-- What stands for every connection that was accepted before; none is handed out again.
pub record Owes (s t : State) : Type 0 where
  pub later : s.next_conn ≤ t.next_conn
  pub same : (c : ℕ) → c < s.next_conn → owed c t ≡ owed c s

Owes-trans : {s t u : State} → Owes s t → Owes t u → Owes s u
Owes-trans first second = record {
  later = omega (arith, first.later, second.later);
  same = λ c old. second.same c (omega (arith, old, first.later)) ∙ first.same c old;
}

pub and_then :
    {s t u : State} → IsFair t × Owes s t → (IsFair t → IsFair u × Owes t u) → IsFair u × Owes s u
and_then (v, owes) next = let (w, owes') = next v in (w, Owes-trans owes owes')

accept : State → State
accept s = record s { next_conn = suc s.next_conn }

Handled-IsFair :
    (s t : State)
    → Handled s.next_conn (accept s) t
    → IsFair s
    → IsFair t × (Owes s t × (owed s.next_conn t ≡ 1))
unfolding accept
Handled-IsFair s t (placed a w h n) v = (
  record {
    unused = λ c le. ground (arith, a c, w c, n, v.unused c);
    unclosed = λ c le. ground (arith, h c, n, v.unclosed c);
    listening = λ c some_job. ground (arith, w c, h c, v.listening c, v.unclosed c);
    once = λ c. ground (arith, a c, w c, v.once c, v.unused c);
  },
  (
    record { later = ground (arith, n); same = λ c old. ground (arith, a c, w c) },
    ground (arith, a s.next_conn, w s.next_conn, v.unused s.next_conn),
  ),
)
Handled-IsFair s t (replied a w h n) v = (
  record {
    unused = λ c le. ground (arith, a c, w c, n, v.unused c);
    unclosed = λ c le. ground (arith, h c, n, v.unclosed c);
    listening = λ c some_job. ground (arith, w c, h c, v.listening c, v.unused c);
    once = λ c. ground (arith, a c, w c, v.once c, v.unused c);
  },
  (
    record { later = ground (arith, n); same = λ c old. ground (arith, a c, w c) },
    ground (arith, a s.next_conn, w s.next_conn, v.unused s.next_conn),
  ),
)

-- The connection is closed without a response.
unfoldable pub dropped : State → State
dropped s = record s { next_conn = suc s.next_conn; closed = s.next_conn ∷ s.closed }

dropped-IsFair : (s : State) → IsFair s → IsFair (dropped s) × Owes s (dropped s)
unfolding dropped
dropped-IsFair s v = (
  record {
    unused = λ c le. v.unused c (omega (arith, le));
    unclosed = λ c le. ground (arith, v.unclosed c);
    listening = λ c some_job. ground (arith, v.listening c some_job, v.unused c);
    once = v.once;
  },
  record { later = omega arith; same = λ c old. refl },
)

accept-IsFair : (s : State) → IsFair s → IsFair (accept s) × Owes s (accept s)
unfolding accept
accept-IsFair s v = (
  record {
    unused = λ c le. v.unused c (omega (arith, le));
    unclosed = λ c le. v.unclosed c (omega (arith, le));
    listening = v.listening;
    once = v.once;
  },
  record { later = omega arith; same = λ c old. refl },
)

send_response_closed :
    (conn : ℕ) (resp : Response) (s : State)
    → has conn s.closed ≡ true
    → send_response conn resp s ≡ s
unfolding send_response
send_response_closed conn resp s shut = rw shut refl

pub handle_malformed :
    (c : Config) (accepts : Bool) (s : State) → handle c accepts malformed s ≡ dropped s
unfolding handle dropped
handle_malformed c accepts s =
    send_response_closed s.next_conn _
      (record s { next_conn = suc s.next_conn; closed = s.next_conn ∷ s.closed }) (ground arith)

pub handle_parsed :
    (c : Config) (accepts : Bool) (req : Request) (s : State)
    → IsFair s
    → IsFair (handle c accepts (parsed req) s)
      × (Owes s (handle c accepts (parsed req) s)
          × (owed s.next_conn (handle c accepts (parsed req) s) ≡ 1))
unfolding handle accept
handle_parsed c accepts req s v =
    Handled-IsFair s _
      (handle_command-Handled c accepts s.next_conn req req.cmd (accept s)
        (v.unclosed s.next_conn (omega arith)))
      v

pub handle-IsFair :
    (c : Config) (accepts : Bool) (input : Input) (s : State)
    → IsFair s
    → IsFair (handle c accepts input s) × Owes s (handle c accepts input s)
unfolding handle dropped accept
handle-IsFair c accepts nothing s v = dropped-IsFair s v
handle-IsFair c accepts socket_error s v = accept-IsFair s v
handle-IsFair c accepts not_object s v = accept-IsFair s v
handle-IsFair c accepts malformed s v = rw (handle_malformed c accepts s) (dropped-IsFair s v)
handle-IsFair c accepts (parsed req) s v =
    let (fair, (same, _)) = handle_parsed c accepts req s v in (fair, same)

-- A state with the same responses, and the same jobs that are not answered.
pub Same-IsFair :
    (s t : State)
    → ((c : ℕ) → answered c t ≡ answered c s)
    → ((c : ℕ) → waiting c t ≡ waiting c s)
    → ((c : ℕ) → has c t.closed ≡ has c s.closed)
    → t.next_conn ≡ s.next_conn
    → IsFair s
    → IsFair t × Owes s t
Same-IsFair s t a w h n v = (
  record {
    unused = λ c le. ground (arith, a c, w c, n, v.unused c);
    unclosed = λ c le. ground (arith, h c, n, v.unclosed c);
    listening = λ c some_job. ground (arith, h c, w c, v.listening c);
    once = λ c. ground (arith, a c, w c, v.once c);
  },
  record { later = omega (arith, n); same = λ c old. ground (arith, a c, w c) },
)

pub start_job-IsFair :
    (tid now conn : ℕ) (job : Job) (s : State)
    → find_by job_conn conn s.queued ≡ some job
    → IsFair s
    → IsFair (start_job tid now job s) × Owes s (start_job tid now job s)
unfolding start_job
start_job-IsFair tid now conn job s found v =
    Same-IsFair s _ (λ c. refl)
      (λ c. ground (
        arith,
        count-without job_conn (λ j. job_conn j == c) job.conn s.queued job
            (find_by-key job_conn conn s.queued job found),
      ))
      (λ c. refl) refl v

pub respond-IsFair :
    (conn : ℕ) (r : Running) (resp : Response) (s : State)
    → find_by running_conn conn s.running ≡ some r
    → IsFair s
    → IsFair (respond r resp s) × Owes s (respond r resp s)
unfolding respond moved send_response
respond-IsFair conn r resp s found v = rw shut (
    (
      record {
        unused = λ c le. ground (arith, counted c, v.unused c);
        unclosed = λ c le. ground (arith, counted c, v.unused c, v.unclosed c);
        listening = λ c some_job. ground (arith, counted c, v.listening c, v.once c);
        once = λ c. ground (arith, counted c, v.once c);
      },
      record { later = omega arith; same = λ c old. ground (arith, counted c) },
    ))
  where
    counted :
        (c : ℕ)
        → count (λ r'. running_conn r' == c) s.running
          ≡ count (λ r'. running_conn r' == c) (without running_conn r.0.conn s.running)
            + weight running_conn (λ r'. running_conn r' == c) r
    counted c =
        count-without running_conn (λ r'. running_conn r' == c) r.0.conn s.running r
          (find_by-key running_conn conn s.running r found)

    shut : has r.0.conn s.closed ≡ false
    shut = v.listening r.0.conn (ground (arith, counted r.0.conn))

pub finish-IsFair :
    (l : Limits) (now : ℕ) (r : Running) (s : State)
    → IsFair s
    → IsFair (finish l now r s) × Owes s (finish l now r s)
unfolding finish unwound release_slot
finish-IsFair l now r s v = released r.0.npu
  where
    released :
        (npu : Bool)
        → IsFair (release_slot npu (unwound l now r s))
          × Owes s (release_slot npu (unwound l now r s))
    released true = Same-IsFair s _ (λ c. refl) (λ c. refl) (λ c. refl) refl v
    released false = Same-IsFair s _ (λ c. refl) (λ c. refl) (λ c. refl) refl v

-- ===== src/Pipeline/Laws.antt =====
-- What a step that a checkpoint guards does to the steps that are done.
use mathlib.Core.Path.{subst}
use ziguijia_translate_ml.Common.{
  String, ◌≡◌, refl, ap, sym, ◌∙◌, Bool, true, some, ◌&&◌, ◌||◌, arith, str_eq, eq_refl,
  is_nonempty, is_some, IsPiece, Bool-cases, Option-cases, inl, inr,
}
use ziguijia_translate_ml.Sql.{select}
use ziguijia_translate_ml.Sql.Laws.{select-update_key}
use ziguijia_translate_ml.Queue.{JobQueue}
use ziguijia_translate_ml.Checkpoint.{mark, is_valid_step, set_checkpoint}
use ziguijia_translate_ml.Checkpoint.Steps.{mark_lem}
use ziguijia_translate_ml.Pipeline.{
  Result, ok, error, CheckpointHelper, is_done, mark_step, and_then, marked, checkpointed, outside,
  giving,
}

-- The job is in the table.
abbrev pub has_job : CheckpointHelper → JobQueue → Bool
has_job c q = is_some (select c.access_code q.jobs)

has_job-set_checkpoint :
    (c : CheckpointHelper) (ckpt : String) (q : JobQueue)
    → has_job c (set_checkpoint c.access_code ckpt q) ≡ has_job c q
unfolding set_checkpoint
has_job-set_checkpoint c ckpt q = rw (select-update_key, eq_refl) (ground arith)

has_job-mark_step :
    (c : CheckpointHelper) (name : String) (q : JobQueue)
    → has_job c (mark_step (some c) name q) ≡ has_job c q
unfolding mark_step mark
has_job-mark_step c name q = has_job-set_checkpoint c _ q

is_done-mark_step :
    (c : CheckpointHelper) (name j : String) (q : JobQueue)
    → has_job c q ≡ true
    → IsPiece name
    → is_nonempty j ≡ true
    → is_done (some c) j (mark_step (some c) name q)
      ≡ (is_done (some c) j q || (is_valid_step c.valid_steps j && str_eq j name))
unfolding mark_step is_done
is_done-mark_step c name j q has piece named = elim (Option-cases (select c.access_code q.jobs)) [
  | inl missing ↦ ground arith
  | inr (r, found) ↦ mark_lem c.valid_steps c.access_code q r found j named name piece
]

-- From a state with the job in the table, the statement ends in such a state, and every step that
-- was done is done then, whether it returned or raised.
unfoldable pub KeepsDone :
    {A W : Type 0} → CheckpointHelper → (JobQueue × W → Result A × (JobQueue × W)) → Type 0
KeepsDone {A} {W} c f =
    (s : JobQueue × W)
    → has_job c s.0 ≡ true
    → (has_job c (f s).1.0 ≡ true)
      × ((j : String)
          → is_nonempty j ≡ true
          → is_done (some c) j s.0 ≡ true
          → is_done (some c) j (f s).1.0 ≡ true)

mark_step-keeps :
    (c : CheckpointHelper) (name : String) (q : JobQueue)
    → IsPiece name
    → has_job c q ≡ true
    → (has_job c (mark_step (some c) name q) ≡ true)
      × ((j : String)
          → is_nonempty j ≡ true
          → is_done (some c) j q ≡ true
          → is_done (some c) j (mark_step (some c) name q) ≡ true)
mark_step-keeps c name q piece has = (
  has_job-mark_step c name q ∙ has,
  λ j named was. is_done-mark_step c name j q has piece named ∙ rw was refl,
)

-- A statement makes the step done when it returns, where that is one of the job's valid steps.
unfoldable pub Completes :
    {A W : Type 0} → CheckpointHelper → String → (JobQueue × W → Result A × (JobQueue × W)) → Type 0
Completes {A} {W} c name f =
    (s s' : JobQueue × W) (a : A)
    → is_valid_step c.valid_steps name ≡ true
    → has_job c s.0 ≡ true
    → f s ≡ (ok a, s')
    → is_done (some c) name s'.0 ≡ true

-- A statement returns the given value and changes nothing where the step is done.
unfoldable pub Skips :
    {A W : Type 0}
    → CheckpointHelper
    → String
    → A
    → (JobQueue × W → Result A × (JobQueue × W))
    → Type 0
Skips {A} {W} c name skipped f =
    (s : JobQueue × W) → is_done (some c) name s.0 ≡ true → f s ≡ (ok skipped, s)

module _ {W : Type 0} (c : CheckpointHelper) where
  pub outside-KeepsDone : {A : Type 0} (f : W → Result A × W) → KeepsDone c (outside f)
  unfolding KeepsDone
  outside-KeepsDone f (q, w) has = (has, λ j named was. was)

  pub checkpointed-KeepsDone :
      {A : Type 0} (name : String) (skipped : A) (body : W → Result A × W)
      → IsPiece name
      → KeepsDone c (checkpointed (some c) name skipped body)
  unfolding KeepsDone checkpointed
  checkpointed-KeepsDone {A} name skipped body piece (q, w) has =
      elim (Bool-cases (is_done (some c) name q)) [
        | inl before ↦ rw before (has, λ j named was. was)
        | inr fresh ↦ rw fresh (ended (body w))
      ]
    where
      ended :
          (o : Result A × W)
          → (has_job c (marked (some c) name q o).1.0 ≡ true)
            × ((j : String)
                → is_nonempty j ≡ true
                → is_done (some c) j q ≡ true
                → is_done (some c) j (marked (some c) name q o).1.0 ≡ true)
      ended (ok a, w') = mark_step-keeps c name q piece has
      ended (error e, w') = (has, λ j named was. was)

  pub and_then-KeepsDone :
      {A B : Type 0} (f : JobQueue × W → Result A × (JobQueue × W))
      (g : A → JobQueue × W → Result B × (JobQueue × W))
      → KeepsDone c f
      → ((a : A) → KeepsDone c (g a))
      → KeepsDone c (λ s. and_then (f s) g)
  unfolding KeepsDone
  and_then-KeepsDone {A} {B} f g kf kg s has = next (f s) (kf s has)
    where
      next :
          (o : Result A × (JobQueue × W))
          → (has_job c o.1.0 ≡ true)
            × ((j : String)
                → is_nonempty j ≡ true
                → is_done (some c) j s.0 ≡ true
                → is_done (some c) j o.1.0 ≡ true)
          → (has_job c (and_then o g).1.0 ≡ true)
            × ((j : String)
                → is_nonempty j ≡ true
                → is_done (some c) j s.0 ≡ true
                → is_done (some c) j (and_then o g).1.0 ≡ true)
      next (ok a, s') h = let k = kg a s' h.0 in (k.0, λ j named was. k.1 j named (h.1 j named was))
      next (error e, s') h = h

  -- A statement that returns and leaves the database as it is.
  pub returns-KeepsDone :
      {A : Type 0} (a : A) (g : W → W) → KeepsDone c (λ (s : JobQueue × W). (ok a, (s.0, g s.1)))
  unfolding KeepsDone
  returns-KeepsDone a g s has = (has, λ j named was. was)

  pub giving-KeepsDone : {A : Type 0} (a : A) (f : W → Result Unit × W) → KeepsDone c (giving a f)
  giving-KeepsDone a f =
      and_then-KeepsDone (outside f) (λ _ t. (ok a, t)) (outside-KeepsDone f)
        (λ _. returns-KeepsDone a (λ w. w))

  pub checkpointed-Completes :
      {A : Type 0} (name : String) (skipped : A) (body : W → Result A × W)
      → IsPiece name
      → Completes c name (checkpointed (some c) name skipped body)
  unfolding checkpointed Completes
  checkpointed-Completes {A} name skipped body piece (q, w) s' a valid has e =
      elim (Bool-cases (is_done (some c) name q)) [
        | inl before ↦
            ap (λ (x : Result A × (JobQueue × W)). is_done (some c) name x.1.0)
              (sym (rw before at e))
            ∙ before
        | inr fresh ↦ ended (body w) (rw fresh at e)
      ]
    where
      ended :
          (o : Result A × W)
          → marked (some c) name q o ≡ (ok a, s')
          → is_done (some c) name s'.0 ≡ true
      ended (ok b, w') e' =
          ap (λ (x : Result A × (JobQueue × W)). is_done (some c) name x.1.0) (sym e')
          ∙ (is_done-mark_step c name name q has piece piece.0 ∙ rw (valid, eq_refl) (ground arith))
      ended (error x, w') e' = cc

  pub checkpointed-Skips :
      {A : Type 0} (name : String) (skipped : A) (body : W → Result A × W)
      → Skips c name skipped (checkpointed (some c) name skipped body)
  unfolding checkpointed Skips
  checkpointed-Skips name skipped body (q, w) e = rw e refl

  pub KeepsDone-result :
      {A : Type 0} (f : JobQueue × W → Result A × (JobQueue × W)) (s : JobQueue × W)
      (o : Result A × (JobQueue × W))
      → KeepsDone c f
      → f s ≡ o
      → has_job c s.0 ≡ true
      → (has_job c o.1.0 ≡ true)
        × ((j : String)
            → is_nonempty j ≡ true
            → is_done (some c) j s.0 ≡ true
            → is_done (some c) j o.1.0 ≡ true)
  unfolding KeepsDone
  KeepsDone-result {A} f s o keeps e has =
      subst
        (λ (x : Result A × (JobQueue × W)).
          (has_job c x.1.0 ≡ true)
          × ((j : String)
              → is_nonempty j ≡ true
              → is_done (some c) j s.0 ≡ true
              → is_done (some c) j x.1.0 ≡ true))
        e (keeps s has)

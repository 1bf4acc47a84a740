-- ===== src/Checkpoint/Files/Laws.antt =====
-- What an invalidation leaves of the steps that are done and of the files.

use mathlib.Core.Path.{subst}
use ziguijia_translate_ml.Common.{
  ℕ, suc, ltb, lookup, All, if◌then◌else◌, refl, String, ◌≡◌, Bool, true, not, Option, some, List,
  [], ◌∷◌, ◌&&◌, arith, elem, str_eq, eq_iff, is_nonempty, Bool-cases, inl, inr,
}
use ziguijia_translate_ml.Sql.{select}
use ziguijia_translate_ml.Job.{Row}
use ziguijia_translate_ml.Queue.{JobQueue}
use ziguijia_translate_ml.Checkpoint.{done, checkpoint_order, filename_to_checkpoint_step}
use ziguijia_translate_ml.Checkpoint.Steps.{remove_steps_lem}
use ziguijia_translate_ml.Checkpoint.Files.{
  Files, steps_after, is_invalidated, invalidate_checkpoints_after,
}

-- There is neither a file nor a directory at the path.
abbrev pub is_absent : String → Files → Bool
is_absent p fs = not (fs.is_dir p) && not (fs.is_file p)

-- Where a step stands in an order, and that no step stands there twice.
abbrev pub position : String → List String → ℕ
position s [] = 0
position s (x ∷ xs) = let rest = position s xs in if str_eq s x then 0 else suc rest

abbrev distinct : List String → Bool
distinct [] = true
distinct (x ∷ xs) = not (elem x xs) && distinct xs

-- The second step comes later in the order of the steps than the first.
abbrev pub comes_after : (step later : String) → Bool
comes_after step later =
    elem later checkpoint_order
    && ltb (position step checkpoint_order) (position later checkpoint_order)

elem-steps_after :
    (step later : String) (order : List String)
    → distinct order ≡ true
    → elem step order ≡ true
    → elem later (steps_after step order)
      ≡ (elem later order && ltb (position step order) (position later order))
elem-steps_after step later [] d e = cc
elem-steps_after step later (x ∷ xs) d e = ground (
  arith,
  eq_iff step x,
  eq_iff x step,
  eq_iff later x,
  eq_iff x later,
  elem-steps_after step later xs,
)

lookup-All :
    (P : String → Type 0) (name step : String) (d : List (String × String))
    → All (λ e. P e.1) d
    → lookup name d ≡ some step
    → P step
lookup-All P name step [] all found = cc
lookup-All P name step ((k, v) ∷ d) all found = elim (Bool-cases (str_eq name k)) [
  | inl here ↦ subst P (some-inj (rw here at found)) all.0
  | inr there ↦ lookup-All P name step d all.1 (rw there at found)
]
  where
    some-inj : some v ≡ some step → v ≡ step
    some-inj e = cc

-- The steps of the files that can be edited are steps of the order.
known-elem :
    (name step : String)
    → lookup name filename_to_checkpoint_step ≡ some step
    → elem step checkpoint_order ≡ true
known-elem name step known =
    lookup-All (λ s. elem s checkpoint_order ≡ true) name step filename_to_checkpoint_step
      (refl, (refl, (refl, (refl, tt)))) known

-- What is invalidated behind the step of a file comes later.
pub is_invalidated-comes_after :
    (name step later : String)
    → lookup name filename_to_checkpoint_step ≡ some step
    → is_invalidated step later ≡ comes_after step later
is_invalidated-comes_after name step later known =
    rw (known-elem name step known)
      (elem-steps_after step later checkpoint_order refl (known-elem name step known))

module _ (removal_fails : String → Bool) where
  -- After an invalidation, exactly those steps are done that were done before and do not come after
  -- the given one.
  pub invalidate_checkpoints_after_lem :
      (valid_steps : Option (List String)) (code step : String) (q : JobQueue) (fs : Files)
      (r : Row)
      → select code q.jobs ≡ some r
      → (j : String) → is_nonempty j ≡ true
      → done valid_steps code j (invalidate_checkpoints_after removal_fails code step (q, fs)).0
        ≡ (done valid_steps code j q && not (is_invalidated step j))
  unfolding invalidate_checkpoints_after
  invalidate_checkpoints_after_lem valid_steps code step q fs r found j named =
      remove_steps_lem valid_steps code q r found j named (is_invalidated step)

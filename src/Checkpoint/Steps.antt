-- ===== src/Checkpoint/Steps.antt =====
-- What a mark and a removal do to the steps that are done.

use ziguijia_translate_ml.Common.{
  String, ◌≡◌, refl, ap, sym, ◌∙◌, Bool, true, not, Option, some, List, [], ◌∷◌, ◌++◌, ◌&&◌, ◌||◌,
  arith, keep, elem, elem-append, elem-keep, All, All-keep, All-append, if◌then◌else◌, str_eq,
  eq_iff, eq_refl, is_nonempty, split_commas, split_nonempty, join_commas, IsPiece,
  split_nonempty-join_commas, split_nonempty-IsPiece, Bool-cases, inl, inr,
}
use ziguijia_translate_ml.Sql.{select}
use ziguijia_translate_ml.Sql.Laws.{select-update_key}
use ziguijia_translate_ml.Job.{Row}
use ziguijia_translate_ml.Queue.{JobQueue}
use ziguijia_translate_ml.Checkpoint.{
  set_checkpoint, get_checkpoint, parts, list_eq, remove_steps, steps_to_clear,
  clear_checkpoint_for_file, is_valid_step, done, mark,
}

list_eq→≡ : (xs ys : List String) → list_eq xs ys ≡ true → xs ≡ ys
list_eq→≡ [] [] h = refl
list_eq→≡ [] (y ∷ ys) h = cc
list_eq→≡ (x ∷ xs) [] h = cc
list_eq→≡ (x ∷ xs) (y ∷ ys) h = ground (arith, eq_iff x y, list_eq→≡ xs ys)

get_checkpoint-set_checkpoint :
    (code ckpt : String) (q : JobQueue) (r : Row)
    → select code q.jobs ≡ some r
    → get_checkpoint code (set_checkpoint code ckpt q) ≡ ckpt
unfolding get_checkpoint set_checkpoint
get_checkpoint-set_checkpoint code ckpt q r found =
    rw
      (
        select-update_key code code (λ _. true) (λ s. record s { checkpoint = some ckpt }) q.jobs,
        eq_refl,
        found,
      )
      refl

parts-IsPiece : (code : String) (q : JobQueue) → All IsPiece (parts code q)
unfolding parts
parts-IsPiece code q = split_nonempty-IsPiece (get_checkpoint code q)

parts-set_checkpoint :
    (code : String) (steps : List String) (q : JobQueue) (r : Row)
    → select code q.jobs ≡ some r
    → All IsPiece steps
    → parts code (set_checkpoint code (join_commas steps) q) ≡ steps
unfolding parts
parts-set_checkpoint code steps q r found pieces =
    ap split_nonempty (get_checkpoint-set_checkpoint code (join_commas steps) q r found)
    ∙ split_nonempty-join_commas steps pieces

pub parts-mark :
    (code name : String) (q : JobQueue) (r : Row)
    → select code q.jobs ≡ some r
    → IsPiece name
    → parts code (mark code name q) ≡ parts code q ++ name ∷ []
unfolding mark
parts-mark code name q r found piece =
    parts-set_checkpoint code (parts code q ++ name ∷ []) q r found
      (All-append IsPiece (parts code q) (name ∷ []) (parts-IsPiece code q) (piece, tt))

pub parts-remove_steps :
    (code : String) (removed : String → Bool) (q : JobQueue) (r : Row)
    → select code q.jobs ≡ some r
    → parts code (remove_steps code removed q) ≡ keep (λ s. not (removed s)) (parts code q)
unfolding remove_steps
parts-remove_steps code removed q r found =
    elim (Bool-cases (list_eq (keep (λ s. not (removed s)) (parts code q)) (parts code q))) [
      | inl same ↦ simp same (sym (list_eq→≡ _ _ same))
      | inr other ↦ rw other (
          parts-set_checkpoint code (keep (λ s. not (removed s)) (parts code q)) q r found
            (All-keep IsPiece (λ s. not (removed s)) (parts code q) (parts-IsPiece code q)))
    ]

elem-nonempty :
    (name : String) (ws : List String)
    → is_nonempty name ≡ true
    → elem name (keep is_nonempty ws) ≡ elem name ws
elem-nonempty name ws h = elem-keep name is_nonempty ws ∙ ground (arith)

-- A step is done if it is valid and one of the parts.
pub done-parts :
    (valid_steps : Option (List String)) (code name : String) (q : JobQueue)
    → is_nonempty name ≡ true
    → done valid_steps code name q ≡ (is_valid_step valid_steps name && elem name (parts code q))
unfolding done parts split_nonempty split_commas
done-parts valid_steps code name q h =
    ap (λ b. is_valid_step valid_steps name && b) (in_text (get_checkpoint code q))
  where
    in_text :
        (ckpt : String)
        → elem name (if is_nonempty ckpt then split_commas ckpt else [])
          ≡ elem name (keep is_nonempty (split_commas ckpt))
    in_text String.[] = refl
    in_text (String.◌∷◌ c s) = sym (elem-nonempty name (split_commas (String.◌∷◌ c s)) h)

module _ (valid_steps : Option (List String)) (code : String) (q : JobQueue) (r : Row)
    (found : select code q.jobs ≡ some r) (j : String) (named : is_nonempty j ≡ true) where
  -- A mark makes its step done, where that is valid, and no other step.
  pub mark_lem :
      (name : String)
      → IsPiece name
      → done valid_steps code j (mark code name q)
        ≡ (done valid_steps code j q || (is_valid_step valid_steps j && str_eq j name))
  mark_lem name piece =
      rw
        (
          done-parts valid_steps code j (mark code name q) named,
          done-parts valid_steps code j q named,
        )
        (rw (parts-mark code name q r found piece)
          (ground (arith, elem-append j (parts code q) (name ∷ []), eq_iff j name)))

  -- A removal of steps leaves exactly the other steps done.
  pub remove_steps_lem :
      (removed : String → Bool)
      → done valid_steps code j (remove_steps code removed q)
        ≡ (done valid_steps code j q && not (removed j))
  remove_steps_lem removed =
      rw
        (
          done-parts valid_steps code j (remove_steps code removed q) named,
          done-parts valid_steps code j q named,
        )
        (rw (parts-remove_steps code removed q r found)
          (ground (arith, elem-keep j (λ s. not (removed s)) (parts code q))))

  -- A job whose file is deleted has exactly those steps done that were done and whose output the
  -- file is not.
  pub clear_checkpoint_for_file_lem :
      (path : String)
      → done valid_steps code j (clear_checkpoint_for_file code path q)
        ≡ (done valid_steps code j q && not (steps_to_clear path j))
  unfolding clear_checkpoint_for_file
  clear_checkpoint_for_file_lem path = remove_steps_lem (steps_to_clear path)

-- ===== src/Web/Files/Rows.antt =====
-- The row of a job through the statements of the file routes.
use ziguijia_translate_ml.Common.{
  ℕ, String, ◌≡◌, ◌∙◌, refl, Bool, true, false, not, Option, none, some, List, arith, eq_refl, keep,
  join_commas, Bool-cases, inl, inr,
}
use ziguijia_translate_ml.Sql.{select, update_key}
use ziguijia_translate_ml.Sql.Laws.{select-update_key}
use ziguijia_translate_ml.Job.{Row}
use ziguijia_translate_ml.Queue.{JobQueue, Reply, success, failure}
use ziguijia_translate_ml.Queue.Submit.{resubmit_row}
use ziguijia_translate_ml.Queue.Submit.Laws.{Resubmitted}
use ziguijia_translate_ml.Checkpoint.{
  set_checkpoint, get_checkpoint, parts, list_eq, remove_steps, done, set_checkpoint_edited,
  get_checkpoint_edited,
}
use ziguijia_translate_ml.Checkpoint.Edited.{
  set_edited_srt_file, clear_edited_srt_files, write_edited, add_file, sorted_set,
  get_edited_srt_files,
}
use ziguijia_translate_ml.Web.{answer}
use ziguijia_translate_ml.Web.Files.{World, message, resubmitted}

module _ (code : String) where
  -- An UPDATE of the job's row.
  pub updated_row :
      (f : Row → Row) (q : JobQueue) (r : Row)
      → select code q.jobs ≡ some r
      → select code (update_key code (λ _. true) f q.jobs) ≡ some (f r)
  updated_row f q r found =
      ground (arith, eq_refl code, select-update_key code code (λ _. true) f q.jobs)

  pub row-remove_steps :
      (removed : String → Bool) (q : JobQueue) (r : Row)
      → select code q.jobs ≡ some r
      → (r' : Row) × (select code (remove_steps code removed q).jobs ≡ some r')
        × (r'.status ≡ r.status)
  unfolding remove_steps set_checkpoint
  row-remove_steps removed q r found =
      let kept = keep (λ s. not (removed s)) (parts code q) in
      elim (Bool-cases (list_eq kept (parts code q))) [
        | inl same ↦ (r, rw same found, refl)
        | inr other ↦ (
          record r { checkpoint = some (join_commas kept) },
          rw other (updated_row (λ s. record s { checkpoint = some (join_commas kept) }) q r found),
          refl,
        )
      ]

  -- The queue after the job was marked as edited.
  abbrev pub marked : (name : String) → JobQueue → JobQueue
  marked name q = set_edited_srt_file code name (set_checkpoint_edited code true q)

  pub row-marked :
      (name : String) (q : JobQueue) (r : Row)
      → select code q.jobs ≡ some r
      → (r' : Row) × (select code (marked name q).jobs ≡ some r')
        × (r'.status ≡ r.status)
        × (r'.checkpoint_edited ≡ true)
        × (r'.checkpoint ≡ r.checkpoint)
  unfolding set_edited_srt_file set_checkpoint_edited write_edited
  row-marked name q r found =
      let f1 = updated_row (λ s. record s { checkpoint_edited = true }) q r found in
      let column = join_commas (
        add_file name
          (sorted_set (get_edited_srt_files code (set_checkpoint_edited code true q)))) in
      (
        record r { checkpoint_edited = true; edited_srt_files = some column },
        updated_row (λ s. record s { edited_srt_files = some column })
            (set_checkpoint_edited code true q) (record r { checkpoint_edited = true }) f1,
        refl,
        refl,
        refl,
      )

  pub edited_of :
      (q : JobQueue) (r : Row)
      → select code q.jobs ≡ some r
      → get_checkpoint_edited code q ≡ r.checkpoint_edited
  unfolding get_checkpoint_edited
  edited_of q r found = ground arith

  pub select-Resubmitted :
      {now : ℕ} {r : Row} {q : JobQueue} {out : Reply × JobQueue}
      → Resubmitted now code none r q out
      → select code out.1.jobs ≡ some (resubmit_row now none r)
  select-Resubmitted {now} {r} {q} run = run.table code ∙ rw (eq_refl code)

  pub resubmitted_success :
      (w : World) (out : Reply × JobQueue) {m : String}
      → out.0 ≡ success m
      → resubmitted code out w ≡ (
        answer 200 (message m),
        record w { queue = clear_edited_srt_files code (set_checkpoint_edited code false out.1) },
      )
  resubmitted_success w (success m, q) e = ground arith
  resubmitted_success w (failure m, q) e = cc

  pub done_congr :
      (valid_steps : Option (List String)) (j : String) (q q' : JobQueue)
      → get_checkpoint code q ≡ get_checkpoint code q'
      → done valid_steps code j q ≡ done valid_steps code j q'
  unfolding done
  done_congr valid_steps j q q' e = rw e

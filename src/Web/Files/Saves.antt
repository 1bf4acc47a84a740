-- ===== src/Web/Files/Saves.antt =====
-- Saving an edited SRT file, and running its job again.
use ziguijia_translate_ml.Common.{
  ℕ, String, ◌≡◌, ◌∙◌, refl, ap, true, false, not, Option, none, some, List, ◌∷◌, ◌&&◌, is_nonempty,
  basename, ends_with, lookup, inr,
}
use ziguijia_translate_ml.Split.{Text}
use ziguijia_translate_ml.Sql.{select}
use ziguijia_translate_ml.Job.{Row, completed, pending}
use ziguijia_translate_ml.Queue.{JobQueue}
use ziguijia_translate_ml.Queue.Submit.{resubmit_job, resubmit_row}
use ziguijia_translate_ml.Queue.Submit.Laws.{resubmit_job_lem}
use ziguijia_translate_ml.Checkpoint.{
  filename_to_checkpoint_step, get_checkpoint, checkpoint_of, done, set_checkpoint_edited,
  get_checkpoint_edited, text_or_empty,
}
use ziguijia_translate_ml.Checkpoint.Steps.{remove_steps_lem}
use ziguijia_translate_ml.Checkpoint.Edited.{clear_edited_srt_files, write_edited}
use ziguijia_translate_ml.Checkpoint.Files.{Files, is_invalidated, invalidate_checkpoints_after}
use ziguijia_translate_ml.Checkpoint.Files.Laws.{comes_after, is_invalidated-comes_after}
use ziguijia_translate_ml.Web.{Outcome, answer}
use ziguijia_translate_ml.Web.Paths.{Resolved, path_text, safe_file_path}
use ziguijia_translate_ml.Web.Srt.{validate_srt_content}
use ziguijia_translate_ml.Web.Files.{
  Host, World, Body, message, with_safe, save_at, save_valid, files_save_srt, files_srt_resubmit,
}
use ziguijia_translate_ml.Web.Files.Rows.{
  updated_row, row-remove_steps, row-marked, edited_of, select-Resubmitted, resubmitted_success,
  done_congr, marked,
}

module _ (h : Host) (path code : String) (text : Text) (w : World) where
  abbrev pub save : Outcome Body × World
  save = files_save_srt h (some path) (some text) (some code) w

  -- A request to save that meets no error: it names a job and an SRT file that it may name, whose step
  -- is known, the text is valid, and the file can be written.
  pub record IsSavable (p : Resolved) (step : String) : Type 0 where
    pub named : is_nonempty path ≡ true
    pub coded : is_nonempty code ≡ true
    pub real : h.realpath path ≡ some p
    pub safe : safe_file_path h.allowed_file_dirs w.files.is_file p ≡ some p
    pub srt : ends_with (h.lower (path_text p)) ".srt" ≡ true
    pub valid : validate_srt_content h.lib text ≡ none
    pub writable : h.write_fails (path_text p) ≡ false
    pub known : lookup (basename (path_text p)) filename_to_checkpoint_step ≡ some step

  abbrev invalidated : (step : String) → JobQueue × Files
  invalidated step = invalidate_checkpoints_after h.removal_fails code step (w.queue, w.files)

  save_runs :
      (p : Resolved) (step : String)
      → IsSavable p step
      → save ≡ (
        answer 200 (message "File saved, downstream steps marked for re-run"),
        record {
          queue = marked code (basename (path_text p)) (invalidated step).0;
          files = (invalidated step).1;
          written = (path_text p, text) ∷ w.written;
        },
      )
  unfolding files_save_srt with_safe save_at save_valid
  save_runs p step v = rw (v.named, v.real, v.safe, v.srt, v.valid, v.writable, v.known, v.coded)

  saved_row :
      (p : Resolved) (step : String) (r : Row)
      → IsSavable p step
      → select code w.queue.jobs ≡ some r
      → (r' : Row) × (select code save.1.queue.jobs ≡ some r')
        × (r'.status ≡ r.status)
        × (r'.checkpoint_edited ≡ true)
        × (checkpoint_of (some r') ≡ get_checkpoint code (invalidated step).0)
  unfolding invalidate_checkpoints_after get_checkpoint
  saved_row p step r v found =
      let (r1, found1, same1) = row-remove_steps code (is_invalidated step) w.queue r found in
      let (r2, found2, same2, edited, kept) =
        row-marked code (basename (path_text p)) (invalidated step).0 r1 found1 in
      (r2, rw (save_runs p step v) found2, same2 ∙ same1, edited, ap text_or_empty kept ∙ rw found1)

  -- Saving an edited SRT file whose step is known writes the text, leaves exactly those steps of the
  -- job done that were done and do not stand behind that step in the order of the steps, and marks the job as edited.
  pub files_save_srt_lem :
      (p : Resolved) (step : String) (r : Row) (valid_steps : Option (List String)) (j : String)
      → IsSavable p step
      → select code w.queue.jobs ≡ some r
      → is_nonempty j ≡ true
      → (save.1.written ≡ (path_text p, text) ∷ w.written)
        × (done valid_steps code j save.1.queue
            ≡ (done valid_steps code j w.queue && not (comes_after step j)))
        × (get_checkpoint_edited code save.1.queue ≡ true)
  unfolding invalidate_checkpoints_after get_checkpoint get_checkpoint_edited
  files_save_srt_lem p step r valid_steps j v found named =
      let (r', found', same, edited, kept) = saved_row p step r v found in
      (
        rw (save_runs p step v),
        done_congr code valid_steps j save.1.queue (invalidated step).0 (rw found' kept)
            ∙ (remove_steps_lem valid_steps code w.queue r found j named (is_invalidated step)
                ∙ ap (λ b. done valid_steps code j w.queue && not b)
                    (is_invalidated-comes_after (basename (path_text p)) step j v.known)),
        edited_of code save.1.queue r' found' ∙ edited,
      )

  -- A completed job whose SRT file was edited and saved can be run again: the next request to resubmit
  -- it is answered with success, and the job is pending with the mark of the edit cleared.
  pub files_srt_resubmit-save :
      (p : Resolved) (step : String) (r : Row) (now : ℕ)
      → IsSavable p step
      → select code w.queue.jobs ≡ some r
      → r.status ≡ completed
      → ((files_srt_resubmit now code save.1).0 ≡ answer 200 (message "Job resubmitted"))
        × ((r' : Row) × (select code (files_srt_resubmit now code save.1).1.queue.jobs ≡ some r')
            × (r'.status ≡ pending)
            × (r'.checkpoint_edited ≡ false))
  unfolding files_srt_resubmit set_checkpoint_edited clear_edited_srt_files write_edited
  files_srt_resubmit-save p step r now v found is_done =
      let (r', found', same, edited, kept) = saved_row p step r v found in
      let run =
        resubmit_job_lem now code none save.1.queue r' found'
          (inr (inr (same ∙ is_done, inr edited))) in
      let q' = (resubmit_job now code none save.1.queue).1 in
      let row =
        updated_row code (λ s. record s { checkpoint_edited = false }) q' (resubmit_row now none r')
          (select-Resubmitted code run) in
      (
        rw (resubmitted_success code save.1 (resubmit_job now code none save.1.queue) run.answer)
            refl,
        (
          record r' {
            status = pending;
            error = none;
            status_changed_at = some now;
            checkpoint_edited = false;
            edited_srt_files = some "";
          },
          rw (resubmitted_success code save.1 (resubmit_job now code none save.1.queue) run.answer)
              (updated_row code (λ s. record s { edited_srt_files = some "" })
                (set_checkpoint_edited code false q')
                (record (resubmit_row now none r') { checkpoint_edited = false }) row),
          refl,
          refl,
        ),
      )

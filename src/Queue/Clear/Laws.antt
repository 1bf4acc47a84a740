-- ===== src/Queue/Clear/Laws.antt =====
-- What the removal of deleted jobs leaves, and how its dry run relates to it.
use ziguijia_translate_ml.Common.{
  String, ◌≡◌, refl, ◌∙◌, Bool, true, false, Option, none, some, List, [], ◌∷◌, ◌≤◌, ◌+◌, arith,
  if◌then◌else◌, count, length, length-append,
}
use ziguijia_translate_ml.Sql.{select, select_where}
use ziguijia_translate_ml.Sql.Keys.{IsKeyed, select-delete_where}
use ziguijia_translate_ml.Job.{Row}
use ziguijia_translate_ml.Queue.{JobQueue}
use ziguijia_translate_ml.Queue.Report.Laws.{select-select_where}
use ziguijia_translate_ml.Queue.Clear.{
  is_deleted, dir_exists, Removal, remove_one, remove_dirs, clear_rows, clear_found,
  clear_job_queue,
}

module _ (rmtree_fails : String → Bool) where
  jobs-remove_one :
      (d : Option String) (s : Removal) → (remove_one rmtree_fails d s).queue.jobs ≡ s.queue.jobs
  unfolding remove_one
  jobs-remove_one d s = ground arith

  jobs-remove_dirs :
      (rows : List (String × Row)) (s : Removal)
      → (remove_dirs rmtree_fails rows s).queue.jobs ≡ s.queue.jobs
  unfolding remove_dirs
  jobs-remove_dirs [] s = refl
  jobs-remove_dirs ((code, r) ∷ rows) s =
      jobs-remove_dirs rows (remove_one rmtree_fails r.output_dir s)
      ∙ jobs-remove_one r.output_dir s

  -- A directory that is gone stays gone.
  exists-remove_one :
      (d : Option String) (s : Removal) (e : Option String)
      → dir_exists (remove_one rmtree_fails d s).exists e ≡ true
      → dir_exists s.exists e ≡ true
  unfolding remove_one
  exists-remove_one d s e h = ground arith

  -- Each row adds at most one to what was removed or failed, and only where its directory exists.
  handled-remove_one :
      (d : Option String) (s : Removal)
      → (remove_one rmtree_fails d s).dirs_removed + length (remove_one rmtree_fails d s).errors
        ≡ s.dirs_removed + length s.errors + (if dir_exists s.exists d then 1 else 0)
  unfolding remove_one
  handled-remove_one none s = omega arith
  handled-remove_one (some d) s = ground (arith, length-append s.errors (d ∷ []))

  count_exists-remove_one :
      (d : Option String) (s : Removal) (rows : List (String × Row))
      → count (λ x. dir_exists (remove_one rmtree_fails d s).exists x.1.output_dir) rows
        ≤ count (λ x. dir_exists s.exists x.1.output_dir) rows
  count_exists-remove_one d s [] = omega arith
  count_exists-remove_one d s ((code, r) ∷ rows) =
      ground (arith, count_exists-remove_one d s rows, exists-remove_one d s r.output_dir)

  handled-remove_dirs :
      (rows : List (String × Row)) (s : Removal)
      → (remove_dirs rmtree_fails rows s).dirs_removed
          + length (remove_dirs rmtree_fails rows s).errors
        ≤ s.dirs_removed + length s.errors + count (λ x. dir_exists s.exists x.1.output_dir) rows
  unfolding remove_dirs
  handled-remove_dirs [] s = omega arith
  handled-remove_dirs ((code, r) ∷ rows) s = ground (
    arith,
    handled-remove_dirs rows (remove_one rmtree_fails r.output_dir s),
    handled-remove_one r.output_dir s,
    count_exists-remove_one r.output_dir s rows,
  )

  module _ (exists : String → Bool) (q : JobQueue) where
    found_none :
        (j : String)
        → IsKeyed q.jobs
        → select_where is_deleted q.jobs ≡ []
        → select j q.jobs ≡ elim (select j q.jobs) [
          | none ↦ none
          | some r ↦ if is_deleted j r then none else some r
        ]
    unfolding select
    found_none j keyed none_found =
        let h : none ≡ elim (select j q.jobs) [
          | none ↦ none
          | some r ↦ if is_deleted j r then some r else none
        ] =
          (rw none_found at (select-select_where is_deleted j q.jobs keyed)) in
        ground arith

    -- A run that the database lets through removes exactly the deleted jobs, and counts them; all
    -- other rows stay as they are.
    pub clear_job_queue_lem :
        IsKeyed q.jobs
        → (j : String)
        → (select j (clear_job_queue rmtree_fails exists none false q).1.jobs
            ≡ elim (select j q.jobs) [
              | none ↦ none
              | some r ↦ if is_deleted j r then none else some r
            ])
          × ((clear_job_queue rmtree_fails exists none false q).0.jobs_removed
              ≡ length (select_where is_deleted q.jobs))
    unfolding clear_job_queue clear_rows
    clear_job_queue_lem keyed j = with_rows (select_where is_deleted q.jobs) refl
      where
        with_rows :
            (rows : List (String × Row))
            → select_where is_deleted q.jobs ≡ rows
            → (select j (clear_found rmtree_fails exists none false rows q).1.jobs
                ≡ elim (select j q.jobs) [
                  | none ↦ none
                  | some r ↦ if is_deleted j r then none else some r
                ])
              × ((clear_found rmtree_fails exists none false rows q).0.jobs_removed ≡ length rows)
        with_rows [] e = (found_none j keyed e, refl)
        with_rows (x ∷ rows) e = (
          rw (jobs-remove_dirs) (select-delete_where j is_deleted q.jobs keyed),
          rw (jobs-remove_dirs) (rw e refl),
        )

    -- A dry run changes nothing. It announces as many jobs as the run removes, and at least as many
    -- directories as the run removes or fails to remove.
    pub clear_job_queue-dry_run :
        (delete_error : Option String)
        → ((clear_job_queue rmtree_fails exists delete_error true q).1 ≡ q)
          × ((clear_job_queue rmtree_fails exists delete_error true q).0.jobs_removed
              ≡ (clear_job_queue rmtree_fails exists none false q).0.jobs_removed)
          × ((clear_job_queue rmtree_fails exists none false q).0.dirs_removed
                + length (clear_job_queue rmtree_fails exists none false q).0.errors
              ≤ (clear_job_queue rmtree_fails exists delete_error true q).0.dirs_removed)
    unfolding clear_job_queue clear_rows
    clear_job_queue-dry_run delete_error = with_rows (select_where is_deleted q.jobs) refl
      where
        with_rows :
            (rows : List (String × Row))
            → select_where is_deleted q.jobs ≡ rows
            → ((clear_found rmtree_fails exists delete_error true rows q).1 ≡ q)
              × ((clear_found rmtree_fails exists delete_error true rows q).0.jobs_removed
                  ≡ (clear_found rmtree_fails exists none false rows q).0.jobs_removed)
              × ((clear_found rmtree_fails exists none false rows q).0.dirs_removed
                    + length (clear_found rmtree_fails exists none false rows q).0.errors
                  ≤ (clear_found rmtree_fails exists delete_error true rows q).0.dirs_removed)
        with_rows [] e = (refl, refl, omega arith)
        with_rows (x ∷ rows) e = (
          refl,
          rw (jobs-remove_dirs) (rw e refl),
          omega (
            arith,
            handled-remove_dirs (x ∷ rows)
                (record { dirs_removed = 0; errors = []; exists = exists; queue = q }),
          ),
        )

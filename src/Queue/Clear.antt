-- ===== src/Queue/Clear.antt =====
-- jobqueue.py: `clear_job_queue`, which removes the deleted jobs and their directories. Which
-- directories exist, and which of them `shutil.rmtree` fails to remove, is the file system's.
pub mod Laws
use ziguijia_translate_ml.Common.{
  not, str_eq, ℕ, suc, String, Bool, true, false, Option, none, some, List, [], ◌∷◌, ◌++◌, ◌&&◌,
  length, count, if◌then◌else◌, ◌==◌, is_nonempty,
}
use ziguijia_translate_ml.Sql.{select_where, delete_where}
use ziguijia_translate_ml.Job.{deleted, Row, is_status}
use ziguijia_translate_ml.Queue.{JobQueue, remove_dir, emit}

pub record Summary : Type 0 where
  pub success : Bool
  pub jobs_removed : ℕ
  pub dirs_removed : ℕ
  pub errors : List String

-- WHERE status = deleted
abbrev pub is_deleted : String → Row → Bool
is_deleted code r = is_status r.status deleted

-- `output_dir and os.path.exists(output_dir)`
abbrev pub dir_exists : (String → Bool) → Option String → Bool
dir_exists exists none = false
dir_exists exists (some d) = is_nonempty d && exists d

-- The state of the loop over the rows: `dirs_removed`, `errors`, the directories that exist, and
-- the queue's effects.
pub record Removal : Type 0 where
  pub dirs_removed : ℕ
  pub errors : List String
  pub exists : String → Bool
  pub queue : JobQueue

module _ (rmtree_fails : String → Bool) where
  unfoldable pub remove_one : Option String → Removal → Removal
  remove_one none s = s
  remove_one (some d) s =
      if is_nonempty d && s.exists d
      then (if rmtree_fails d then record s { errors = s.errors ++ d ∷ [] } else record s {
        dirs_removed = suc s.dirs_removed;
        exists = λ p. s.exists p && not (str_eq p d);
        queue = emit (remove_dir d) s.queue;
      })
      else s

  unfoldable pub remove_dirs : List (String × Row) → Removal → Removal
  unfolding remove_one
  remove_dirs [] s = s
  remove_dirs ((code, r) ∷ rows) s = remove_dirs rows (remove_one r.output_dir s)

  -- DELETE FROM jobs WHERE status = deleted, and the summary. `delete_error` is the exception of
  -- the DELETE, if it raises.
  unfoldable pub clear_rows : Option String → Removal → Summary × JobQueue
  clear_rows none s = (
    record {
      success = length s.errors == 0;
      jobs_removed = length (select_where is_deleted s.queue.jobs);
      dirs_removed = s.dirs_removed;
      errors = s.errors;
    },
    record s.queue { jobs = delete_where is_deleted s.queue.jobs },
  )
  clear_rows (some e) s = (
    record {
      success = false;
      jobs_removed = 0;
      dirs_removed = s.dirs_removed;
      errors = s.errors ++ e ∷ [];
    },
    s.queue,
  )

  module _ (exists : String → Bool) (delete_error : Option String) where
    unfoldable pub clear_found : Bool → List (String × Row) → JobQueue → Summary × JobQueue
    unfolding clear_rows
    clear_found dry_run [] q =
        (record { success = true; jobs_removed = 0; dirs_removed = 0; errors = [] }, q)
    clear_found true (e ∷ rows) q = (
      record {
        success = true;
        jobs_removed = length (e ∷ rows);
        dirs_removed = count (λ x. dir_exists exists x.1.output_dir) (e ∷ rows);
        errors = [];
      },
      q,
    )
    clear_found false (e ∷ rows) q = clear_rows delete_error (
        remove_dirs (e ∷ rows)
          (record { dirs_removed = 0; errors = []; exists = exists; queue = q }))

    unfoldable pub clear_job_queue : (dry_run : Bool) → JobQueue → Summary × JobQueue
    unfolding clear_found
    clear_job_queue dry_run q = clear_found dry_run (select_where is_deleted q.jobs) q

-- ===== src/Job.antt =====
-- chatterbox-server/job_types.py and the `jobs` table of chatterbox-server/db_schema.py: the
-- statuses, one row, and the SQL statements that the server runs. Times are seconds, since the
-- format of `_now_str` sorts as its numbers do; REAL columns hold thousandths.
pub mod Handlers
use ziguijia_translate_ml.Common.{ℕ, String, Option, Bool, true, false}

pub data JobStatus : Type 0 where
  pending processing completed failed cancelled deleted : JobStatus

-- `JobStatus.X.value`
abbrev pub value : JobStatus → String
value pending = "pending"
value processing = "processing"
value completed = "completed"
value failed = "failed"
value cancelled = "cancelled"
value deleted = "deleted"

-- `status = ?` in a statement, and `==` on statuses
abbrev pub is_status : JobStatus → JobStatus → Bool
is_status pending pending = true
is_status processing processing = true
is_status completed completed = true
is_status failed failed = true
is_status cancelled cancelled = true
is_status deleted deleted = true
is_status _ _ = false

-- A row without its primary key, `access_code`.
pub record Row : Type 0 where
  pub srt_path : Option String
  pub output_dir : Option String
  pub temperature : Option ℕ
  pub status : JobStatus
  pub error : Option String
  pub run_func_name : Option String
  pub video_number : Option String
  pub created_at : ℕ
  pub video_file : Option String
  pub user_id : Option ℕ
  pub text : Option String
  pub blur : String
  pub target_language : String
  pub cfg_weight : ℕ
  pub exaggeration : ℕ
  pub completed_at : Option ℕ
  pub failed_at : Option ℕ
  pub cancelled_at : Option ℕ
  pub status_changed_at : Option ℕ
  pub deleted_at : Option ℕ
  pub checkpoint : Option String
  pub checkpoint_edited : Bool
  pub edited_srt_files : Option String
  pub start_trim : Option ℕ
  pub end_trim : Option ℕ
  pub cached_path : Option String
  pub filename : Option String
  pub ocr_only : Option String
  pub progress : Option String

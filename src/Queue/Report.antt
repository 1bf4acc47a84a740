-- ===== src/Queue/Report.antt =====
-- jobqueue.py: `get_status`, `get_user_jobs`, and the two searches for a failed job that a new
-- submission of the same video takes over.
pub mod Laws
pub mod Takeover
use ziguijia_translate_ml.Common.{
  ℕ, String, Bool, false, not, Option, none, some, List, [], ◌∷◌, ◌&&◌, map, leb, ltb, length,
  if◌then◌else◌, str_eq, ◌==◌, split_commas, is_nonempty,
}
use ziguijia_translate_ml.Sql.{select, select_where}
use ziguijia_translate_ml.Job.{JobStatus, pending, failed, deleted, Row, is_status}
use ziguijia_translate_ml.Job.Handlers.{get_job_type_label}
use ziguijia_translate_ml.Queue.{JobQueue}

-- ORDER BY key DESC
module _ {ℓ} {A : Type ℓ} (key : A → ℕ) where
  unfoldable pub insert_desc : A → List A → List A
  insert_desc x [] = x ∷ []
  insert_desc x (y ∷ ys) =
      let rest = insert_desc x ys in if leb (key y) (key x) then x ∷ y ∷ ys else y ∷ rest

  unfoldable pub order_desc : List A → List A
  order_desc [] = []
  order_desc (x ∷ xs) = insert_desc x (order_desc xs)

-- column = ?, which no NULL satisfies
abbrev pub is_text : Option String → String → Bool
is_text none s = false
is_text (some t) s = str_eq t s

abbrev pub is_user : Option ℕ → Option ℕ → Bool
is_user (some u) (some v) = u == v
is_user (some u) none = false
is_user none v = false

-- The WHERE clause of `_find_failed_ocr_job` and `_find_failed_ning_job`.
abbrev pub failed_of : String → String → Option ℕ → String → Row → Bool
failed_of run_func_name video_number user_id code r =
    is_text r.video_number video_number
    && (is_user r.user_id user_id
        && (is_text r.run_func_name run_func_name && is_status r.status failed))

abbrev pub first_of_rows : List (String × Row) → Option (String × Option String)
first_of_rows [] = none
first_of_rows ((code, r) ∷ _) = some (code, r.output_dir)

-- The newest failed job of that handler for the same video and user, if any.
unfoldable pub find_failed : String → String → Option ℕ → JobQueue → Option (String × Option String)
find_failed run_func_name video_number user_id q = first_of_rows (
    order_desc (λ e. e.1.created_at)
      (select_where (failed_of run_func_name video_number user_id) q.jobs))

unfoldable pub find_failed_ocr_job :
    (video_number : String) → (user_id : Option ℕ) → JobQueue → Option (String × Option String)
unfolding find_failed order_desc insert_desc select_where
find_failed_ocr_job = find_failed "_run_video_ning_ocr_job"

unfoldable pub find_failed_ning_job :
    (video_number : String) → (user_id : Option ℕ) → JobQueue → Option (String × Option String)
unfolding find_failed order_desc insert_desc select_where
find_failed_ning_job = find_failed "_run_video_job"

-- The dictionary of `get_status`.
pub record Status : Type 0 where
  pub access_code : String
  pub status : JobStatus
  pub error : Option String
  pub output_dir : Option String
  pub progress : Option String
  pub target_language : String
  pub queue_position : Option ℕ
  pub temperature : Option ℕ
  pub cfg_weight : ℕ
  pub exaggeration : ℕ
  pub checkpoint : String
  pub checkpoint_edited : Bool
  pub edited_srt_files : List String

-- `row[c] or ""`
abbrev pub or_empty : Option String → String
or_empty none = ""
or_empty (some s) = s

-- `s.split(",") if s else []`
abbrev pub split_or_empty : Option String → List String
split_or_empty none = []
split_or_empty (some s) = if is_nonempty s then split_commas s else []

-- WHERE status = pending AND created_at < ?
abbrev pub is_ahead : ℕ → String → Row → Bool
is_ahead created_at code r = is_status r.status pending && ltb r.created_at created_at

queue_position : Row → JobQueue → Option ℕ
queue_position r q =
    if is_status r.status pending
    then some (length (select_where (is_ahead r.created_at) q.jobs))
    else none

status_of : String → Option Row → JobQueue → Option Status
unfolding queue_position
status_of code none q = none
status_of code (some r) q = some (record {
  access_code = code;
  status = r.status;
  error = r.error;
  output_dir = r.output_dir;
  progress = r.progress;
  target_language = r.target_language;
  queue_position = queue_position r q;
  temperature = r.temperature;
  cfg_weight = r.cfg_weight;
  exaggeration = r.exaggeration;
  checkpoint = or_empty r.checkpoint;
  checkpoint_edited = r.checkpoint_edited;
  edited_srt_files = split_or_empty r.edited_srt_files;
})

unfoldable pub get_status : (access_code : String) → JobQueue → Option Status
unfolding status_of
get_status code q = status_of code (select code q.jobs) q

-- One dictionary of `get_user_jobs`.
pub record Entry : Type 0 where
  pub access_code : String
  pub type_label : String
  pub status : JobStatus
  pub error : Option String
  pub output_dir : Option String
  pub created_at : ℕ
  pub status_changed_at : Option ℕ

-- WHERE user_id = ? AND status != deleted
abbrev pub is_listed : ℕ → String → Row → Bool
is_listed user_id code r = is_user r.user_id (some user_id) && not (is_status r.status deleted)

-- COALESCE(status_changed_at, created_at)
abbrev pub changed_at : String × Row → ℕ
changed_at (code, r) = elim r.status_changed_at [ none ↦ r.created_at | some t ↦ t ]

abbrev pub entry_of : String × Row → Entry
entry_of (code, r) = record {
  access_code = code;
  type_label = get_job_type_label r.run_func_name;
  status = r.status;
  error = r.error;
  output_dir = r.output_dir;
  created_at = r.created_at;
  status_changed_at = r.status_changed_at;
}

unfoldable pub get_user_jobs : (user_id : ℕ) → JobQueue → List Entry
unfolding order_desc insert_desc select_where
get_user_jobs user_id q =
    map entry_of (order_desc changed_at (select_where (is_listed user_id) q.jobs))

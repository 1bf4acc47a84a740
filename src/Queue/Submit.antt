-- ===== src/Queue/Submit.antt =====
-- jobqueue.py: `add_job` and `resubmit_job`.
pub mod Laws
use Prim.Native.String.{◌++◌ as str_append}
use ziguijia_translate_ml.Common.{
  ℕ, String, true, false, not, Option, none, some, ◌||◌, ◌&&◌, if◌then◌else◌, is_some, is_nonempty,
}
use ziguijia_translate_ml.Sql.{select, update_key, insert_or_replace}
use ziguijia_translate_ml.Job.{
  JobStatus, pending, completed, failed, cancelled, deleted, Row, value, is_status,
}
use ziguijia_translate_ml.Queue.{JobQueue, Reply, success, failure, enqueue, ensure_worker}

-- The keys of a `job_data` dictionary that `add_job` reads.
pub record JobData : Type 0 where
  pub access_code : Option String
  pub srt_path : Option String
  pub output_dir : Option String
  pub temperature : Option ℕ
  pub video_number : Option String
  pub video_file : Option String
  pub text : Option String
  pub blur : Option String
  pub target_language : Option String
  pub cfg_weight : Option ℕ
  pub exaggeration : Option ℕ
  pub start_trim : Option ℕ
  pub end_trim : Option ℕ
  pub cached_path : Option String
  pub filename : Option String
  pub ocr_only : Option String

-- `d.get(key, default)`
abbrev pub get_or {ℓ} : {A : Type ℓ} → Option A → A → A
get_or none a = a
get_or (some b) a = b

-- `_DEFAULT_PARAMS` of middleware.py, in thousandths
abbrev pub default_cfg_weight : ℕ
default_cfg_weight = 250

abbrev pub default_exaggeration : ℕ
default_exaggeration = 300

-- `job_data.get("access_code") or self._generate_access_code()`
abbrev pub code_or : Option String → String → String
code_or none fresh = fresh
code_or (some c) fresh = if is_nonempty c then c else fresh

-- `existing_checkpoint[0] if existing_checkpoint else ""`
abbrev pub previous_checkpoint : Option Row → Option String
previous_checkpoint none = some ""
previous_checkpoint (some r) = r.checkpoint

-- The row of the INSERT; columns that it does not list take their defaults.
abbrev pub new_row : JobData → String → Option ℕ → Option String → ℕ → Row
new_row d run_func_name user_id checkpoint now = record {
  srt_path = d.srt_path;
  output_dir = d.output_dir;
  temperature = d.temperature;
  status = pending;
  error = none;
  run_func_name = some run_func_name;
  video_number = d.video_number;
  created_at = now;
  video_file = d.video_file;
  user_id = user_id;
  text = d.text;
  blur = get_or d.blur "yes";
  target_language = get_or d.target_language "en";
  cfg_weight = get_or d.cfg_weight default_cfg_weight;
  exaggeration = get_or d.exaggeration default_exaggeration;
  completed_at = none;
  failed_at = none;
  cancelled_at = none;
  status_changed_at = some now;
  deleted_at = none;
  checkpoint = checkpoint;
  checkpoint_edited = false;
  edited_srt_files = some "";
  start_trim = d.start_trim;
  end_trim = d.end_trim;
  cached_path = d.cached_path;
  filename = d.filename;
  ocr_only = d.ocr_only;
  progress = none;
}

-- `fresh` is what `_generate_access_code` gives, and `now` what `_now_str` gives.
unfoldable pub add_job :
    (fresh : String) (now : ℕ)
    → JobData
    → (run_func_name : String) → (user_id : Option ℕ) → JobQueue
    → String × JobQueue
add_job fresh now d run_func_name user_id q =
    let code = code_or d.access_code fresh in
    let checkpoint = previous_checkpoint (select code q.jobs) in
    let row = new_row d run_func_name user_id checkpoint now in
    (code, ensure_worker (enqueue code (record q { jobs = insert_or_replace code row q.jobs })))

-- The first UPDATE of `resubmit_job` where a checkpoint is given, and the second where it is not.
abbrev pub resubmit_row : ℕ → Option String → Row → Row
resubmit_row now none r = record r {
  status = pending;
  error = none;
  status_changed_at = some now;
  checkpoint_edited = false;
}
resubmit_row now (some c) r = record r {
  status = pending;
  error = none;
  status_changed_at = some now;
  checkpoint = some c;
  checkpoint_edited = false;
}

-- `resubmit_job` behind its checks
resubmit : ℕ → String → Option String → JobQueue → Reply × JobQueue
resubmit now code checkpoint q = (
  success "Job resubmitted",
  ensure_worker (
      enqueue code
        (record q { jobs = update_key code (λ _. true) (resubmit_row now checkpoint) q.jobs })),
)

only_resubmittable : JobStatus → String
only_resubmittable s =
    str_append "Job is "
      (str_append (value s) ", only failed, cancelled or checkpoint-edited jobs can be resubmitted")

resubmit_checked : ℕ → String → Option String → Option Row → JobQueue → Reply × JobQueue
unfolding resubmit only_resubmittable
resubmit_checked now code checkpoint none q = (failure "Job not found", q)
resubmit_checked now code checkpoint (some r) q =
    if is_status r.status deleted
    then (failure "Job has been deleted", q)
    else if is_status r.status completed
    then (if not (is_some checkpoint) && not r.checkpoint_edited
        then (failure (only_resubmittable completed), q)
        else resubmit now code checkpoint q)
    else if not (is_status r.status failed || is_status r.status cancelled)
    then (failure (only_resubmittable r.status), q)
    else resubmit now code checkpoint q

unfoldable pub resubmit_job :
    (now : ℕ) → (access_code : String) → (checkpoint : Option String) → JobQueue → Reply × JobQueue
unfolding resubmit_checked
resubmit_job now code checkpoint q = resubmit_checked now code checkpoint (select code q.jobs) q

-- ===== src/Lib.antt =====
-- The translation service: its job queue, the worker that runs the jobs, the checkpoints of a job's
-- steps, the pipelines of the video jobs, the accounts and the guards of the routes, the calibration of
-- SRT files, the warm translation and speech daemons with the thermal gate, and the stretching of videos
-- and audio. Paths are those of the repository.
--
-- Common: names shared by all files; Common/Tests, Lists, Keyed, Texts and Paths hold Boolean tests, list
--   functions on the native numbers, Python's split and join by commas, and its path functions.
-- Sql: the statements that the server runs on SQLite, over a table as a list of rows with their keys;
--   Sql/Laws is about what a SELECT sees after a statement, Sql/Keys about unique keys.
-- Job: the statuses of chatterbox-server/job_types.py and a row of the table `jobs` of
--   chatterbox-server/db_schema.py; Job/Handlers: the registries of handlers and their labels.
-- Queue: `JobQueue` of chatterbox-server/jobqueue.py, as a record that the operations pass on, and
--   the queue and the messages of chatterbox-server/valkey_util.py. Queue/Submit: `add_job`,
--   `resubmit_job`. Queue/Control: `cancel_job`, `delete_job`, `update_*`. Queue/Report: `get_status`,
--   `get_user_jobs` and the searches for failed jobs. Queue/Clear: `clear_job_queue`. Queue/Worker:
--   chatterbox-server/job_worker.py. Queue/Loop: `_process_queue`, `_load_pending_jobs`, `shutdown`,
--   `stop`. Queue/Valid: the invariant that access codes are unique and that every pending job is in
--   the in-memory queue, and the operations; Queue/Valid/Reachable: the states that requests and turns
--   of the worker lead to, in any order. Queue/Single: the worker thread.
-- Checkpoint: chatterbox-server/job_checkpoint.py and `CheckpointHelper` of
--   chatterbox-server/video_util.py, with two tables of chatterbox-server/config.py.
--   Checkpoint/Files: the removal of the outputs of steps that are invalidated; Checkpoint/Edited: the
--   names of edited SRT files.
-- Pipeline: chatterbox-server/pipeline.py, the wrappers of the steps (Pipeline/Steps) and the handlers
--   of chatterbox-server/video_custom_job.py and video_ning_job.py (Pipeline/Handlers).
--   Pipeline/Tempo: the chain of `_build_atempo_filter`.
-- Limits: the request limiters of chatterbox-server/valkey_util.py; Limits/Requests: those of
--   chatterbox-server/middleware.py on top of them.
-- Split: `split_text` of gen_audio/gen_audio.py, which is also `_split_text` of
--   chatterbox-server/audio_job.py.
-- Cache: `_check_cache` and `_migrate_cache` of gen_audio/gen_audio.py, over the entries and the WAV
--   files.
-- Languages: `detect_dominant_script` of chatterbox-server/language_utils.py, and the check of a text's
--   language of chatterbox-server/middleware.py.
-- Accounts: `UserManager` of chatterbox-server/auth.py; Accounts/Requests: its writing operations as one
--   function; Accounts/Valid: the table; Accounts/Codes: verification and reset codes up to the login.
-- Thermal: `ThermalGate` of gpu_thermal.py; Thermal/Hang: `HangGuard`; Thermal/Laws and
--   Thermal/Shutdown: the pause and the shutdown over sequences of events.
-- Daemon: the state of the warm translation daemon, translate/translate_daemon.py; Daemon/Requests: the
--   threads that read a request and dispatch it; Daemon/Jobs: the worker threads, in parts between which
--   other threads may come in; Daemon/Steps: all of them in any order. Daemon/Slots, Balance, Work,
--   Safety, Capacity: the worker slots; Daemon/Answers, Fair, Once: the responses; Daemon/Dispatch,
--   Prewarm, Guard: where jobs run, and the hang guard; Daemon/Pool, Refinement: the slots as an abstract
--   pool.
-- Stretch: `build_segment_defs` of chatterbox-server/segment_utils.py; Stretch/Exact and Sync: the length of
--   the stretched video; Stretch/Sound: each segment.
-- Calibrate: the calibration of an SRT file by a corrected text, chatterbox-server/routes/files.py;
--   Calibrate/Keys: `_chinese_key`, and the similarity of two keys; Calibrate/Parse: `_parse_segments`;
--   Calibrate/Walk: the walk of `_align_segments` over both lists, and its window; Calibrate/Slots: the
--   times of the entries; Calibrate/Compose: the corrected file.
-- Speech: the warm speech daemon, gen_audio/gen_audio_daemon.py, and the threads that read its requests;
--   Speech/Jobs: the job threads; Speech/Balance: the slots; Speech/Loads: the loading of a model while
--   others generate; Speech/Voice: the take that is kept.
-- Web: `login_required`, `csrf_required` and `api_endpoint` of chatterbox-server/middleware.py; Web/Guards:
--   the three together; Web/Paths: `safe_file_path`; Web/Srt: the checks of an SRT file; Web/Files: the
--   routes of chatterbox-server/routes/files.py that read, save, correct and resubmit SRT files.
-- Examples: tests, and runs of the theorems at concrete inputs.
--
-- How the parts interact: a request adds or changes a row and queues its access code; the worker takes
-- a code from the shared list or the in-memory queue, claims its row by an UPDATE on the status, and
-- runs its handler; the handler runs the steps of a pipeline, each guarded by the checkpoint column of
-- the row; a resubmission queues the code again. The translation daemon serves the translation step over
-- a socket: a request takes a slot and becomes a job, a worker thread runs it under the gate and the
-- hang guard, answers it, and gives the slot back. The speech daemon does the same for the speech step.
-- A route passes the guards, then its handler; the routes that save an SRT file take back the steps that
-- depend on it by the operations of Checkpoint, and a resubmission runs them again.
--
-- The code mutates one object from several threads. Here an operation is a function from a queue to a
-- queue. What other threads do while an operation waits is a function argument: `meanwhile` of
-- `cancel_job`, and a job's handler, which is any function on the queue. Answers of the operating
-- system (the time, a fresh access code, a failing statement, the import of a module, existing files)
-- are arguments too, and what it is told is listed in `effects`. A list stands for a queue and a
-- table; times are seconds, and REAL columns hold thousandths. The order of the keys of a table is that
-- of insertion. The worker's loop is modelled by one turn,
-- in which any statement of the database may fail; a statement that fails leaves the table as it was. The
-- two attempts to acquire a slot in the translation daemon's `_dispatch` are one step. Some loops have fuel, and give no result
-- where it does not suffice: a turn for each character of the text that is cut, for each unit of the
-- numerator or denominator of the stretch, and for each segment of both lists of the walk and one more;
-- theorems show that they always give a result. Scores of similarity and stretches are fractions, where the
-- code has floating point numbers.
--
-- Not modelled: `_extract_failure_reason` and the process helpers of chatterbox-server/job_worker.py;
-- the routes that are not named above, and of chatterbox-server/middleware.py the checks of uploads and of
-- the parameters of jobs; the extraction of text from Word documents; the OCR, the
-- terminal tools, and the programs that a step runs, which are parameters of the pipelines. Of the
-- daemons: their sockets, the loading of the models, the debug command, the translation of a file and the
-- synthesis, which are arguments. The libraries `srt` and `difflib` are arguments of the calibration. Of the
-- accounts: hashing, random codes and SMTP, which are arguments, and two registrations at once.
pub mod Common
pub mod Sql
pub mod Job
pub mod Queue
pub mod Checkpoint
pub mod Pipeline
pub mod Limits
pub mod Split
pub mod Cache
pub mod Languages
pub mod Accounts
pub mod Thermal
pub mod Daemon
pub mod Stretch
pub mod Calibrate
pub mod Speech
pub mod Web
pub mod Examples

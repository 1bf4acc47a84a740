-- ===== src/Examples/Reports.antt =====
-- The job list, the search for a failed job, and the removal of deleted jobs.

use ziguijia_translate_ml.Common.{String, ◌≡◌, refl, Bool, true, false, some}
use ziguijia_translate_ml.Queue.Report.{find_failed_ocr_job}
use ziguijia_translate_ml.Examples.Data.{stored}

found_b2_dir : find_failed_ocr_job "77" (some 1) stored ≡ some ("B2", some "/jobs/1")
unfolding find_failed_ocr_job
found_b2_dir = refl

abbrev stuck_dir : String → Bool
stuck_dir d = false

abbrev exists : String → Bool
exists d = true

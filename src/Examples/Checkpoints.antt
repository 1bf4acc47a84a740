-- ===== src/Examples/Checkpoints.antt =====
-- Marks, removals and invalidations of the steps of a sample job.
use ziguijia_translate_ml.Common.{
  String, ◌≡◌, refl, Bool, false, Option, some, List, [], ◌∷◌, [], str_eq,
}
use ziguijia_translate_ml.Sql.{select, update_key}
use ziguijia_translate_ml.Checkpoint.{clear_checkpoint_for_file, get_checkpoint}
use ziguijia_translate_ml.Checkpoint.Files.{Files}
use ziguijia_translate_ml.Examples.Data.{sample_row, stored}
use ziguijia_translate_ml.Job.{failed, Row}

abbrev full : Row
full = sample_row failed 20 (some "ocr,translate,audio")

abbrev steps : Option (List String)
steps = some ("ocr" ∷ "translate" ∷ "audio" ∷ "video" ∷ [])

cleared :
    get_checkpoint "B2" (clear_checkpoint_for_file "B2" "/jobs/1/audio/output.wav" stored)
    ≡ "ocr,translate"
unfolding get_checkpoint clear_checkpoint_for_file select update_key
cleared = refl

abbrev never : String → Bool
never p = false

abbrev disk : Files
disk = record {
  is_dir = λ p. str_eq p "/jobs/1";
  is_file = λ p. str_eq p "/jobs/1/output_final.mp4";
}

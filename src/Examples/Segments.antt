-- ===== src/Examples/Segments.antt =====
-- Three cached segments, and the migrations to other lists of segments.
use ziguijia_translate_ml.Common.{String, ◌≡◌, refl, Bool, true, false, none, some, [], ◌∷◌, str_eq}
use ziguijia_translate_ml.Cache.{SegCache, Wav, Cache, at_key, migrate_cache}
use ziguijia_translate_ml.Cache.Laws.{agrees, migrate_cache-agrees}

abbrev is_blank : String → Bool
is_blank s = str_eq s ""

abbrev entry : String → SegCache
entry s = record { content = s; duration = 2; fallback = false }

abbrev wav : String → Wav
wav s = record { spoken = s; seconds = 2; is_silent = false; is_readable = true }

abbrev cached : Cache
cached = record {
  entries = (0, entry "A") ∷ (1, entry "B") ∷ (2, entry "C") ∷ [];
  wavs = (0, wav "A") ∷ (1, wav "B") ∷ (2, wav "C") ∷ [];
}

-- The first segment is deleted: the last one's file moves, and the second is synthesised again. The
-- old entry of the last one stays, without a file.
abbrev deleted : Cache
deleted = record { entries = (1, entry "C") ∷ (2, entry "C") ∷ []; wavs = (1, wav "C") ∷ [] }

deletion : migrate_cache is_blank ("B" ∷ "C" ∷ []) cached ≡ some deleted
unfolding migrate_cache
deletion = refl

-- A segment is inserted in front: the file of "A" is removed, and then removed again.
insertion_raises : migrate_cache is_blank ("X" ∷ "A" ∷ "B" ∷ "C" ∷ []) cached ≡ none
unfolding migrate_cache
insertion_raises = refl

migrate_cache-agrees_example : agrees (at_key 1 deleted.entries) "C" ≡ true
migrate_cache-agrees_example =
    migrate_cache-agrees is_blank ("B" ∷ "C" ∷ []) cached deleted 1 "C" deletion refl refl

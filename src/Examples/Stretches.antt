-- ===== src/Examples/Stretches.antt =====
-- Runs on the segments of stretched videos, chatterbox-server/segment_utils.py.
use ziguijia_translate_ml.Common.{◌≡◌, none, List, [], ◌∷◌, All, refl, arith, inr}
use ziguijia_translate_ml.Stretch.{Cue, Pair, nums, build_segment_defs, segments_from}
use ziguijia_translate_ml.Stretch.Exact.{with_gap, with_slop, IsExact}
use ziguijia_translate_ml.Stretch.Sync.{nums-build_segment_defs}
use ziguijia_translate_ml.Stretch.Sound.{IsSound, segments_from-IsSound}

abbrev first_cue : Cue
first_cue = record { start = 1500; dur = 1000 }

abbrev first_adjusted : Cue
first_adjusted = record { start = 2000; dur = 1500 }

-- The first pair of cues behind an offset of half a second; the second pair follows in a gap, the third at once.
abbrev next_cues : List Pair
next_cues =
    (record { start = 3000; dur = 1000 }, record { start = 4500; dur = 3000 })
    ∷ (record { start = 4000; dur = 500 }, record { start = 9000; dur = 500 })
    ∷ []

-- The leading gap, a gap, the slop and the trailing gap
build_segment_defs_run :
    build_segment_defs 500 5000 (first_cue, first_adjusted) next_cues
    ≡ record { start = 500; finish = 1500; num = 2000; den = 1000 }
      ∷ record { start = 1500; finish = 2500; num = 1500; den = 1000 }
      ∷ record { start = 2500; finish = 3000; num = 1000; den = 500 }
      ∷ record { start = 3000; finish = 4000; num = 3000; den = 1000 }
      ∷ record { start = 3960; finish = 4000; num = 1500; den = 40 }
      ∷ record { start = 4000; finish = 4500; num = 500; den = 500 }
      ∷ record { start = 4500; finish = 5500; num = 1000; den = 1000 }
      ∷ []
unfolding build_segment_defs
build_segment_defs_run = refl

nums-build_segment_defs_example :
    All (IsExact 500 5000) (build_segment_defs 500 5000 (first_cue, first_adjusted) next_cues)
    × (nums (build_segment_defs 500 5000 (first_cue, first_adjusted) next_cues) ≡ 10500)
nums-build_segment_defs_example =
    nums-build_segment_defs 500 5000 first_cue first_adjusted next_cues
      (record {
        pos = omega arith;
        inside = omega arith;
        longer = omega arith;
        ten_times = omega arith;
      })
      (inr (omega arith))
      (
        record {
          pos = omega arith;
          inside = omega arith;
          longer = omega arith;
          ten_times = omega arith;
        },
        with_gap (omega arith) (omega arith) (omega arith),
        (
          record {
            pos = omega arith;
            inside = omega arith;
            longer = omega arith;
            ten_times = omega arith;
          },
          with_slop (omega arith) (omega arith) (omega arith) (omega arith) (omega arith),
          tt,
        ),
      )

segments_from-IsSound_example :
    All (IsSound 500 5000) (segments_from 500 5000 none 0 ((first_cue, first_adjusted) ∷ next_cues))
segments_from-IsSound_example =
    segments_from-IsSound 500 5000 none 0 ((first_cue, first_adjusted) ∷ next_cues)

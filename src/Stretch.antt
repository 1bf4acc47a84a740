-- ===== src/Stretch.antt =====
-- chatterbox-server/segment_utils.py, `build_segment_defs`: how each part of the original timeline is
-- stretched so that it matches the adjusted one. Times are milliseconds and arithmetic is exact; a cue
-- does not end before it starts. Positions on the original timeline are those of the file, before the
-- offset is subtracted, also in the segments. A stretch is a fraction.
pub mod Exact
pub mod Sync
pub mod Sound
use ziguijia_translate_ml.Common.{
  ℕ, Option, none, some, List, [], ◌∷◌, ◌++◌, ◌+◌, ◌-◌, ◌*◌, ltb, leb, ◌&&◌, if◌then◌else◌,
}
use ziguijia_translate_ml.Calibrate.{min, max}

pub record Cue : Type 0 where
  pub start : ℕ
  pub dur : ℕ

abbrev pub cue_end : Cue → ℕ
cue_end c = c.start + c.dur

-- The stretch is `num` over `den`.
pub record Segment : Type 0 where
  pub start : ℕ
  pub finish : ℕ
  pub num : ℕ
  pub den : ℕ

-- How long the segments last when they are stretched, where a segment is as long as its `den`.
unfoldable pub nums : List Segment → ℕ
nums [] = 0
nums (s ∷ ss) = s.num + nums ss

-- An original cue and the adjusted one.
abbrev pub Pair : Type 0
Pair = Cue × Cue

abbrev pub last_end : Cue → List Pair → ℕ
last_end o [] = cue_end o
last_end o ((o', a') ∷ cues) = last_end o' cues

module _ (offset video_duration : ℕ) where
  -- The end of the video on the file's timeline.
  abbrev pub video_end : ℕ
  video_end = video_duration + offset

  -- Leading gap
  unfoldable pub leading_gap : Cue → Cue → List Segment
  leading_gap o a =
      if ltb 0 a.start && ltb offset o.start
      then record {
        start = offset;
        finish = min o.start video_end;
        num = a.start;
        den = o.start - offset;
      }
        ∷ []
      else []

  -- `video_cumul` behind the leading gap
  unfoldable pub leading_cumul : Cue → Cue → ℕ
  leading_cumul o a = if ltb 0 a.start && ltb offset o.start then a.start else 0

  -- A gap of the original timeline; `if orig_gap > 0`, with the stretch between 0 and 100
  abbrev pub stretched_gap : (start finish gap needed : ℕ) → List Segment
  stretched_gap start finish gap needed =
      if ltb 0 gap
      then record { start = start; finish = finish; num = min (100 * gap) needed; den = gap } ∷ []
      else []

  -- Gap before this subtitle; `_SLOP` is 40 milliseconds
  unfoldable pub gap_before : (prev_end : Option ℕ) → Cue → Cue → (cumul : ℕ) → List Segment
  gap_before none o a cumul = []
  gap_before (some prev) o a cumul =
      if ltb (prev + 1) o.start
      then stretched_gap prev (min o.start video_end) (o.start - prev) (a.start - cumul)
      else (if ltb (cumul + 1) a.start
          then stretched_gap (max offset (prev - 40)) (min prev video_end)
              (min prev video_end - max offset (prev - 40)) (a.start - cumul)
          else [])

  -- `orig_dur`, cut at the end of the video
  abbrev pub orig_dur : Cue → ℕ
  orig_dur o = if ltb video_end (cue_end o) then video_end - o.start else o.dur

  -- Subtitle segment, with the stretch between 1 and 10
  unfoldable pub subtitle : Cue → Cue → Segment
  subtitle o a =
      let d = orig_dur o in
      if ltb 0 d
      then record {
        start = o.start;
        finish = o.start + d;
        num = max d (min (10 * d) a.dur);
        den = d;
      }
      else record { start = o.start; finish = o.start + d; num = 1; den = 1 }

  -- What a subtitle adds to `video_cumul`
  unfoldable pub subtitle_length : Cue → Cue → ℕ
  subtitle_length o a = let d = orig_dur o in if ltb 0 d then max d (min (10 * d) a.dur) else 0

  -- The loop from one cue on, up to its `break`.
  unfoldable pub segments_from : (prev_end : Option ℕ) → (cumul : ℕ) → List Pair → List Segment
  unfolding gap_before subtitle subtitle_length nums
  segments_from prev cumul [] = []
  segments_from prev cumul ((o, a) ∷ cues) =
      let gap = gap_before prev o a cumul in
      let rest = segments_from (some (cue_end o)) (cumul + nums gap + subtitle_length o a) cues in
      if leb video_end o.start then [] else gap ++ subtitle o a ∷ rest

  -- Trailing gap, as it was
  unfoldable pub trailing_gap : (last_end : ℕ) → List Segment
  trailing_gap end =
      if ltb end video_end
      then record { start = end; finish = video_end; num = video_end - end; den = video_end - end }
        ∷ []
      else []

  -- `build_segment_defs`, of one cue at least
  unfoldable pub build_segment_defs : Pair → List Pair → List Segment
  unfolding leading_gap leading_cumul segments_from trailing_gap
  build_segment_defs (o, a) cues =
      leading_gap o a
      ++ (segments_from none (leading_cumul o a) ((o, a) ∷ cues) ++ trailing_gap (last_end o cues))

-- ===== src/Stretch/Sync.antt =====
-- The stretched video keeps in step with the adjusted track.
use ziguijia_translate_ml.Common.{
  All, All-append, ℕ, ◌≡◌, ◌⊎◌, Option, none, some, List, [], ◌∷◌, ◌++◌, ◌+◌, ◌-◌, ◌<◌, inl, inr,
  arith,
}
use ziguijia_translate_ml.Stretch.{
  Cue, cue_end, Segment, Pair, nums, last_end, video_end, leading_gap, leading_cumul, gap_before,
  subtitle, subtitle_length, segments_from, trailing_gap, build_segment_defs,
}
use ziguijia_translate_ml.Stretch.Exact.{
  Fits, Bridged, adjacent, with_gap, with_slop, InStep, inside-leb, IsExact, turn-IsExact,
  segments_from-IsExact, leading_gap-IsExact, trailing_gap-IsExact,
}

-- The end of the last adjusted cue.
abbrev pub last_adjusted : Cue → List Pair → ℕ
last_adjusted a [] = cue_end a
last_adjusted a ((o', a') ∷ cues) = last_adjusted a' cues

nums-append : (xs ys : List Segment) → nums (xs ++ ys) ≡ nums xs + nums ys
unfolding nums
nums-append [] ys = omega arith
nums-append (x ∷ xs) ys = omega (arith, nums-append xs ys)

module _ (offset video_duration : ℕ) where
  nums-gap_before :
      (prev e : ℕ) (o a : Cue)
      → Fits offset video_duration o a
      → Bridged offset video_duration prev e o a
      → e + nums (gap_before offset video_duration (some prev) o a e) ≡ a.start
  unfolding gap_before nums
  nums-gap_before prev e o a f (adjacent h) = ground arith
  nums-gap_before prev e o a f (with_gap h k l) = ground arith
  nums-gap_before prev e o a f (with_slop h k l m n) = ground arith

  subtitle_length-dur :
      (o a : Cue)
      → Fits offset video_duration o a
      → subtitle_length offset video_duration o a ≡ a.dur
  unfolding subtitle_length
  subtitle_length-dur o a f = ground arith

  num-subtitle :
      (o a : Cue)
      → Fits offset video_duration o a
      → (subtitle offset video_duration o a).num ≡ a.dur
  unfolding subtitle
  num-subtitle o a f = ground arith

  -- What one turn of the loop adds.
  nums-turn :
      (prev : Option ℕ) (e : ℕ) (o a : Cue) (cues : List Pair)
      → Fits offset video_duration o a
      → e + nums (gap_before offset video_duration prev o a e) ≡ a.start
      → cue_end a + nums (segments_from offset video_duration (some (cue_end o)) (cue_end a) cues)
        ≡ last_adjusted a cues
      → e + nums (segments_from offset video_duration prev e ((o, a) ∷ cues)) ≡ last_adjusted a cues
  unfolding segments_from nums
  nums-turn prev e o a cues f gap rest =
      let gaps = gap_before offset video_duration prev o a e in
      let cumul : e + nums gaps + subtitle_length offset video_duration o a ≡ cue_end a =
        omega (arith, subtitle_length-dur o a f) in
      rw (inside-leb offset video_duration o a f, cumul)
        (omega (
          arith,
          num-subtitle o a f,
          nums-append gaps (
              subtitle offset video_duration o a
              ∷ segments_from offset video_duration (some (cue_end o)) (cue_end a) cues),
        ))

  nums-segments_from :
      (before o : Cue) (cues : List Pair)
      → InStep offset video_duration (cue_end o) (cue_end before) cues
      → cue_end before
          + nums (segments_from offset video_duration (some (cue_end o)) (cue_end before) cues)
        ≡ last_adjusted before cues
  unfolding segments_from nums
  nums-segments_from before o [] v = omega arith
  nums-segments_from before o ((o', a') ∷ cues) v =
      nums-turn (some (cue_end o)) (cue_end before) o' a' cues v.0
        (nums-gap_before (cue_end o) (cue_end before) o' a' v.0 v.1)
        (nums-segments_from a' o' cues v.2)

  nums-leading_gap :
      (o a : Cue)
      → nums (leading_gap offset video_duration o a) ≡ leading_cumul offset video_duration o a
  unfolding leading_gap leading_cumul nums
  nums-leading_gap o a = ground arith

  first-start :
      (o a : Cue)
      → (a.start ≡ 0) ⊎ (offset < o.start)
      → leading_cumul offset video_duration o a
          + nums
              (gap_before offset video_duration none o a (leading_cumul offset video_duration o a))
        ≡ a.start
  unfolding leading_cumul gap_before nums
  first-start o a (inl h) = ground arith
  first-start o a (inr h) = ground arith

  nums-trailing_gap :
      (end : ℕ)
      → nums (trailing_gap offset video_duration end) ≡ video_end offset video_duration - end
  unfolding trailing_gap nums
  nums-trailing_gap end = ground arith

  -- Every segment is as long as the denominator of its stretch, so that it lasts as long as the
  -- numerator when it is stretched, and all together they last as long as the adjusted track up to its
  -- last cue and then the rest of the video: the first cue starts behind the offset or the adjusted one
  -- at 0, every cue lies in the video and is not shortened and at most ten times as long, and every next
  -- adjusted cue follows at once or its gap can be stretched to it.
  pub nums-build_segment_defs :
      (o a : Cue) (cues : List Pair)
      → Fits offset video_duration o a
      → (a.start ≡ 0) ⊎ (offset < o.start)
      → InStep offset video_duration (cue_end o) (cue_end a) cues
      → All (IsExact offset video_duration) (build_segment_defs offset video_duration (o, a) cues)
        × (nums (build_segment_defs offset video_duration (o, a) cues)
            ≡ last_adjusted a cues + (video_end offset video_duration - last_end o cues))
  unfolding build_segment_defs
  nums-build_segment_defs o a cues f begins v = (
    All-append (IsExact offset video_duration) (leading_gap offset video_duration o a) _
        (leading_gap-IsExact offset video_duration o a f)
        (All-append (IsExact offset video_duration)
          (segments_from offset video_duration none (leading_cumul offset video_duration o a)
            ((o, a) ∷ cues))
          _
          (turn-IsExact offset video_duration none _ o a cues f (λ cumul.
            segments_from-IsExact offset video_duration _ cumul (cue_end o) (cue_end a) cues v))
          (trailing_gap-IsExact offset video_duration (last_end o cues))),
    omega (
      arith,
      nums-append (leading_gap offset video_duration o a) (
          segments_from offset video_duration none (leading_cumul offset video_duration o a)
            ((o, a) ∷ cues)
          ++ trailing_gap offset video_duration (last_end o cues)),
      nums-append
          (segments_from offset video_duration none (leading_cumul offset video_duration o a)
            ((o, a) ∷ cues))
          (trailing_gap offset video_duration (last_end o cues)),
      nums-leading_gap o a,
      nums-trailing_gap (last_end o cues),
      nums-turn none (leading_cumul offset video_duration o a) o a cues f (first-start o a begins)
          (nums-segments_from a o cues v),
    ),
  )

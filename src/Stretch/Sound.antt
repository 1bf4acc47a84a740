-- ===== src/Stretch/Sound.antt =====
-- Every segment of the loop can be cut out and stretched.
use ziguijia_translate_ml.Common.{
  ℕ, ◌≡◌, ◌⊎◌, true, false, Option, none, some, List, [], ◌∷◌, ◌+◌, ◌-◌, ◌*◌, ◌≤◌, ◌<◌, ltb, ltb→lt,
  leb, All, All-append, arith, Bool-cases, inl, inr,
}
use ziguijia_translate_ml.Calibrate.{min, max}
use ziguijia_translate_ml.Stretch.{
  Cue, cue_end, Segment, Pair, nums, video_end, stretched_gap, gap_before, orig_dur, subtitle,
  subtitle_length, segments_from,
}

module _ (offset video_duration : ℕ) where
  -- A segment lies before the end of the video, it is as long as the denominator of its stretch or of
  -- no length, and it is stretched at most a hundred times.
  pub record IsSound (s : Segment) : Type 0 where
    pub length : (s.start + s.den ≡ s.finish) ⊎ (s.start ≡ s.finish)
    pub pos : 0 < s.den
    pub bounded : s.num ≤ 100 * s.den
    pub inside : s.finish ≤ video_end offset video_duration

  stretched_gap-IsSound :
      (start finish gap needed : ℕ)
      → (0 < gap → start + gap ≡ finish)
      → finish ≤ video_end offset video_duration
      → All IsSound (stretched_gap offset video_duration start finish gap needed)
  stretched_gap-IsSound start finish gap needed h k = elim (Bool-cases (ltb 0 gap)) [
    | inl some_gap ↦ rw some_gap (sound some_gap, tt)
    | inr no_gap ↦ rw no_gap tt
  ]
    where
      sound :
          ltb 0 gap ≡ true
          → IsSound
              (record { start = start; finish = finish; num = min (100 * gap) needed; den = gap })
      sound some_gap = record {
        length = inl (h (ltb→lt 0 gap some_gap));
        pos = ground arith;
        bounded = ground arith;
        inside = k;
      }

  gap_before-IsSound :
      (prev : Option ℕ) (o a : Cue) (cumul : ℕ)
      → leb (video_end offset video_duration) o.start ≡ false
      → All IsSound (gap_before offset video_duration prev o a cumul)
  unfolding gap_before
  gap_before-IsSound none o a cumul h = tt
  gap_before-IsSound (some prev) o a cumul h = elim (Bool-cases (ltb (prev + 1) o.start)) [
    | inl gap ↦ rw gap (stretched_gap-IsSound _ _ _ _ (λ p. ground arith) (ground arith))
    | inr no_gap ↦ rw no_gap (elim (Bool-cases (ltb (cumul + 1) a.start)) [
      | inr enough ↦ rw enough tt
      | inl needed ↦ rw needed (slop prev (a.start - cumul))
    ])
  ]
    where
      slop :
          (p needed : ℕ)
          → All IsSound (
              stretched_gap offset video_duration
                (max offset (p - 40))
                (min p (video_end offset video_duration))
                (min p (video_end offset video_duration) - max offset (p - 40))
                needed)
      slop p needed = stretched_gap-IsSound _ _ _ needed (λ pos. ground arith) (ground arith)

  subtitle-IsSound :
      (o a : Cue)
      → leb (video_end offset video_duration) o.start ≡ false
      → IsSound (subtitle offset video_duration o a)
  unfolding subtitle
  subtitle-IsSound o a h = elim (Bool-cases (ltb 0 (orig_dur offset video_duration o))) [
    | inl some_time ↦ rw some_time (record {
      length = inl (omega arith);
      pos = ground arith;
      bounded = ground arith;
      inside = ground arith;
    })
    | inr no_time ↦ rw no_time (record {
      length = inr (ground arith);
      pos = omega arith;
      bounded = omega arith;
      inside = ground arith;
    })
  ]

  -- Every segment of the cues and of the gaps between them lies before the end of the video, is
  -- stretched by a fraction between 0 and 100, and is as long as its denominator or of no length, whatever
  -- the two tracks are.
  pub segments_from-IsSound :
      (prev : Option ℕ) (cumul : ℕ) (cues : List Pair)
      → All IsSound (segments_from offset video_duration prev cumul cues)
  unfolding segments_from
  segments_from-IsSound prev cumul [] = tt
  segments_from-IsSound prev cumul ((o, a) ∷ cues) =
      let gap = gap_before offset video_duration prev o a cumul in
      let rest =
        segments_from-IsSound (some (cue_end o))
          (cumul + nums gap + subtitle_length offset video_duration o a) cues in
      elim (Bool-cases (leb (video_end offset video_duration) o.start)) [
        | inl past ↦ rw past tt
        | inr inside ↦ rw inside (
            All-append IsSound gap _ (gap_before-IsSound prev o a cumul inside)
              (subtitle-IsSound o a inside, rest))
      ]

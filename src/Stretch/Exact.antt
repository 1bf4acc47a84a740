-- ===== src/Stretch/Exact.antt =====
-- Cues that can be kept in step, and how long the segments of such cues are.
use ziguijia_translate_ml.Common.{
  ℕ, ◌≡◌, true, false, Option, none, some, List, [], ◌∷◌, ◌+◌, ◌-◌, ◌*◌, ◌≤◌, ◌<◌, ltb, leb, ◌&&◌,
  inl, inr, arith, Bool-cases, ltb→lt, All, All-append,
}
use ziguijia_translate_ml.Calibrate.{min, max}
use ziguijia_translate_ml.Stretch.{
  Cue, cue_end, Segment, Pair, video_end, leading_gap, stretched_gap, gap_before, subtitle,
  segments_from, trailing_gap,
}

module _ (offset video_duration : ℕ) where
  -- A cue that lies in the video and is not made shorter, nor more than ten times as long.
  pub record Fits (o a : Cue) : Type 0 where
    pub pos : 0 < o.dur
    pub inside : cue_end o ≤ video_end offset video_duration
    pub longer : o.dur ≤ a.dur
    pub ten_times : a.dur ≤ 10 * o.dur

  -- The adjusted cue starts where the one before ended, or later and the gap of the original can be
  -- stretched to that, or later where the original has no gap and the end of the cue before is stretched.
  pub data Bridged (prev e : ℕ) (o a : Cue) : Type 0 where
    adjacent : a.start ≡ e → Bridged prev e o a
    with_gap :
        prev + 1 < o.start → e ≤ a.start → a.start ≤ e + 100 * (o.start - prev) → Bridged prev e o a
    with_slop :
        o.start ≤ prev + 1
        → offset + 40 ≤ prev
        → prev ≤ video_end offset video_duration
        → e + 1 < a.start
        → a.start ≤ e + 4000
        → Bridged prev e o a

  abbrev pub InStep : (prev e : ℕ) → List Pair → Type 0
  InStep prev e [] = Unit
  InStep prev e ((o, a) ∷ cues) =
      Fits o a × Bridged prev e o a × InStep (cue_end o) (cue_end a) cues

  pub inside-leb : (o a : Cue) → Fits o a → leb (video_end offset video_duration) o.start ≡ false
  inside-leb o a f = ground arith

  -- A segment that is as long as the denominator of its stretch, which is not 0. Stretched, it is as
  -- long as the numerator.
  pub record IsExact (s : Segment) : Type 0 where
    pub pos : 0 < s.den
    pub length : s.start + s.den ≡ s.finish

  stretched_gap-IsExact :
      (start finish gap needed : ℕ)
      → (0 < gap → start + gap ≡ finish)
      → All IsExact (stretched_gap offset video_duration start finish gap needed)
  stretched_gap-IsExact start finish gap needed h = elim (Bool-cases (ltb 0 gap)) [
    | inl some_gap ↦ rw some_gap (exact (ltb→lt 0 gap some_gap), tt)
    | inr no_gap ↦ rw no_gap tt
  ]
    where
      exact :
          0 < gap
          → IsExact
              (record { start = start; finish = finish; num = min (100 * gap) needed; den = gap })
      exact is_gap = record { pos = is_gap; length = h is_gap }

  gap_before-IsExact :
      (prev : Option ℕ) (e : ℕ) (o a : Cue)
      → Fits o a
      → All IsExact (gap_before offset video_duration prev o a e)
  unfolding gap_before
  gap_before-IsExact none e o a f = tt
  gap_before-IsExact (some prev) e o a f = elim (Bool-cases (ltb (prev + 1) o.start)) [
    | inl gap ↦ rw gap (stretched_gap-IsExact _ _ _ _ (λ p. ground (arith, f.inside)))
    | inr no_gap ↦ rw no_gap (elim (Bool-cases (ltb (e + 1) a.start)) [
      | inl needed ↦ rw needed (slop prev (a.start - e))
      | inr enough ↦ rw enough tt
    ])
  ]
    where
      slop :
          (p needed : ℕ)
          → All IsExact (
              stretched_gap offset video_duration
                (max offset (p - 40))
                (min p (video_end offset video_duration))
                (min p (video_end offset video_duration) - max offset (p - 40))
                needed)
      slop p needed = stretched_gap-IsExact _ _ _ needed (λ pos. ground arith)

  subtitle-IsExact : (o a : Cue) → Fits o a → IsExact (subtitle offset video_duration o a)
  unfolding subtitle
  subtitle-IsExact o a f = record {
    pos = ground (arith, f.pos, f.inside);
    length = ground (arith, f.pos, f.inside);
  }

  pub turn-IsExact :
      (prev : Option ℕ) (cumul : ℕ) (o a : Cue) (cues : List Pair)
      → Fits o a
      → ((cumul' : ℕ)
          → All IsExact (segments_from offset video_duration (some (cue_end o)) cumul' cues))
      → All IsExact (segments_from offset video_duration prev cumul ((o, a) ∷ cues))
  unfolding segments_from
  turn-IsExact prev cumul o a cues f rest = rw (inside-leb o a f) (
      All-append IsExact (gap_before offset video_duration prev o a cumul) _
        (gap_before-IsExact prev cumul o a f) (subtitle-IsExact o a f, rest _))

  pub segments_from-IsExact :
      (prev : Option ℕ) (cumul p e : ℕ) (cues : List Pair)
      → InStep p e cues
      → All IsExact (segments_from offset video_duration prev cumul cues)
  unfolding segments_from
  segments_from-IsExact prev cumul p e [] v = tt
  segments_from-IsExact prev cumul p e ((o, a) ∷ cues) v =
      turn-IsExact prev cumul o a cues v.0
        (λ cumul'. segments_from-IsExact (some (cue_end o)) cumul' (cue_end o) (cue_end a) cues v.2)

  pub leading_gap-IsExact :
      (o a : Cue) → Fits o a → All IsExact (leading_gap offset video_duration o a)
  unfolding leading_gap
  leading_gap-IsExact o a f = elim (Bool-cases (ltb 0 a.start && ltb offset o.start)) [
    | inl gap ↦ rw gap (exact gap, tt)
    | inr no_gap ↦ rw no_gap tt
  ]
    where
      exact :
          (ltb 0 a.start && ltb offset o.start) ≡ true
          → IsExact (record {
            start = offset;
            finish = min o.start (video_end offset video_duration);
            num = a.start;
            den = o.start - offset;
          })
      exact gap = record { pos = ground (arith, gap); length = ground (arith, gap, f.inside) }

  pub trailing_gap-IsExact : (end : ℕ) → All IsExact (trailing_gap offset video_duration end)
  unfolding trailing_gap
  trailing_gap-IsExact end = elim (Bool-cases (ltb end (video_end offset video_duration))) [
    | inl gap ↦ rw gap (exact gap, tt)
    | inr no_gap ↦ rw no_gap tt
  ]
    where
      exact :
          ltb end (video_end offset video_duration) ≡ true
          → IsExact (record {
            start = end;
            finish = video_end offset video_duration;
            num = video_end offset video_duration - end;
            den = video_end offset video_duration - end;
          })
      exact gap = record { pos = ground arith; length = ground arith }

-- ===== src/Robot/Heartbeats.antt =====
-- What the check on the heartbeat period asserts (`assert_heartbeat_sequence_timing` of
-- starter/robot/libraries/gateway_log.py).
use vehicle_bench_candidate.Base.{
  ℕ, suc, ◌+◌, ◌≡◌, ◌⊎◌, inl, inr, refl, ap, ◌∙◌, Bool, true, false, not, ◌&&◌, Bool-cases, List,
  [], ◌∷◌, ◌++◌, length, if◌then◌else◌, All, arith,
}
use vehicle_bench_candidate.Robot.{
  Floats, Sample, Checked, off_period, ends_with, check_from, assert_heartbeat_sequence_timing,
}

module _ {F : Type 0} (fl : Floats F) where
  -- The number goes on by one and the time goes on.
  abbrev pub goes_on : Sample F → Sample F → Bool
  goes_on a b = not (fl.differs b.seq (fl.plus_one a.seq)) && not (fl.at_most b.time a.time)

  -- The time between two heartbeats, each from its answer back over its latency.
  abbrev pub period_of : Sample F → Sample F → F
  period_of a b =
      fl.minus (fl.minus b.time (fl.per_mille b.latency)) (fl.minus a.time (fl.per_mille a.latency))

  abbrev pub deviates : F → F → Sample F × Sample F → Bool
  deviates period tolerance (a, b) =
      fl.exceeds (fl.magnitude (fl.minus (period_of a b) period)) tolerance

  -- The neighbours in the log whose numbers and times go on.
  abbrev nominal_from : Sample F → List (Sample F) → List (Sample F × Sample F)
  nominal_from a [] = []
  nominal_from a (b ∷ rest) =
      if goes_on a b then (a, b) ∷ nominal_from b rest else nominal_from b rest

  abbrev pub nominal : List (Sample F) → List (Sample F × Sample F)
  nominal [] = []
  nominal (s ∷ samples) = nominal_from s samples

  -- The verdict on all pairs at once: the first that is off the period, or how many there are.
  abbrev pub verdict : F → F → ℕ → List (Sample F × Sample F) → Checked ℕ F
  verdict period tolerance n [] = ends_with fl n
  verdict period tolerance n ((a, b) ∷ pairs) =
      if deviates period tolerance (a, b)
      then off_period a.seq b.seq
      else verdict period tolerance (suc n) pairs

  check_from-verdict :
      (period tolerance : F) (n : ℕ) (a : Sample F) (rest : List (Sample F))
      → check_from fl period tolerance n a rest ≡ verdict period tolerance n (nominal_from a rest)
  unfolding check_from
  check_from-verdict period tolerance n a [] = refl
  check_from-verdict period tolerance n a (b ∷ rest) =
      elim (Bool-cases (fl.differs b.seq (fl.plus_one a.seq))) [
        | inl gap ↦ rw gap (check_from-verdict period tolerance n b rest)
        | inr next ↦ elim (Bool-cases (fl.at_most b.time a.time)) [
          | inl back ↦ rw (next, back) (check_from-verdict period tolerance n b rest)
          | inr on ↦
              rw (next, on)
                (ap (λ c. if deviates period tolerance (a, b) then off_period a.seq b.seq else c)
                  (check_from-verdict period tolerance (suc n) b rest))
        ]
      ]

  abbrev pub IsOn : F → F → Sample F × Sample F → Type 0
  IsOn period tolerance pair = deviates period tolerance pair ≡ false

  -- The first pair that is off, if there is one.
  abbrev pub FirstOff : F → F → List (Sample F × Sample F) → Checked ℕ F → Type 0
  FirstOff period tolerance pairs result =
      (before after : List (Sample F × Sample F)) × (a b : Sample F) × (pairs
        ≡ before ++ (a, b) ∷ after)
      × All (IsOn period tolerance) before
      × (deviates period tolerance (a, b) ≡ true)
      × (result ≡ off_period a.seq b.seq)

  verdict-cases :
      (period tolerance : F) (n : ℕ) (pairs : List (Sample F × Sample F))
      → (All (IsOn period tolerance) pairs
          × (verdict period tolerance n pairs ≡ ends_with fl (n + length pairs)))
        ⊎ FirstOff period tolerance pairs (verdict period tolerance n pairs)
  verdict-cases period tolerance n [] = inl (tt, ap (ends_with fl) (omega arith))
  verdict-cases period tolerance n ((a, b) ∷ pairs) =
      elim (Bool-cases (deviates period tolerance (a, b))) [
        | inl bad ↦ inr ([], pairs, a, b, refl, tt, bad, rw bad refl)
        | inr good ↦ elim (verdict-cases period tolerance (suc n) pairs) [
          | inl (on, counted) ↦
              inl ((good, on), rw good (counted ∙ ap (ends_with fl) (omega arith)))
          | inr (before, after, a', b', split, on, bad, says) ↦ inr (
            (a, b) ∷ before,
            after,
            a',
            b',
            ap (λ t. (a, b) ∷ t) split,
            (good, on),
            bad,
            rw good says,
          )
        ]
      ]

  -- The check looks at the neighbours in the log where the number grows by one and the time grows. The
  -- period of a pair is the difference of their times, each less a thousandth of the latency. If the
  -- absolute difference of each such period from the expected one is within the tolerance, it passes with their number, or fails for want of any if there is none;
  -- otherwise it fails, with the numbers of the first pair that is off.
  pub heartbeat_timing_checked :
      (period tolerance : F) (samples : List (Sample F))
      → let result = assert_heartbeat_sequence_timing fl period tolerance samples in
        (All (IsOn period tolerance) (nominal samples)
          × (result ≡ ends_with fl (length (nominal samples))))
        ⊎ FirstOff period tolerance (nominal samples) result
  unfolding assert_heartbeat_sequence_timing
  heartbeat_timing_checked period tolerance [] = inl (tt, refl)
  heartbeat_timing_checked period tolerance (s ∷ samples) =
      elim (verdict-cases period tolerance 0 (nominal_from s samples)) [
        | inl (on, counted) ↦ inl (
          on,
          check_from-verdict period tolerance 0 s samples
              ∙ counted
              ∙ ap (ends_with fl) (omega arith),
        )
        | inr (before, after, a, b, split, on, bad, says) ↦ inr (
          before,
          after,
          a,
          b,
          split,
          on,
          bad,
          check_from-verdict period tolerance 0 s samples ∙ says,
        )
      ]

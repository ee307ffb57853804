-- ===== src/Config/Durations.antt =====
-- json.go, `ParseDurationToSeconds`: how long an interval can be.
use go_metrics.Common.{
  ℕ, ◌^◌, ◌≤◌, ◌≡◌, ◌⊎◌, Option, inl, inr, String, none, some, arith, Option-cases,
}
use go_metrics.Config.{seconds_or, Host, ok, parse_duration_to_seconds}

-- The longest time.Duration has 9223372036 whole seconds. A negative int has its sign bit set.
pub record HasDurations (host : Host) : Type 0 where
  pub bounded :
      (text : String) (d : ℕ)
      → host.parse_duration text ≡ some d
      → (host.seconds d ≤ 9223372036) ⊎ (2 ^ 63 ≤ host.seconds d)

pub parse_duration_to_seconds_bound :
    (host : Host) (text : String) (n : ℕ)
    → HasDurations host
    → parse_duration_to_seconds host text ≡ ok n
    → n ≤ 9223372036
unfolding parse_duration_to_seconds
parse_duration_to_seconds_bound host text n durations h =
    elim (Option-cases (host.parse_duration text)) [
      | inl bad ↦ absurd (ground (arith, bad))
      | inr (d, good) ↦ ground (arith, good, durations.bounded text d good)
    ]

module _ (host : Host) (durations : HasDurations host) where
  pub seconds_or_bound :
      (d n : ℕ) (o : Option String) → d ≤ 9223372036 → seconds_or d host o ≡ ok n → n ≤ 9223372036
  seconds_or_bound d n none p h = ground arith
  seconds_or_bound d n (some text) p h = parse_duration_to_seconds_bound host text n durations h

-- ===== src/Retry/Time.antt =====
-- How often `Retry` calls the function, and how far apart.
use go_metrics.Common.{ℕ, zero, suc, ◌+◌, ◌≤◌, ◌≡◌, ap, Option, none, some, List, get_elem?, arith}
use go_metrics.Retry.{GoError, RetryConfig, Env, retry_loop, retry}
use go_metrics.Retry.Rounds.{
  FailedRound, succeeds, again, cancelled, refused, cancelled_waiting, no_delay, view,
}

abbrev or_zero : Option ℕ → ℕ
or_zero none = 0
or_zero (some d) = d

-- The sum of `m` delays, from the one after attempt `a` on.
abbrev span : ℕ → ℕ → List ℕ → ℕ
span a zero ds = 0
span a (suc m) ds = or_zero (get_elem? ds a) + span (suc a) m ds

-- The delays between `n` calls, of which attempt `a` is the first.
abbrev pub between : ℕ → ℕ → List ℕ → ℕ
between a zero ds = 0
between a (suc m) ds = span a m ds

span_step :
    (n a d : ℕ) (ds : List ℕ) → get_elem? ds a ≡ some d → span a n ds ≤ d + between (suc a) n ds
span_step zero a d ds h = omega arith
span_step (suc m) a d ds h = omega (arith, ap or_zero h)

module _ {W : Type 0} (env : Env W) (config : RetryConfig) (fn : W → Option GoError × W) where
  -- A clock that is never turned back, and a count of the calls. A wait that is not cut short takes at
  -- least its delay, as a timer of package time does.
  pub record IsClock (time calls : W → ℕ) : Type 0 where
    pub called : (w : W) → calls (fn w).1 ≡ calls w + 1
    pub kept : (d : ℕ) (w : W) → calls (env.wait d w).1 ≡ calls w
    pub running : (w : W) → time w ≤ time (fn w).1
    pub waiting : (d : ℕ) (w : W) → time w ≤ time (env.wait d w).1
    pub waited : (d : ℕ) (w : W) → (env.wait d w).0 ≡ none → time w + d ≤ time (env.wait d w).1

  -- From `w` to `t` there have been calls, not more than a limit, and at least the delays between them
  -- have passed.
  pub record IsPaced (time calls : W → ℕ) (a limit : ℕ) (w t : W) : Type 0 where
    pub number : ℕ
    pub counted : calls t ≡ calls w + number
    pub bounded : number ≤ limit
    pub spaced : time w + between a number config.delays ≤ time t

  module _ (time calls : W → ℕ) (c : IsClock time calls) where
    -- No more than one call, after which there may be a wait.
    once :
        (a left : ℕ) (w t : W)
        → calls t ≡ calls w + 1
        → time w ≤ time t
        → IsPaced time calls a (suc left) w t
    once a left w t e h = record {
      number = 1;
      counted = e;
      bounded = omega arith;
      spaced = omega (arith, h);
    }

    before_next :
        (a left : ℕ) (w v t : W)
        → FailedRound env config fn a w v
        → IsPaced time calls (suc a) left v t
        → IsPaced time calls a (suc left) w t
    before_next a left w v t f p = record {
      number = suc p.number;
      counted = omega (arith, p.counted, c.called w, c.kept f.delay (fn w).1, ap calls f.after);
      bounded = omega (arith, p.bounded);
      spaced = omega (
        arith,
        p.spaced,
        c.running w,
        c.waited f.delay (fn w).1 f.waited,
        ap time f.after,
        span_step p.number a f.delay config.delays f.has_delay,
      );
    }

    loop-IsPaced :
        (left a : ℕ) (last : Option GoError) (w : W)
        → IsPaced time calls a left w (retry_loop env config fn left a last w).1
    unfolding retry_loop
    loop-IsPaced zero a last w = record {
      number = 0;
      counted = omega arith;
      bounded = omega arith;
      spaced = omega arith;
    }
    loop-IsPaced (suc left) a last w = elim (view env config fn left a last w) [
      | succeeds _ _ e ↦ rw e (once a left w (fn w).1 (c.called w) (c.running w))
      | again v f e ↦ rw e (before_next a left w v _ f (loop-IsPaced left (suc a) (some f.error) v))
      | cancelled x e ↦ rw e (record {
        number = 0;
        counted = omega arith;
        bounded = omega arith;
        spaced = omega arith;
      })
      | refused x _ _ e ↦ rw e (once a left w (fn w).1 (c.called w) (c.running w))
      | cancelled_waiting x _ d _ _ e ↦ rw e (
          once a left w (env.wait d (fn w).1).1 (omega (arith, c.called w, c.kept d (fn w).1))
            (omega (arith, c.running w, c.waiting d (fn w).1)))
      | no_delay _ _ _ _ e ↦ rw e (once a left w (fn w).1 (c.called w) (c.running w))
    ]

    -- However `Retry` ends, it has called the function at most MaxAttempts times, and if n times, then at
    -- least the first n - 1 delays of its configuration have passed in it.
    pub retry-IsPaced :
        (w : W) → IsPaced time calls 0 config.max_attempts w (retry env config fn w).1
    unfolding retry
    retry-IsPaced w = loop-IsPaced config.max_attempts 0 none w

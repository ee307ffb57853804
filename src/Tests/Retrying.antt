-- ===== src/Tests/Retrying.antt =====
-- `Retry` on a call that fails once; the world is the number of calls made.
use go_metrics.Common.{ℕ, zero, suc, ◌+◌, ◌≡◌, ◌↔◌, Option, none, some, true, false, arith}
use go_metrics.Retry.{GoError, Env, success, retry, default_retry_config}
use go_metrics.Retry.Laws.{SucceedsIn, retry_success_iff}
use go_metrics.Retry.Time.{IsClock, IsPaced, retry-IsPaced}

abbrev pub timeout : GoError
timeout = record {
  net_timeout = some true;
  pg_code = none;
  is_closed = false;
  text = "i/o timeout";
}

abbrev pub quick : Env ℕ
quick = record {
  ctx_err = λ w. none;
  wait = λ d w. (none, w);
  retriable = λ e. elim e.net_timeout [ none ↦ false | some t ↦ t ];
}

-- The first call times out and the second succeeds.
abbrev pub second_try : ℕ → Option GoError × ℕ
second_try zero = (some timeout, 1)
second_try (suc n) = (none, suc (suc n))

retry_success_iff_example :
    (retry quick default_retry_config second_try 0 ≡ (success, 2))
    ↔ SucceedsIn quick default_retry_config second_try 4 0 0 2
retry_success_iff_example =
    retry_success_iff quick default_retry_config second_try 0 2 (omega arith)

-- A world with a clock in nanoseconds and a count of the calls: a call takes ten of them and times
-- out, a wait one more than its delay.
abbrev clock : Env (ℕ × ℕ)
clock = record {
  ctx_err = λ w. none;
  wait = λ d (time, calls). (none, (time + d + 1, calls));
  retriable = λ e. elim e.net_timeout [ none ↦ false | some t ↦ t ];
}

abbrev times_out : ℕ × ℕ → Option GoError × (ℕ × ℕ)
times_out (time, calls) = (some timeout, (time + 10, calls + 1))

times_out-IsClock : IsClock clock default_retry_config times_out (λ w. w.0) (λ w. w.1)
times_out-IsClock = record {
  called = λ w. omega arith;
  kept = λ d w. omega arith;
  running = λ w. omega arith;
  waiting = λ d w. omega arith;
  waited = λ d w e. omega arith;
}

retry-IsPaced_example :
    IsPaced clock default_retry_config times_out
      (λ w. w.0)
      (λ w. w.1)
      0
      4
      (0, 0)
      (retry clock default_retry_config times_out (0, 0)).1
retry-IsPaced_example =
    retry-IsPaced clock default_retry_config times_out (λ w. w.0) (λ w. w.1) times_out-IsClock
      (0, 0)

-- ===== src/Retry/Backoff.antt =====
-- `RetryWithBackoff`: its delays, and when it panics.
use native.Mathlib.Nat.{mod-eq_of_lt}
use go_metrics.Common.{
  ℕ, zero, suc, ◌+◌, ◌*◌, ◌^◌, ◌%◌, ◌<◌, ◌≡◌, ◌↔◌, refl, ◌∙◌, ap, Option, some, length, get_elem?,
  int64_mod, arith,
}
use go_metrics.Retry.{GoError, Env, panicked, backoff_delays, retry_with_backoff}
use go_metrics.Retry.Laws.{retry-ne-panicked}

length-backoff_delays : (base i n : ℕ) → length (backoff_delays base i n) ≡ n
unfolding backoff_delays
length-backoff_delays base i zero = refl
length-backoff_delays base i (suc n) = omega (arith, length-backoff_delays base (i + 1) n)

no_wrap :
    (base p : ℕ) → 0 < base → base * p < int64_mod → (base * (p % int64_mod)) % int64_mod ≡ base * p
no_wrap base p pos fits =
    let small : p < int64_mod = grind arith in rw (mod-eq_of_lt small) (mod-eq_of_lt fits)

delay_at :
    (base i n j e : ℕ)
    → j < n
    → e ≡ i + j
    → get_elem? (backoff_delays base i n) j ≡ some ((base * (2 ^ e % int64_mod)) % int64_mod)
unfolding backoff_delays
delay_at base i zero j e h q = absurd (omega arith)
delay_at base i (suc n) zero e h q = let same : e ≡ i = omega arith in rw same
delay_at base i (suc n) (suc j) e h q = delay_at base (i + 1) n j e (omega arith) (omega arith)

-- For a positive base delay, of `n` delays the one after attempt `j` is the base delay doubled `j`
-- times, as long as that fits an int64.
pub backoff_delays_double :
    (base n j : ℕ)
    → 0 < base
    → j < n
    → base * 2 ^ j < 2 ^ 63
    → get_elem? (backoff_delays base 0 n) j ≡ some (base * 2 ^ j)
backoff_delays_double base n j pos h fits =
    delay_at base 0 n j j h (omega arith) ∙ ap some (no_wrap base (2 ^ j) pos (omega arith))

-- `RetryWithBackoff` panics exactly if it is asked for no attempt.
pub retry_with_backoff_panics_iff :
    {W : Type 0} (env : Env W) (max base : ℕ) (fn : W → Option GoError × W) (w : W)
    → ((retry_with_backoff env max base fn w).0 ≡ panicked) ↔ (max ≡ 0)
unfolding retry_with_backoff
retry_with_backoff_panics_iff env zero base fn w = (λ _. refl, λ _. refl)
retry_with_backoff_panics_iff env (suc n) base fn w = (
  (λ h. absurd (retry-ne-panicked env _ fn w (omega (arith, length-backoff_delays base 0 n)) h)),
  λ h. absurd (omega arith),
)

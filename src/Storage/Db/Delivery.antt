-- ===== src/Storage/Db/Delivery.antt =====
-- A change of the table that `Retry` repeats until it is acknowledged.
use go_metrics.Common.{ℕ, suc, ◌<◌, ◌≡◌, refl, ◌⊎◌, inl, inr, Option, none, some}
use go_metrics.Retry.{GoError, RetryConfig, Env, Outcome, retry}
use go_metrics.Retry.Rule.{Ends, retry-Ends}
use go_metrics.Storage.Db.Specification.{Times, never, once_more}

module _ {T W : Type 0} (table : W → T) (R : T → T → Type 0) where
  -- A call that succeeds makes the change; one that fails may have made it.
  pub record Performs (fn : W → Option GoError × W) : Type 0 where
    pub done : (w : W) → (fn w).0 ≡ none → R (table w) (table (fn w).1)
    pub unsure :
        (w : W) (e : GoError)
        → (fn w).0 ≡ some e
        → (table (fn w).1 ≡ table w) ⊎ R (table w) (table (fn w).1)

  -- The change has been made some number of times, and at least once in a success.
  abbrev pub AtLeastOnce : T → Outcome × W → Type 0
  AtLeastOnce t out =
      Ends (λ v. (k : ℕ) × Times R k t (table v)) (λ v. (k : ℕ) × Times R (suc k) t (table v)) out

  -- The change has been made once in a success, and not at all else.
  abbrev pub Once : T → Outcome × W → Type 0
  Once t out = Ends (λ v. table v ≡ t) (λ v. R t (table v)) out

  module _ (env : Env W) (config : RetryConfig) (fn : W → Option GoError × W) where
    pub retry-AtLeastOnce :
        (w : W)
        → Performs fn
        → ((d : ℕ) (v : W) → table (env.wait d v).1 ≡ table v)
        → 0 < config.max_attempts
        → AtLeastOnce (table w) (retry env config fn w)
    retry-AtLeastOnce w p waits h =
        retry-Ends env config fn _ _
          (record {
            failing = λ v e (k, times) fails. elim (p.unsure v e fails) [
              | inl same ↦ (k, rw same times)
              | inr r ↦ (suc k, once_more times r)
            ];
            waiting = λ d v (k, times). (k, rw (waits d v) times);
            succeeding = λ v (k, times) done. (k, once_more times (p.done v done));
          })
          w h (0, never)

    pub retry-Once :
        (w : W)
        → Performs fn
        → ((v : W) (e : GoError) → (fn v).0 ≡ some e → table (fn v).1 ≡ table v)
        → ((d : ℕ) (v : W) → table (env.wait d v).1 ≡ table v)
        → 0 < config.max_attempts
        → Once (table w) (retry env config fn w)
    retry-Once w p clean waits h =
        retry-Ends env config fn _ _
          (record {
            failing = λ v e same fails. rw (clean v e fails) same;
            waiting = λ d v same. rw (waits d v) same;
            succeeding = λ v same done. rw (← same) (p.done v done);
          })
          w h refl

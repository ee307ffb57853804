-- ===== src/Retry.antt =====
-- internal/utils/retry.go. `W` is the state of the world, which the retried function, the clock and
-- the context read and change.
pub mod Text
pub mod Rounds
pub mod Laws
pub mod Rule
pub mod Backoff
pub mod Time
use Prim.Native.String
use go_metrics.Common.{
  ℕ, zero, suc, ◌+◌, ◌-◌, ◌*◌, ◌^◌, ◌%◌, String, Bool, true, false, not, Option, none, some, List,
  [], ◌∷◌, length, get_elem?, eqb, leb, int64_mod, if◌then◌else◌,
}
use go_metrics.Strconv.{format_int}
use go_metrics.Retry.Text.{contains, to_lower}

-- What the code asks of an error: `errors.As` of a net.Error with its Timeout, `errors.As` of a
-- PgError with its code, `errors.Is` of net.ErrClosed, and its text.
pub record GoError : Type 0 where
  pub net_timeout : Option Bool
  pub pg_code : Option String
  pub is_closed : Bool
  pub text : String

-- fmt.Errorf("…: %w", err): the wrapped error is still found by `errors.As` and `errors.Is`.
abbrev pub wrap : String → GoError → GoError
wrap prefix e = record e { text = String.◌++◌ prefix e.text }

-- A duration is a number of nanoseconds.
pub record RetryConfig : Type 0 where
  pub max_attempts : ℕ
  pub delays : List ℕ

abbrev second : ℕ
second = 1_000_000_000

abbrev pub default_retry_config : RetryConfig
default_retry_config = record {
  max_attempts = 4;
  delays = second ∷ (3 * second) ∷ (5 * second) ∷ [];
}

abbrev retriable_patterns : List String
retriable_patterns =
    "connection refused" ∷ "connection reset" ∷ "broken pipe" ∷ "no route to host"
    ∷ "network is unreachable" ∷ "timeout" ∷ "temporary failure" ∷ "server overloaded"
    ∷ "too many connections" ∷ "connection limit exceeded" ∷ "temporary error" ∷ []

-- The loop over the patterns.
unfoldable pub matches_any : String → List String → Bool
matches_any text [] = false
matches_any text (p ∷ ps) =
    let rest = matches_any text ps in if contains (to_lower text) (to_lower p) then true else rest

-- `is_connection_exception` is that of jackc/pgerrcode.
module _ (is_connection_exception : String → Bool) where
  unfoldable pub is_retriable_error : GoError → Bool
  unfolding matches_any
  is_retriable_error e = elim e.net_timeout [
    | some timeout ↦ timeout
    | none ↦ elim e.pg_code [
      | some code ↦ is_connection_exception code
      | none ↦ if e.is_closed then true else matches_any e.text retriable_patterns
    ]
  ]

-- `ctx_err` is ctx.Err(); `wait` is the `select` between the timer and the context, `none` if the
-- time has passed; `retriable` is `IsRetriableError` on an error that is not nil.
pub record Env (W : Type 0) : Type 0 where
  pub ctx_err : W → Option GoError
  pub wait : ℕ → W → Option GoError × W
  pub retriable : GoError → Bool

-- The world of `Retry` around a closure that assigns to a variable of type `A`.
abbrev pub with_variable : {A W : Type 0} → Env W → Env (A × W)
with_variable env = record {
  ctx_err = λ s. env.ctx_err s.1;
  wait = λ d s. ((env.wait d s.1).0, (s.0, (env.wait d s.1).1));
  retriable = env.retriable;
}

-- A return of nil, a return of an error, or a panic.
pub data Outcome : Type 0 where
  success : Outcome
  failed : GoError → Outcome
  panicked : Outcome

abbrev returned : Option GoError → Outcome
returned none = success
returned (some e) = failed e

abbrev attempts_text : ℕ → String
attempts_text n =
    String.◌++◌ "max attempts reached (" (String.◌++◌ (format_int n) "), last error: ")

module _ {W : Type 0} (env : Env W) (config : RetryConfig) (fn : W → Option GoError × W) where
  -- The loop from `attempt` on, with `left` rounds left; `last` is lastErr.
  unfoldable pub retry_loop : ℕ → ℕ → Option GoError → W → Outcome × W
  retry_loop zero attempt last w = (returned last, w)
  retry_loop (suc left) attempt last w = elim (env.ctx_err w) [
    | some c ↦ (failed (wrap "context cancelled: " c), w)
    | none ↦
        let (r, w') = fn w in
        elim r [
          | none ↦ (success, w')
          | some e ↦
              if not (env.retriable e)
              then (failed (wrap "non-retriable error: " e), w')
              else if eqb (suc attempt) config.max_attempts
              then (failed (wrap (attempts_text config.max_attempts) e), w')
              else
                  -- config.Delays[attempt] panics out of range.
                  elim (get_elem? config.delays attempt) [
                    | none ↦ (panicked, w')
                    | some d ↦
                        let (c, v) = env.wait d w' in
                        elim c [
                          | some c' ↦ (failed (wrap "context cancelled during retry delay: " c'), v)
                          | none ↦ retry_loop left (suc attempt) (some e) v
                        ]
                  ]
        ]
  ]

  unfoldable pub retry : W → Outcome × W
  retry w = retry_loop config.max_attempts 0 none w

-- config.Delays[i] = baseDelay * time.Duration(1<<i), in 64 bits, for `n` delays from `i` on.
unfoldable pub backoff_delays : ℕ → ℕ → ℕ → List ℕ
backoff_delays base i zero = []
backoff_delays base i (suc n) =
    ((base * (2 ^ i % int64_mod)) % int64_mod) ∷ backoff_delays base (i + 1) n

-- `make` panics at a negative length, when `max_attempts` is 0.
unfoldable pub retry_with_backoff :
    {W : Type 0} → Env W → ℕ → ℕ → (W → Option GoError × W) → W → Outcome × W
retry_with_backoff env zero base fn w = (panicked, w)
retry_with_backoff env (suc n) base fn w =
    retry env (record { max_attempts = suc n; delays = backoff_delays base 0 n }) fn w

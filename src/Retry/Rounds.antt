-- ===== src/Retry/Rounds.antt =====
-- One round of the loop of `Retry`, and the ways in which it goes on or ends.
use go_metrics.Common.{
  ℕ, suc, ◌≡◌, ◌≢◌, refl, inl, inr, true, Option, none, some, get_elem?, eqb, arith, Bool-cases,
  Option-cases,
}
use go_metrics.Retry.{
  GoError, RetryConfig, Env, Outcome, success, failed, panicked, wrap, retry_loop, attempts_text,
}

module _ {W : Type 0} (env : Env W) (config : RetryConfig) (fn : W → Option GoError × W) where
  -- A round that fails with a retriable error and is followed by another, which begins in `v`.
  pub record FailedRound (a : ℕ) (w v : W) : Type 0 where
    pub error : GoError
    pub delay : ℕ
    pub live : env.ctx_err w ≡ none
    pub fails : (fn w).0 ≡ some error
    pub retriable : env.retriable error ≡ true
    pub not_last : suc a ≢ config.max_attempts
    pub has_delay : get_elem? config.delays a ≡ some delay
    pub waited : (env.wait delay (fn w).1).0 ≡ none
    pub after : (env.wait delay (fn w).1).1 ≡ v

  pub again_lem :
      (left a : ℕ) (last : Option GoError) (w v : W) (f : FailedRound a w v)
      → retry_loop env config fn (suc left) a last w
        ≡ retry_loop env config fn left (suc a) (some f.error) v
  unfolding retry_loop
  again_lem left a last w v f =
      ground (arith, f.live, f.fails, f.retriable, f.not_last, f.has_delay, f.waited, f.after)

  -- How a round that begins in `w` ends: with success, with another round, with an error, or with a
  -- panic for want of a delay.
  pub data View (left a : ℕ) (last : Option GoError) (w : W) (out : Outcome × W) : Type 0 where
    succeeds :
        env.ctx_err w ≡ none → (fn w).0 ≡ none → out ≡ (success, (fn w).1) → View left a last w out
    again :
        (v : W) (f : FailedRound a w v)
        → out ≡ retry_loop env config fn left (suc a) (some f.error) v
        → View left a last w out
    cancelled : (e : GoError) → out ≡ (failed e, w) → View left a last w out
    refused :
        (e x : GoError) → (fn w).0 ≡ some x → out ≡ (failed e, (fn w).1) → View left a last w out
    cancelled_waiting :
        (e x : GoError) (d : ℕ)
        → (fn w).0 ≡ some x
        → get_elem? config.delays a ≡ some d
        → out ≡ (failed e, (env.wait d (fn w).1).1)
        → View left a last w out
    no_delay :
        (x : GoError)
        → (fn w).0 ≡ some x
        → suc a ≢ config.max_attempts
        → get_elem? config.delays a ≡ none
        → out ≡ (panicked, (fn w).1)
        → View left a last w out

  after_delay :
      (left a : ℕ) (last : Option GoError) (w : W) (e : GoError)
      → env.ctx_err w ≡ none
      → (fn w).0 ≡ some e
      → env.retriable e ≡ true
      → suc a ≢ config.max_attempts
      → View left a last w (retry_loop env config fn (suc left) a last w)
  unfolding retry_loop
  after_delay left a last w e live fails ok more = elim (Option-cases (get_elem? config.delays a)) [
    | inl missing ↦ no_delay e fails more missing (ground (arith, live, fails, ok, more, missing))
    | inr (d, found) ↦ elim (Option-cases (env.wait d (fn w).1).0) [
      | inl waited ↦
          let f : FailedRound a w (env.wait d (fn w).1).1 = record {
            error = e;
            delay = d;
            live = live;
            fails = fails;
            retriable = ok;
            not_last = more;
            has_delay = found;
            waited = waited;
            after = refl;
          } in
          again _ f (again_lem left a last w _ f)
      | inr (c, ended) ↦
          cancelled_waiting (wrap "context cancelled during retry delay: " c) e d fails found
            (ground (arith, live, fails, ok, more, found, ended))
    ]
  ]

  pub view :
      (left a : ℕ) (last : Option GoError) (w : W)
      → View left a last w (retry_loop env config fn (suc left) a last w)
  unfolding retry_loop
  view left a last w = elim (Option-cases (env.ctx_err w)) [
    | inr (c, e) ↦ cancelled (wrap "context cancelled: " c) (ground (arith, e))
    | inl live ↦ elim (Option-cases (fn w).0) [
      | inl done ↦ succeeds live done (ground (arith, live, done))
      | inr (e, fails) ↦ elim (Bool-cases (env.retriable e)) [
        | inr final ↦
            refused (wrap "non-retriable error: " e) e fails (ground (arith, live, fails, final))
        | inl ok ↦ elim (Bool-cases (eqb (suc a) config.max_attempts)) [
          | inl last_one ↦
              refused (wrap (attempts_text config.max_attempts) e) e fails
                (ground (arith, live, fails, ok, last_one))
          | inr more ↦ after_delay left a last w e live fails ok (ground (arith, more))
        ]
      ]
    ]
  ]

-- ===== src/Retry/Laws.antt =====
-- What `Retry` promises: when it succeeds, how often it calls, when it stops.
use go_metrics.Common.{
  ℕ, zero, suc, ◌+◌, ◌-◌, ◌≤◌, ◌<◌, ◌≡◌, ◌≢◌, ◌↔◌, refl, sym, ◌∙◌, ap, false, Option, none, some,
  List, [], ◌∷◌, length, get_elem?, arith,
}
use go_metrics.Retry.{GoError, RetryConfig, Env, success, failed, panicked, wrap, retry_loop, retry}
use go_metrics.Retry.Rounds.{
  FailedRound, again_lem, succeeds, again, cancelled, refused, cancelled_waiting, no_delay, view,
}

get_elem?-none {ℓ} : {A : Type ℓ} (l : List A) (i : ℕ) → get_elem? l i ≡ none → length l ≤ i
get_elem?-none [] i h = omega arith
get_elem?-none (x ∷ l) zero h = cc
get_elem?-none (x ∷ l) (suc i) h = omega (arith, get_elem?-none l i h)

module _ {W : Type 0} (env : Env W) (config : RetryConfig) (fn : W → Option GoError × W) where
  -- `k` rounds from attempt `a` on fail and are followed by another; they lead from `w` to `u`.
  abbrev pub Rounds : ℕ → ℕ → W → W → Type 0
  Rounds zero a w u = w ≡ u
  Rounds (suc k) a w u = (v : W) × FailedRound env config fn a w v × Rounds k (suc a) v u

  -- A call that succeeds, after some failed rounds.
  pub record SucceedsIn (limit a : ℕ) (w t : W) : Type 0 where
    pub rounds : ℕ
    pub start : W
    pub in_limit : rounds < limit
    pub before : Rounds rounds a w start
    pub live : env.ctx_err start ≡ none
    pub call : fn start ≡ (none, t)

  loop_success :
      (left a : ℕ) (last : Option GoError) (w t : W)
      → a + left ≡ config.max_attempts
      → 0 < left
      → retry_loop env config fn left a last w ≡ (success, t)
      → SucceedsIn left a w t
  loop_success zero a last w t m p h = absurd (omega arith)
  loop_success (suc left) a last w t m p h = elim (view env config fn left a last w) [
    | succeeds live done e ↦ record {
      rounds = 0;
      start = w;
      in_limit = omega arith;
      before = refl;
      live = live;
      call = ground (arith, done, e, h);
    }
    | again v f e ↦
        let r =
          loop_success left (suc a) (some f.error) v t (omega arith) (omega (arith, f.not_last))
            (sym e ∙ h) in
        record {
          rounds = suc r.rounds;
          start = r.start;
          in_limit = omega (arith, r.in_limit);
          before = (v, f, r.before);
          live = r.live;
          call = r.call;
        }
    | cancelled e x ↦ cc (x, h)
    | refused e _ _ x ↦ cc (x, h)
    | cancelled_waiting e _ d _ _ x ↦ cc (x, h)
    | no_delay _ _ _ _ x ↦ cc (x, h)
  ]

  -- The loop after some failed rounds: the same loop, from the attempt that they lead to.
  loop-Rounds :
      (k t left a b : ℕ) (last : Option GoError) (w u : W)
      → t ≡ k + suc left
      → b ≡ k + a
      → Rounds k a w u
      → (l : Option GoError) × (retry_loop env config fn t a last w
          ≡ retry_loop env config fn (suc left) b l u)
  loop-Rounds zero t left a b last w u e f r =
      let et : t ≡ suc left = omega arith in let eb : b ≡ a = omega arith in (last, cc (et, eb, r))
  loop-Rounds (suc k) zero left a b last w u e f r = absurd (omega arith)
  loop-Rounds (suc k) (suc t) left a b last w u e f (v, round, r) =
      let (l, same) =
        loop-Rounds k t left (suc a) b (some round.error) v u (omega arith) (omega arith) r in
      (l, again_lem env config fn t a last w v round ∙ same)

  pub last_call :
      (left a : ℕ) (last : Option GoError) (w t : W)
      → env.ctx_err w ≡ none
      → fn w ≡ (none, t)
      → retry_loop env config fn (suc left) a last w ≡ (success, t)
  unfolding retry_loop
  last_call left a last w t live call = ground (arith, live, call)

  -- With at least one attempt, `Retry` returns nil exactly if one of the first MaxAttempts calls
  -- returns nil, with a live context, and all calls before it failed with retriable errors and were
  -- followed by their delays in full; the world is then as that call left it.
  pub retry_success_iff :
      (w t : W)
      → 0 < config.max_attempts
      → (retry env config fn w ≡ (success, t)) ↔ SucceedsIn config.max_attempts 0 w t
  unfolding retry
  retry_success_iff w t p = (
    loop_success config.max_attempts 0 none w t (omega arith) p,
    λ s.
        let left = config.max_attempts - suc s.rounds in
        let (l, same) =
          loop-Rounds s.rounds config.max_attempts left 0 s.rounds none w s.start
            (omega (arith, s.in_limit)) (omega arith) s.before in
        same ∙ last_call left s.rounds l s.start t s.live s.call,
  )

  -- An error that is not retriable ends `Retry` at once, whichever attempt meets it.
  final_error :
      (left a : ℕ) (last : Option GoError) (w : W) (e : GoError)
      → env.ctx_err w ≡ none
      → (fn w).0 ≡ some e
      → env.retriable e ≡ false
      → retry_loop env config fn (suc left) a last w
        ≡ (failed (wrap "non-retriable error: " e), (fn w).1)
  unfolding retry_loop
  final_error left a last w e live call final = ground (arith, live, call, final)

  -- An error that is not retriable is returned at the attempt that meets it: nothing is called or
  -- waited for after it.
  pub retry-final_error :
      (k : ℕ) (w u : W) (e : GoError)
      → k < config.max_attempts
      → Rounds k 0 w u
      → env.ctx_err u ≡ none
      → (fn u).0 ≡ some e
      → env.retriable e ≡ false
      → retry env config fn w ≡ (failed (wrap "non-retriable error: " e), (fn u).1)
  unfolding retry
  retry-final_error k w u e p r live call final =
      let left = config.max_attempts - suc k in
      let (l, same) =
        loop-Rounds k config.max_attempts left 0 k none w u (omega arith) (omega arith) r in
      same ∙ final_error left k l u e live call final

  -- A measure of the world that counts calls of `fn`, and that nothing else changes.
  pub record Counts (calls : W → ℕ) : Type 0 where
    pub by_fn : (w : W) → calls (fn w).1 ≡ calls w + 1
    pub by_wait : (d : ℕ) (w : W) → calls (env.wait d w).1 ≡ calls w

  loop_calls :
      (calls : W → ℕ) (c : Counts calls) (left a : ℕ) (last : Option GoError) (w : W)
      → calls (retry_loop env config fn left a last w).1 ≤ calls w + left
  unfolding retry_loop
  loop_calls calls c zero a last w = omega arith
  loop_calls calls c (suc left) a last w = elim (view env config fn left a last w) [
    | succeeds _ _ e ↦ rw e (omega (arith, c.by_fn w))
    | again v f e ↦ rw e (
        omega (
          arith,
          loop_calls calls c left (suc a) (some f.error) v,
          c.by_fn w,
          c.by_wait f.delay (fn w).1,
          ap calls f.after,
        ))
    | cancelled x e ↦ rw e (omega arith)
    | refused x _ _ e ↦ rw e (omega (arith, c.by_fn w))
    | cancelled_waiting x _ d _ _ e ↦ rw e (omega (arith, c.by_fn w, c.by_wait d (fn w).1))
    | no_delay _ _ _ _ e ↦ rw e (omega (arith, c.by_fn w))
  ]

  -- `Retry` calls the function at most MaxAttempts times.
  pub retry_calls :
      (calls : W → ℕ) (w : W)
      → Counts calls
      → calls (retry env config fn w).1 ≤ calls w + config.max_attempts
  unfolding retry
  retry_calls calls w c = loop_calls calls c config.max_attempts 0 none w

  loop-ne-panicked :
      (left a : ℕ) (last : Option GoError) (w : W)
      → a + left ≡ config.max_attempts
      → config.max_attempts ≤ length config.delays + 1
      → (retry_loop env config fn left a last w).0 ≢ panicked
  unfolding retry_loop
  loop-ne-panicked zero a none w m p h = cc
  loop-ne-panicked zero a (some e) w m p h = cc
  loop-ne-panicked (suc left) a last w m p h = elim (view env config fn left a last w) [
    | succeeds _ _ e ↦ cc (ap (λ o. o.0) e)
    | again v f e ↦
        loop-ne-panicked left (suc a) (some f.error) v (omega arith) p (ap (λ o. o.0) (sym e) ∙ h)
    | cancelled x e ↦ cc (ap (λ o. o.0) e)
    | refused x _ _ e ↦ cc (ap (λ o. o.0) e)
    | cancelled_waiting x _ d _ _ e ↦ cc (ap (λ o. o.0) e)
    | no_delay _ _ more missing e ↦
        absurd (omega (arith, more, get_elem?-none config.delays a missing))
  ]

  -- With a delay for every attempt but the last, `Retry` never indexes Delays out of range.
  pub retry-ne-panicked :
      (w : W)
      → config.max_attempts ≤ length config.delays + 1
      → (retry env config fn w).0 ≢ panicked
  unfolding retry
  retry-ne-panicked w p = loop-ne-panicked config.max_attempts 0 none w (omega arith) p

-- ===== src/Retry/Rule.antt =====
-- A rule for what a retried call leaves behind.
use go_metrics.Common.{ℕ, zero, suc, ◌<◌, ◌≡◌, refl, ◌⊎◌, inl, inr, Option, none, some, arith}
use go_metrics.Retry.{
  GoError, RetryConfig, Env, Outcome, success, failed, panicked, retry_loop, retry,
}
use go_metrics.Retry.Rounds.{succeeds, again, cancelled, refused, cancelled_waiting, no_delay, view}

module _ {W : Type 0} (P Q : W → Type 0) where
  -- `Q` after a success, and else `P`.
  abbrev pub Ends : Outcome × W → Type 0
  Ends (success, w) = Q w
  Ends (failed e, w) = P w
  Ends (panicked, w) = P w

module _ {W : Type 0} (env : Env W) (config : RetryConfig) (fn : W → Option GoError × W)
    (P Q : W → Type 0) where
  -- A call that fails and a wait keep `P`; a call that succeeds leads from `P` to `Q`.
  pub record Keeps : Type 0 where
    pub failing : (w : W) (e : GoError) → P w → (fn w).0 ≡ some e → P (fn w).1
    pub waiting : (d : ℕ) (w : W) → P w → P (env.wait d w).1
    pub succeeding : (w : W) → P w → (fn w).0 ≡ none → Q (fn w).1

  Loop_Ends :
      (keeps : Keeps) (left a : ℕ) (last : Option GoError) (w : W)
      → (0 < left) ⊎ ((e : GoError) × (last ≡ some e))
      → P w
      → Ends P Q (retry_loop env config fn left a last w)
  unfolding retry_loop
  Loop_Ends keeps zero a none w (inl h) p = absurd (omega (arith, h))
  Loop_Ends keeps zero a none w (inr (e, h)) p = cc h
  Loop_Ends keeps zero a (some e) w h p = p
  Loop_Ends keeps (suc left) a last w h p = elim (view env config fn left a last w) [
    | succeeds _ done e ↦ rw e (keeps.succeeding w p done)
    | again v f e ↦
        let q : P v =
          rw (← f.after) (keeps.waiting f.delay (fn w).1 (keeps.failing w f.error p f.fails)) in
        rw e (Loop_Ends keeps left (suc a) (some f.error) v (inr (f.error, refl)) q)
    | cancelled _ e ↦ rw e p
    | refused _ x fails e ↦ rw e (keeps.failing w x p fails)
    | cancelled_waiting _ x d fails _ e ↦
        rw e (keeps.waiting d (fn w).1 (keeps.failing w x p fails))
    | no_delay x fails _ _ e ↦ rw e (keeps.failing w x p fails)
  ]

  pub retry-Ends :
      Keeps → (w : W) → 0 < config.max_attempts → P w → Ends P Q (retry env config fn w)
  unfolding retry
  retry-Ends keeps w h p = Loop_Ends keeps config.max_attempts 0 none w (inl h) p

pub Ends-map :
    {W : Type 0} {P Q P' Q' : W → Type 0} (out : Outcome × W)
    → ((w : W) → P w → P' w)
    → ((w : W) → Q w → Q' w)
    → Ends P Q out
    → Ends P' Q' out
Ends-map (success, w) f g h = g w h
Ends-map (failed e, w) f g h = f w h
Ends-map (panicked, w) f g h = f w h

pub Ends-success :
    {W : Type 0} (P Q : W → Type 0) (out : Outcome × W) → Ends P Q out → out.0 ≡ success → Q out.1
Ends-success P Q (success, w) h e = h
Ends-success P Q (failed x, w) h e = cc e
Ends-success P Q (panicked, w) h e = cc e

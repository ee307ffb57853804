-- ===== src/Agent/Sender/Laws.antt =====
-- When `SendMetricsBatch` reports success.
use go_metrics.Common.{
  ℕ, ◌<◌, ◌≡◌, ◌↔◌, refl, ap, true, String, Bool-cases, Option, none, some, List, ◌∷◌, inl, inr,
  arith, Option-cases, eqb,
}
use go_metrics.Models.{Metrics}
use go_metrics.Middleware.{Message, Codecs}
use go_metrics.Retry.{
  Env, Outcome, success, failed, panicked, default_retry_config, with_variable, retry,
}
use go_metrics.Retry.Laws.{Rounds, SucceedsIn, retry_success_iff}
use go_metrics.Agent.Sender.{
  MetricsSender, tried, Answered, responded, no_response, judged, reported, Client, post,
  new_reader, batch_message, send_metrics_batch,
}

eqb_eq : (a b : ℕ) → eqb a b ≡ true → a ≡ b
eqb_eq a b h = ground (arith, h)

pair_is : {A B : Type 0} (p : A × B) (a : A) (b : B) → p.0 ≡ a → p.1 ≡ b → p ≡ (a, b)
pair_is (x, y) a b e f = cc (e, f)

succeeded :
    {V W : Type 0} (out : Outcome × (V × W)) (t : W)
    → reported out ≡ (tried success, t)
    → out ≡ (success, (out.1.0, t))
succeeded (success, (v, w)) t h = cc h
succeeded (failed e, (v, w)) t h = cc h
succeeded (panicked, (v, w)) t h = cc h

judged_nil : (a : Answered) → judged a ≡ none → a ≡ responded 200
judged_nil (no_response e) h = cc h
judged_nil (responded code) h = elim (Bool-cases (eqb code 200)) [
  | inl same ↦ ap responded (eqb_eq code 200 same)
  | inr other ↦ let f = rw other at h in cc f
]

module _ {F W : Type 0} (join_path : String → String → Option String) (codecs : Codecs)
    (marshal : List (Metrics F) → Option (List ℕ)) (env : Env W) (client : Client W)
    (sender : MetricsSender) where
  -- Some attempts fail, fewer than four, and the next one is answered by 200. All send the request of
  -- the one message, and read its body where the attempts before have left it.
  pub record IsPosted (ms : List (Metrics F)) (w t : W) : Type 0 where
    pub msg : String × Message
    pub built : batch_message join_path codecs marshal sender ms ≡ some msg
    pub failures : ℕ
    pub in_limit : failures < 4
    pub rest : List ℕ
    pub left : List ℕ
    pub world : W
    pub before :
        Rounds
          (with_variable env)
          default_retry_config
          (post client msg)
          failures
          0
          (new_reader msg.1, w)
          (rest, world)
    pub live : env.ctx_err world ≡ none
    pub answered : client msg rest world ≡ (responded 200, (left, t))

  post_nil :
      (msg : String × Message) (rest left : List ℕ) (u t : W)
      → post client msg (rest, u) ≡ (none, (left, t))
      → client msg rest u ≡ (responded 200, (left, t))
  unfolding post
  post_nil msg rest left u t h =
      let answer : (judged (client msg rest u).0 ≡ none) = ap (λ r. r.0) h in
      pair_is (client msg rest u) (responded 200) (left, t)
        (judged_nil (client msg rest u).0 answer) (ap (λ r. r.1) h)

  post_answered :
      (msg : String × Message) (rest left : List ℕ) (u t : W)
      → client msg rest u ≡ (responded 200, (left, t))
      → post client msg (rest, u) ≡ (none, (left, t))
  unfolding post
  post_answered msg rest left u t h = rw h refl

  IsPosted-of_success :
      (m : Metrics F) (ms : List (Metrics F)) (w t : W) (msg : String × Message) (left : List ℕ)
      → batch_message join_path codecs marshal sender (m ∷ ms) ≡ some msg
      → SucceedsIn
          (with_variable env)
          default_retry_config
          (post client msg)
          4
          0
          (new_reader msg.1, w)
          (left, t)
      → IsPosted (m ∷ ms) w t
  IsPosted-of_success m ms w t msg left e s = record {
    msg = msg;
    built = e;
    failures = s.rounds;
    in_limit = s.in_limit;
    rest = s.start.0;
    left = left;
    world = s.start.1;
    before = s.before;
    live = s.live;
    answered = post_nil msg s.start.0 left s.start.1 t s.call;
  }

  success_of :
      (m : Metrics F) (ms : List (Metrics F)) (w t : W) (p : IsPosted (m ∷ ms) w t)
      → SucceedsIn
          (with_variable env)
          default_retry_config
          (post client p.msg)
          4
          0
          (new_reader p.msg.1, w)
          (p.left, t)
  success_of m ms w t p = record {
    rounds = p.failures;
    start = (p.rest, p.world);
    in_limit = p.in_limit;
    before = p.before;
    live = p.live;
    call = post_answered p.msg p.rest p.left p.world t p.answered;
  }

  -- For a batch that is not empty, `SendMetricsBatch` returns nil exactly if its message can be built
  -- and one of the first four calls of client.Do on its request is answered by 200, with a live
  -- context, all before it having failed, by an error or another status, with a retriable error, and
  -- having been followed by their delays. Each call reads the body where the one before has left it.
  pub send_metrics_batch-success_iff :
      (m : Metrics F) (ms : List (Metrics F)) (w t : W)
      → (send_metrics_batch join_path codecs marshal env client sender (m ∷ ms) w
          ≡ (tried success, t))
        ↔ IsPosted (m ∷ ms) w t
  unfolding send_metrics_batch
  send_metrics_batch-success_iff m ms w t =
      elim (Option-cases (batch_message join_path codecs marshal sender (m ∷ ms))) [
        | inl e ↦ ((λ h. ground (arith, e, h)), λ p. ground (arith, e, p.built))
        | inr (msg, e) ↦ (
          λ h.
              let out =
                retry (with_variable env) default_retry_config (post client msg)
                  (new_reader msg.1, w) in
              let returned : reported out ≡ (tried success, t) = ground (arith, e, h) in
              IsPosted-of_success m ms w t msg out.1.0 e (
                (retry_success_iff (with_variable env) default_retry_config (post client msg)
                    (new_reader msg.1, w) (out.1.0, t) (omega arith)).0
                  (succeeded out t returned)),
          λ p.
              let r =
                (retry_success_iff (with_variable env) default_retry_config (post client p.msg)
                    (new_reader p.msg.1, w) (p.left, t) (omega arith)).1
                  (success_of m ms w t p) in
              rw (send_metrics_batch, p.built, r) refl,
        )
      ]

-- ===== src/Agent/Collector/Laws.antt =====
-- The collected metrics are complete and signed, as the server wants them; and what the server's
-- poll counter becomes.
use native.Mathlib.Nat.{mul-le-mul}
use go_metrics.Common.{
  ℕ, ◌+◌, ◌*◌, ◌^◌, ◌<◌, ◌≤◌, String, ◌≡◌, ◌≢◌, refl, ◌∙◌, ap, true, some, List, [], ◌∷◌, ◌++◌,
  length, add64, all, arith, eq_iff, eq_refl, Bool-cases, inl, inr, ◌==◌, if◌then◌else◌,
}
use go_metrics.GoMap.{Order}
use go_metrics.Models.{Metrics}
use go_metrics.Storage.{Result, Storage}
use go_metrics.Storage.Updates.{
  Update, set_gauge, add_counter, update_of, Asks, nothing, more, count_of, counter_after_all,
  IsLawful,
}
use go_metrics.Strconv.{format_int}
use go_metrics.Hash.{calculate_hash}
use go_metrics.Handlers.{Externals, signed_text, hash_data, verify_metric_hash}
use go_metrics.Agent.{new_metric}
use go_metrics.Agent.Collector.{
  Sample, gauges_of, gauge_names, new_gauge, new_counter, gauge_metrics,
  collect_runtime_metrics_data, runtime_tick, collect_runtime_metrics,
}

-- The HMAC of any text is a text of hexadecimal digits, and not empty.
pub record HasHmac {F : Type 0} (x : Externals F) : Type 0 where
  pub not_empty : (text key : String) → x.hmac text key ≢ ""

-- Metrics that ask for `us` and that a server with the same key accepts.
pub record IsReady {F : Type 0} (x : Externals F) (key : String) (ms : List (Metrics F))
    (us : List (Update F)) : Type 0 where
  pub asks : Asks ms us
  pub verified : all (verify_metric_hash x key) ms ≡ true

abbrev pub gauge_updates : {F : Type 0} → List (String × F) → List (Update F)
gauge_updates [] = []
gauge_updates ((n, v) ∷ l) = set_gauge n v ∷ gauge_updates l

-- What a tick asks for.
abbrev pub tick_updates : {F : Type 0} → Order (String × F) → ℕ → Sample F → List (Update F)
tick_updates order polls s =
    gauge_updates (order.visit (gauges_of gauge_names s.mem_stats))
    ++ set_gauge "RandomValue" s.random ∷ add_counter "PollCount" (add64 polls 1) ∷ []

append_two : {A : Type 0} (l : List A) (a b : A) → (l ++ a ∷ []) ++ b ∷ [] ≡ l ++ a ∷ b ∷ []
append_two [] a b = refl
append_two (c ∷ l) a b = ap (λ r. c ∷ r) (append_two l a b)

counter_gauges :
    {F : Type 0} (l : List (String × F)) (us : List (Update F)) (r : Result ℕ)
    → counter_after_all "PollCount" (gauge_updates l ++ us) r ≡ counter_after_all "PollCount" us r
counter_gauges [] us r = refl
counter_gauges ((n, v) ∷ l) us r = counter_gauges l us r

module _ {F : Type 0} (x : Externals F) (order : Order (String × F)) (key : String)
    (hmac : HasHmac x) where
  verified :
      (m : Metrics F) (text : String)
      → hash_data x key m ≡ some text
      → m.hash ≡ (if key == "" then "" else x.hmac text key)
      → verify_metric_hash x key m ≡ true
  unfolding verify_metric_hash calculate_hash
  verified m text d h = elim (Bool-cases (key == "")) [
    | inl e ↦ rw e
    | inr e ↦
        ground
          (arith, e, d, h, eq_iff m.hash "", hmac.not_empty text key, eq_refl (x.hmac text key))
  ]

  new_gauge-verified :
      (n : String) (v : F)
      → verify_metric_hash x key (new_gauge x.hmac x.format_float order key n v) ≡ true
  unfolding new_metric hash_data calculate_hash
  new_gauge-verified n v = verified _ (signed_text n "gauge" (x.format_float v)) refl (ground arith)

  new_counter-verified :
      (n : String) (d : ℕ)
      → verify_metric_hash x key (new_counter x.hmac x.format_float order key n d) ≡ true
  unfolding new_metric hash_data calculate_hash
  new_counter-verified n d = verified _ (signed_text n "counter" (format_int d)) refl (ground arith)

  gauge_Ready :
      (n : String) (v : F) (ms : List (Metrics F)) (us : List (Update F))
      → IsReady x key ms us
      → IsReady x key (new_gauge x.hmac x.format_float order key n v ∷ ms) (set_gauge n v ∷ us)
  unfolding new_metric update_of
  gauge_Ready n v ms us r = record {
    asks = more refl r.asks;
    verified = rw (new_gauge-verified n v) r.verified;
  }

  counter_Ready :
      (n : String) (d : ℕ) (ms : List (Metrics F)) (us : List (Update F))
      → IsReady x key ms us
      → IsReady x key (new_counter x.hmac x.format_float order key n d ∷ ms) (add_counter n d ∷ us)
  unfolding new_metric update_of
  counter_Ready n d ms us r = record {
    asks = more refl r.asks;
    verified = rw (new_counter-verified n d) r.verified;
  }

  no_metrics : IsReady x key [] []
  no_metrics = record { asks = nothing; verified = refl }

  gauges_Ready :
      (l : List (String × F)) (ms : List (Metrics F)) (us : List (Update F))
      → IsReady x key ms us
      → IsReady x key
          (gauge_metrics x.hmac x.format_float order key l ++ ms)
          (gauge_updates l ++ us)
  gauges_Ready [] ms us r = r
  gauges_Ready ((n, v) ∷ l) ms us r = gauge_Ready n v _ _ (gauges_Ready l ms us r)

  -- If no HMAC is empty, a tick of the runtime collector gives metrics that a server with the same
  -- key accepts: they ask to set the gauges of MemStats, in the order of the map's `range`, and
  -- RandomValue, and to add the number of polls so far to PollCount.
  runtime_tick-IsReady :
      (polls : ℕ) (s : Sample F)
      → IsReady x key
          (runtime_tick x.hmac x.format_float order key polls s).0
          (tick_updates order polls s)
  unfolding runtime_tick collect_runtime_metrics_data
  runtime_tick-IsReady polls s =
      rw (append_two (gauge_metrics x.hmac x.format_float order key _) _ _)
        (gauges_Ready _ _ _ (gauge_Ready _ _ _ _ (counter_Ready _ _ _ _ no_metrics)))

add64_small : (a b : ℕ) → a + b < 2 ^ 64 → add64 a b ≡ a + b
unfolding add64
add64_small a b h = omega (arith, h)

next_poll : (p : ℕ) → p < 2 ^ 31 → add64 p 1 ≡ p + 1
unfolding add64
next_poll p h = omega (arith, h)

small_square : (p : ℕ) → p < 2 ^ 31 → p * (p + 1) ≤ 2 ^ 31 * 2 ^ 31
small_square p h = mul-le-mul {n₂ = 2 ^ 31} {m₂ = 2 ^ 31} (omega (arith, h)) (omega (arith, h))

twice_next :
    (p c : ℕ)
    → p < 2 ^ 31
    → 2 * c ≡ p * (p + 1)
    → 2 * add64 c (add64 p 1) ≡ add64 p 1 * (add64 p 1 + 1)
twice_next p c h e =
    let fits : add64 c (p + 1) ≡ c + (p + 1) =
      add64_small c (p + 1) (omega (arith, h, e, small_square p h)) in
    rw (next_poll p h, fits) (grind (arith, e))

module _ {F S : Type 0} (x : Externals F) (st : Storage F S) (order : Order (String × F))
    (key : String) where
  -- The batches stored one after another.
  abbrev pub store_all : List (List (Metrics F)) → S → S
  store_all [] s = s
  store_all (b ∷ bs) s = store_all bs (st.update_batch b s).1

  abbrev pub poll_count : S → ℕ
  poll_count s = count_of (st.get_counter "PollCount" s)

  tick_poll_count :
      (polls : ℕ) (sample : Sample F) (s : S)
      → HasHmac x
      → IsLawful st
      → poll_count
          (st.update_batch (runtime_tick x.hmac x.format_float order key polls sample).0 s).1
        ≡ add64 (poll_count s) (add64 polls 1)
  tick_poll_count polls sample s hmac law = ap count_of (
      law.batch_counters _ _ s "PollCount" (runtime_tick-IsReady x order key hmac polls sample).asks
      ∙ counter_gauges (order.visit (gauges_of gauge_names sample.mem_stats)) _ _)

  counted :
      (samples : List (Sample F)) (polls n : ℕ) (s : S)
      → HasHmac x
      → IsLawful st
      → n ≡ polls + length samples
      → n < 2 ^ 31
      → 2 * poll_count s ≡ polls * (polls + 1)
      → 2
          * poll_count
              (store_all (collect_runtime_metrics x.hmac x.format_float order key polls samples) s)
        ≡ n * (n + 1)
  unfolding collect_runtime_metrics
  counted [] polls n s hmac law q h e = let same : n ≡ polls = omega (arith, q) in rw same e
  counted (a ∷ samples) polls n s hmac law q h e =
      counted samples (add64 polls 1) n _ hmac law
        (omega (arith, q, h, next_poll polls (omega (arith, q, h)))) h
        (ap (λ c. 2 * c) (tick_poll_count polls a s hmac law)
          ∙ twice_next polls (poll_count s) (omega (arith, q, h)) e)

  -- The agent sends the number of polls so far as the delta of PollCount, and the server adds it: if
  -- no HMAC is empty, over a lawful storage where PollCount is absent or 0, n batches of the agent, n less than 2 ^ 31, make
  -- it n * (n + 1) / 2.
  pub store_all-poll_count :
      (samples : List (Sample F)) (s : S)
      → HasHmac x
      → IsLawful st
      → length samples < 2 ^ 31
      → poll_count s ≡ 0
      → 2
          * poll_count
              (store_all (collect_runtime_metrics x.hmac x.format_float order key 0 samples) s)
        ≡ length samples * (length samples + 1)
  store_all-poll_count samples s hmac law h e =
      counted samples 0 (length samples) s hmac law (omega arith) h (omega (arith, e))

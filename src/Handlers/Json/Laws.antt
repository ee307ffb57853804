-- ===== src/Handlers/Json/Laws.antt =====
-- The JSON handlers.
use go_metrics.Common.{
  ℕ, String, ◌≡◌, ◌≢◌, refl, ◌∙◌, ap, inl, inr, true, none, some, arith, eq_iff, eq_refl, str_ne,
  add64, Bool-cases, Option-cases, ◌==◌,
}
use go_metrics.Models.{Metrics}
use go_metrics.Storage.{counter, ok, Storage}
use go_metrics.Storage.Updates.{count_of, IsLawful}
use go_metrics.Hash.{calculate_hash}
use go_metrics.Http.{Request, write_header, write_text}
use go_metrics.Handlers.{Externals, hash_data, add_hash_to_metrics, verify_metric_hash}
use go_metrics.Handlers.Json.{
  reply_metrics, reply_counter, accepted_metrics, update_decoded, update_json_handler,
  value_decoded, value_json_handler,
}

module _ {F : Type 0} (x : Externals F) (key : String) where
  with_hash :
      (m : Metrics F) (text : String)
      → key ≢ ""
      → hash_data x key m ≡ some text
      → add_hash_to_metrics x key m ≡ record m { hash = x.hmac text key }
  unfolding add_hash_to_metrics calculate_hash
  with_hash m text k h = ground (arith, k, h, eq_iff key "")

  hash_data_kept :
      (m : Metrics F) (h : String) → hash_data x key (record m { hash = h }) ≡ hash_data x key m
  unfolding hash_data
  hash_data_kept m h = refl

  verify_with_hash :
      (m : Metrics F) (text : String)
      → key ≢ ""
      → x.hmac text key ≢ ""
      → hash_data x key m ≡ some text
      → verify_metric_hash x key (record m { hash = x.hmac text key }) ≡ true
  unfolding verify_metric_hash calculate_hash
  verify_with_hash m text k f h =
      rw (str_ne k, str_ne f)
        (ground (
          arith,
          hash_data_kept m (x.hmac text key),
          h,
          k,
          eq_iff key "",
          eq_refl (x.hmac text key),
        ))

  verify_unkeyed : (m : Metrics F) → (key == "") ≡ true → verify_metric_hash x key m ≡ true
  unfolding verify_metric_hash
  verify_unkeyed m e = rw e

  -- What the server signs, it accepts: a metric that has its value and that `addHashToMetrics` has
  -- signed passes `verifyMetricHash` under the same key, if the HMAC of its text is not empty.
  pub verify_metric_hash-add_hash_to_metrics :
      (m : Metrics F) (text : String)
      → hash_data x key m ≡ some text
      → x.hmac text key ≢ ""
      → verify_metric_hash x key (add_hash_to_metrics x key m) ≡ true
  verify_metric_hash-add_hash_to_metrics m text h f = elim (Bool-cases (key == "")) [
    | inl e ↦ verify_unkeyed _ e
    | inr e ↦
        let k : key ≢ "" = λ p. ground (arith, e, p, eq_iff key "") in
        rw (with_hash m text k h) (verify_with_hash m text k f h)
  ]

module _ {F S : Type 0} (x : Externals F) (st : Storage F S) (key : String) where
  update_decoded-counter :
      (m : Metrics F) (s : S) (d : ℕ)
      → m.mtype ≡ counter
      → m.delta ≡ some d
      → update_decoded x st key m s ≡ (
        reply_counter x key 500 m (st.get_counter m.id (st.update_counter m.id d s)),
        st.update_counter m.id d s,
      )
  unfolding update_decoded
  update_decoded-counter m s d t e = simp (t, e)

  counter_read_back :
      (law : IsLawful st) (m : Metrics F) (s : S) (d : ℕ)
      → st.get_counter m.id (st.update_counter m.id d s)
        ≡ ok (add64 (count_of (st.get_counter m.id s)) d)
  counter_read_back law m s d = law.counter_added m.id m.id d s ∙ rw (eq_refl m.id)

  -- Over a lawful storage, a counter with its delta that is posted as JSON and accepted is answered with its new value, the
  -- 64-bit sum of what it was (zero if it was not there) and the delta, and the storage has it.
  pub update_json_handler-counter :
      (r : Request) (s : S) (m : Metrics F) (d : ℕ)
      → IsLawful st
      → accepted_metrics x key r ≡ some m
      → m.mtype ≡ counter
      → m.delta ≡ some d
      → update_json_handler x st key r s ≡ (
        reply_metrics x key (record {
          id = m.id;
          mtype = m.mtype;
          delta = some (add64 (count_of (st.get_counter m.id s)) d);
          value = none;
          hash = "";
        }),
        st.update_counter m.id d s,
      )
  unfolding update_json_handler reply_counter
  update_json_handler-counter r s m d law a t e =
      rw (a, update_json_handler, update_decoded-counter m s d t e, counter_read_back law m s d)

  update_decoded_refused :
      (m : Metrics F) (s : S)
      → IsLawful st
      → (update_decoded x st key m s).0.status ≢ some 200
      → (update_decoded x st key m s).1 ≡ s
  unfolding update_decoded write_header reply_counter reply_metrics write_text
  update_decoded_refused m s law h = elim (Option-cases m.delta) [
    | inl e ↦ ground (arith, e)
    | inr (d, e) ↦ ground (arith, e, counter_read_back law m s d)
  ]

  -- Over a lawful storage, an update that is not answered by 200 has not touched the storage.
  pub update_json_handler_refused :
      (r : Request) (s : S)
      → IsLawful st
      → (update_json_handler x st key r s).0.status ≢ some 200
      → (update_json_handler x st key r s).1 ≡ s
  unfolding update_json_handler
  update_json_handler_refused r s law h = elim (Option-cases (accepted_metrics x key r)) [
    | inl e ↦ rw (e, update_json_handler)
    | inr (m, e) ↦
        rw (e, update_json_handler)
          (update_decoded_refused m s law (rw (e, update_json_handler) at h))
  ]

  value_decoded-counter :
      (w : Metrics F) (s : S) (c : ℕ)
      → w.mtype ≡ counter
      → st.get_counter w.id s ≡ ok c
      → value_decoded x st key w s
        ≡ reply_metrics x key
            (record { id = w.id; mtype = w.mtype; delta = some c; value = none; hash = "" })
  unfolding value_decoded reply_counter
  value_decoded-counter w s c t g = rw (t, g)

  value_json_handler-accepted :
      (q : Request) (s : S) (w : Metrics F)
      → accepted_metrics x key q ≡ some w
      → value_json_handler x st key q s ≡ (value_decoded x st key w s, s)
  unfolding value_json_handler
  value_json_handler-accepted q s w a = rw (a, value_json_handler)

  -- Over a lawful storage, after a counter with its delta was posted as JSON and accepted, an accepted
  -- JSON request for its value is answered as the update was.
  pub value_json_handler-update_json_handler :
      (r q : Request) (s : S) (m w : Metrics F) (d : ℕ)
      → IsLawful st
      → accepted_metrics x key r ≡ some m
      → m.mtype ≡ counter
      → m.delta ≡ some d
      → accepted_metrics x key q ≡ some w
      → w.mtype ≡ counter
      → w.id ≡ m.id
      → (value_json_handler x st key q (update_json_handler x st key r s).1).0
        ≡ (update_json_handler x st key r s).0
  value_json_handler-update_json_handler r q s m w d law a t e b u i =
      let c = add64 (count_of (st.get_counter m.id s)) d in
      let found : st.get_counter w.id (st.update_counter m.id d s) ≡ ok c =
        ap (λ n. st.get_counter n (st.update_counter m.id d s)) i ∙ counter_read_back law m s d in
      rw
        (
          update_json_handler-counter r s m d law a t e,
          value_json_handler-accepted q (st.update_counter m.id d s) w b,
        )
        (value_decoded-counter w (st.update_counter m.id d s) c u found
          ∙ ap (λ f. reply_metrics x key f) (rw (i, u, t) refl))

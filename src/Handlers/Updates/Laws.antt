-- ===== src/Handlers/Updates/Laws.antt =====
-- UpdatesHandler as a client and the storage see it.
use go_metrics.Common.{
  String, ◌≡◌, ◌≢◌, refl, ◌∙◌, ◌⊎◌, inl, inr, true, none, some, List, [], ◌∷◌, All, all, arith,
  eq_iff, Option-cases,
}
use mathlib.Core.Bool.{and-eq-true_iff}
use go_metrics.Models.{Metrics}
use go_metrics.Storage.{Storage}
use go_metrics.Storage.Updates.{Update, gauge_after_all, counter_after_all, Asks, IsLawful}
use go_metrics.Hash.{calculate_hash}
use go_metrics.Http.{Request, write_header}
use go_metrics.Handlers.{Externals, bind, hash_data, verify_metric_hash}
use go_metrics.Handlers.Updates.{unique_metrics, update_all, accepted_list, updates_handler}
use go_metrics.Handlers.Updates.Grouping.{SameEffect, grouped_effect}

-- The requests that the handler acts on: JSON, with a list of metrics that is not empty, and each
-- of them signed if there is a key.
pub record Carries {F : Type 0} (x : Externals F) (key : String) (r : Request)
    (ms : List (Metrics F)) : Type 0 where
  pub json : r.header "Content-Type" ≡ "application/json"
  pub decoded : bind r.body x.decode_list ≡ some ms
  pub present : ms ≢ []
  pub signed : (key ≡ "") ⊎ (all (verify_metric_hash x key) ms ≡ true)

module _ {F : Type 0} (x : Externals F) (key : String) (r : Request) where
  accepted_list_of_Carries :
      (ms : List (Metrics F)) → Carries x key r ms → accepted_list x key r ≡ some ms
  unfolding accepted_list
  accepted_list_of_Carries [] c = absurd (c.present refl)
  accepted_list_of_Carries (m ∷ ms) c = ground (
    arith,
    c.json,
    c.decoded,
    c.signed,
    eq_iff key "",
    eq_iff (r.header "Content-Type") "application/json",
  )

  accepted_list-Carries :
      (ms : List (Metrics F)) → accepted_list x key r ≡ some ms → Carries x key r ms
  unfolding accepted_list
  accepted_list-Carries ms h =
      ground (arith, eq_iff key "", eq_iff (r.header "Content-Type") "application/json")

module _ {F S : Type 0} (x : Externals F) (st : Storage F S) where
  status-update_all :
      (ms : List (Metrics F)) (s : S)
      → (st.update_batch (unique_metrics x ms) s).0 ≡ none
      → (update_all x st ms s).0.status ≡ some 200
  unfolding update_all write_header
  status-update_all ms s h = rw (h, update_all)

  pub state-update_all :
      (ms : List (Metrics F)) (s : S)
      → (update_all x st ms s).1 ≡ (st.update_batch (unique_metrics x ms) s).1
  unfolding update_all
  state-update_all ms s = ground arith

  updates_handler-Carries :
      (key : String) (r : Request) (s : S) (ms : List (Metrics F))
      → Carries x key r ms
      → updates_handler x st key r s ≡ update_all x st ms s
  unfolding updates_handler
  updates_handler-Carries key r s ms c = rw (accepted_list_of_Carries x key r ms c, updates_handler)

unique_metrics_effect :
    {F : Type 0} (x : Externals F) (ms : List (Metrics F)) (us : List (Update F))
    → Asks ms us
    → (vs : List (Update F)) × Asks (unique_metrics x ms) vs × SameEffect vs us
unfolding unique_metrics
unique_metrics_effect x ms us h = grouped_effect x.range_order ms us h

-- The effect of a list of updates on a storage, as its readers see it.
pub record HasEffect {F S : Type 0} (st : Storage F S) (us : List (Update F)) (s t : S)
    : Type 0 where
  pub gauges : (n : String) → st.get_gauge n t ≡ gauge_after_all n us (st.get_gauge n s)
  pub counters : (n : String) → st.get_counter n t ≡ counter_after_all n us (st.get_counter n s)

module _ {F S : Type 0} (x : Externals F) (st : Storage F S) (key : String) (r : Request)
    (s : S) where
  -- Over a lawful storage, a batch that is accepted and whose metrics all have their value gets 200,
  -- and leaves the storage as the metrics applied one by one, in the order of the request, would: no
  -- gauge or delta is lost or counted twice, whatever order the grouped metrics are visited in.
  pub updates_handler-HasEffect :
      (ms : List (Metrics F)) (us : List (Update F))
      → IsLawful st
      → Carries x key r ms
      → Asks ms us
      → ((updates_handler x st key r s).0.status ≡ some 200)
        × HasEffect st us s (updates_handler x st key r s).1
  updates_handler-HasEffect ms us law c h =
      let (vs, asks, same) = unique_metrics_effect x ms us h in
      rw (updates_handler-Carries x st key r s ms c, state-update_all)
        (
          status-update_all x st ms s (law.batch_accepted _ vs s asks),
          record {
            gauges = λ n. law.batch_gauges _ vs s n asks ∙ same.gauges n _;
            counters = λ n. law.batch_counters _ vs s n asks ∙ same.counters n _;
          },
        )

  updates_handler-refused :
      accepted_list x key r ≡ none
      → ((updates_handler x st key r s).0.status ≡ some 400)
        × ((updates_handler x st key r s).1 ≡ s)
  unfolding updates_handler write_header
  updates_handler-refused e = rw (e, updates_handler) (refl, refl)

  -- A request is one that the handler acts on, or it gets 400 and the storage is not touched.
  pub updates_handler-cases :
      ((ms : List (Metrics F)) × Carries x key r ms)
      ⊎ (((updates_handler x st key r s).0.status ≡ some 400)
          × ((updates_handler x st key r s).1 ≡ s))
  updates_handler-cases = elim (Option-cases (accepted_list x key r)) [
    | inl e ↦ inr (updates_handler-refused e)
    | inr (ms, e) ↦ inl (ms, accepted_list-Carries x key r ms e)
  ]

-- A metric whose hash is the HMAC of its own text.
pub record IsSigned {F : Type 0} (x : Externals F) (key : String) (m : Metrics F) : Type 0 where
  pub text : String
  pub has_text : hash_data x key m ≡ some text
  pub hash : m.hash ≡ x.hmac text key

module _ {F : Type 0} (x : Externals F) (key : String) (keyed : key ≢ "") where
  verify_metric_hash-IsSigned :
      (m : Metrics F) → verify_metric_hash x key m ≡ true → IsSigned x key m
  unfolding verify_metric_hash calculate_hash
  verify_metric_hash-IsSigned m h = elim (Option-cases (hash_data x key m)) [
    | inl e ↦ absurd (ground (arith, e, h, keyed, eq_iff key ""))
    | inr (text, e) ↦ record {
      text = text;
      has_text = e;
      hash = ground (arith, e, h, keyed, eq_iff key "", eq_iff m.hash (x.hmac text key));
    }
  ]

  all-IsSigned :
      (ms : List (Metrics F)) → all (verify_metric_hash x key) ms ≡ true → All (IsSigned x key) ms
  all-IsSigned [] h = tt
  all-IsSigned (m ∷ ms) h =
      let (one, rest) = (and-eq-true_iff _ _).0 h in
      (verify_metric_hash-IsSigned m one, all-IsSigned ms rest)

-- With a key, a batch that is answered by anything but 400 carries only metrics that are signed by
-- that key.
pub updates_handler-IsSigned :
    {F S : Type 0} (x : Externals F) (st : Storage F S) (key : String) (r : Request) (s : S)
    → key ≢ ""
    → (updates_handler x st key r s).0.status ≢ some 400
    → (ms : List (Metrics F)) × (bind r.body x.decode_list ≡ some ms) × All (IsSigned x key) ms
updates_handler-IsSigned x st key r s keyed h = elim (updates_handler-cases x st key r s) [
  | inl (ms, c) ↦ (
    ms,
    c.decoded,
    elim c.signed [ inl e ↦ absurd (keyed e) | inr e ↦ all-IsSigned x key keyed ms e ],
  )
  | inr (refused, _) ↦ absurd (h refused)
]

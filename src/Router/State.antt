-- ===== src/Router/State.antt =====
-- What a request keeps of the storage's state.
use go_metrics.Common.{ℕ, String, Option, List, inl, inr, Option-cases, arith}
use go_metrics.Http.{Request}
use go_metrics.Models.{Metrics}
use go_metrics.Storage.{Storage}
use go_metrics.Strconv.{parse_int}
use go_metrics.Handlers.{Externals}
use go_metrics.Handlers.Plain.{update_gauge_value, update_counter_value, update_handler}
use go_metrics.Handlers.Json.{
  accepted_metrics, update_decoded, update_json_handler, value_json_handler,
}
use go_metrics.Handlers.Updates.{accepted_list, unique_metrics, update_all, updates_handler}
use go_metrics.Handlers.Updates.Laws.{state-update_all}
use go_metrics.Crypto.{Rsa}
use go_metrics.Middleware.{Message, Codecs, Handler, gzip_middleware}
use go_metrics.Middleware.State.{gzip_middleware-keeps, decrypt_middleware-keeps}
use go_metrics.Router.{
  Endpoint, update, value, index, ping, update_json, value_json, updates, routes, Mux, handle,
  dispatch, serve_http,
}
use go_metrics.Router.Laws.{value_handler_kept, ping_handler_kept, index_handler_kept}

-- The methods that write keep `P`.
pub record Keeps {F S : Type 0} (st : Storage F S) (P : S → Type 0) : Type 0 where
  pub gauge : (k : String) (v : F) (s : S) → P s → P (st.update_gauge k v s)
  pub counter : (k : String) (d : ℕ) (s : S) → P s → P (st.update_counter k d s)
  pub batch : (ms : List (Metrics F)) (s : S) → P s → P (st.update_batch ms s).1

module _ {F S : Type 0} (x : Externals F) (st : Storage F S) (key : String) (P : S → Type 0)
    (keeps : Keeps st P) (s : S) (h : P s) where
  update_gauge_value-keeps : (r : Request) → P (update_gauge_value x st r s).1
  unfolding update_gauge_value
  update_gauge_value-keeps r = elim (Option-cases (x.parse_float (r.url_param "value"))) [
    | inl e ↦ rw (update_gauge_value, e) h
    | inr (v, e) ↦ rw (update_gauge_value, e) (keeps.gauge _ v s h)
  ]

  update_counter_value-keeps : (r : Request) → P (update_counter_value x st r s).1
  unfolding update_counter_value
  update_counter_value-keeps r = elim (Option-cases (parse_int (r.url_param "value"))) [
    | inl e ↦ rw (update_counter_value, e) h
    | inr (v, e) ↦ rw (update_counter_value, e) (keeps.counter _ v s h)
  ]

  update_handler-keeps : (r : Request) → P (update_handler x st key r s).1
  unfolding update_handler
  update_handler-keeps r = ground (arith, update_gauge_value-keeps r, update_counter_value-keeps r)

  update_decoded-keeps : (m : Metrics F) → P (update_decoded x st key m s).1
  unfolding update_decoded
  update_decoded-keeps m = elim (Option-cases m.value) [
    | inl no_value ↦ elim (Option-cases m.delta) [
      | inl no_delta ↦ ground (arith, no_value, no_delta)
      | inr (d, has_delta) ↦ ground (arith, no_value, has_delta, keeps.counter m.id d s h)
    ]
    | inr (v, has_value) ↦ elim (Option-cases m.delta) [
      | inl no_delta ↦ ground (arith, has_value, no_delta, keeps.gauge m.id v s h)
      | inr (d, has_delta) ↦
          ground (arith, has_value, has_delta, keeps.gauge m.id v s h, keeps.counter m.id d s h)
    ]
  ]

  update_json_handler-keeps : (r : Request) → P (update_json_handler x st key r s).1
  unfolding update_json_handler
  update_json_handler-keeps r = elim (Option-cases (accepted_metrics x key r)) [
    | inl e ↦ rw (update_json_handler, e) h
    | inr (m, e) ↦ rw (update_json_handler, e) (update_decoded-keeps m)
  ]

  update_all-keeps : (ms : List (Metrics F)) → P (update_all x st ms s).1
  update_all-keeps ms = rw state-update_all (keeps.batch (unique_metrics x ms) s h)

  updates_handler-keeps : (r : Request) → P (updates_handler x st key r s).1
  unfolding updates_handler
  updates_handler-keeps r = elim (Option-cases (accepted_list x key r)) [
    | inl e ↦ rw (updates_handler, e) h
    | inr (ms, e) ↦ rw (updates_handler, e) (update_all-keeps ms)
  ]

  value_json_handler-keeps : (r : Request) → P (value_json_handler x st key r s).1
  unfolding value_json_handler
  value_json_handler-keeps r = ground arith

  handle-keeps : (e : Endpoint) (r : Request) → P (handle x st key e r s).1
  unfolding handle
  handle-keeps update r = update_handler-keeps r
  handle-keeps value r = rw (value_handler_kept x st key r s) h
  handle-keeps index r = rw (index_handler_kept x st key r s) h
  handle-keeps ping r = rw (ping_handler_kept x st key r s) h
  handle-keeps update_json r = update_json_handler-keeps r
  handle-keeps value_json r = value_json_handler-keeps r
  handle-keeps updates r = updates_handler-keeps r

  module _ (mux : Mux) (codecs : Codecs) (method path : String) where
    dispatch-keeps : (m : Message) → P (dispatch x st key mux codecs method path m s).1
    unfolding dispatch
    dispatch-keeps m = elim (Option-cases (mux.find routes method path)) [
      | inl missing ↦ rw (dispatch, missing) h
      | inr (f, found) ↦ rw (dispatch, found) (handle-keeps f.found_route.endpoint _)
    ]

    -- Whatever the request is, and whichever route chi finds for it, what the writing methods of the
    -- storage keep holds behind it too.
    pub serve_http-keeps :
        (rsa : Option Rsa) (m : Message) → P (serve_http x st key mux codecs rsa method path m s).1
    unfolding serve_http
    serve_http-keeps rsa m =
        let routed : Handler S = dispatch x st key mux codecs method path in
        decrypt_middleware-keeps codecs (gzip_middleware codecs routed) s P h
          (gzip_middleware-keeps codecs routed s P h dispatch-keeps) rsa m

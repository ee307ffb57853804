-- ===== src/Handlers/Json.antt =====
-- internal/server/handlers.go: UpdateJSONHandler and ValueJSONHandler.
pub mod Laws
use go_metrics.Common.{ℕ, String, not, Option, none, some, ◌==◌, if◌then◌else◌}
use go_metrics.Models.{Metrics}
use go_metrics.Storage.{Result, ok, err, Storage}
use go_metrics.Http.{Request, Response, new_response, set_header, write_header, write_text}
use go_metrics.Handlers.{Externals, add_hash_to_metrics, bind, check_hash}

abbrev json_response : Response
unfolding set_header
json_response = set_header "Content-Type" "application/json" new_response

abbrev answer : {F : Type 0} → Metrics F → Metrics F
answer m = record { id = m.id; mtype = m.mtype; delta = none; value = none; hash = "" }

module _ {F : Type 0} (x : Externals F) (key : String) where
  -- The end of both handlers: the status is sent before `Marshal` may fail, so the later
  -- WriteHeader(500) changes nothing.
  unfoldable pub reply_metrics : Metrics F → Response
  unfolding set_header
  reply_metrics resp =
      let w = write_header 200 json_response in
      elim (x.marshal (add_hash_to_metrics x key resp)) [
        | none ↦ write_header 500 w
        | some text ↦ write_text text w
      ]

  -- `resp.Delta = &v`, or an error status.
  unfoldable pub reply_counter : ℕ → Metrics F → Result ℕ → Response
  unfolding set_header
  reply_counter missing m (ok v) = reply_metrics (record (answer m) { delta = some v })
  reply_counter missing m (err e) = write_header missing json_response

  unfoldable pub reply_gauge : ℕ → Metrics F → Result F → Response
  unfolding set_header
  reply_gauge missing m (ok v) = reply_metrics (record (answer m) { value = some v })
  reply_gauge missing m (err e) = write_header missing json_response

  -- What stands before the switch of both: the media type, the hash, the decoding.
  unfoldable pub accepted_metrics : Request → Option (Metrics F)
  accepted_metrics r =
      if not (r.header "Content-Type" == "application/json")
      then none
      else if not (check_hash x key r)
      then none
      else bind r.body x.decode

module _ {F S : Type 0} (x : Externals F) (st : Storage F S) (key : String) where
  -- The `switch` of UpdateJSONHandler. The counter is read back after the update.
  unfoldable pub update_decoded : Metrics F → S → Response × S
  unfolding set_header
  update_decoded m s =
      if m.mtype == "gauge"
      then elim m.value [
        | none ↦ (write_header 400 json_response, s)
        | some v ↦
            (reply_metrics x key (record (answer m) { value = some v }), st.update_gauge m.id v s)
      ]
      else if m.mtype == "counter"
      then elim m.delta [
        | none ↦ (write_header 400 json_response, s)
        | some d ↦
            let s' = st.update_counter m.id d s in
            (reply_counter x key 500 m (st.get_counter m.id s'), s')
      ]
      else (write_header 400 json_response, s)

  unfoldable pub value_decoded : Metrics F → S → Response
  unfolding set_header
  value_decoded m s =
      if m.mtype == "gauge"
      then reply_gauge x key 404 m (st.get_gauge m.id s)
      else if m.mtype == "counter"
      then reply_counter x key 404 m (st.get_counter m.id s)
      else write_header 400 json_response

  unfoldable pub update_json_handler : Request → S → Response × S
  unfolding set_header
  update_json_handler r s = elim (accepted_metrics x key r) [
    | none ↦ (write_header 400 json_response, s)
    | some m ↦ update_decoded m s
  ]

  unfoldable pub value_json_handler : Request → S → Response × S
  unfolding set_header
  value_json_handler r s = elim (accepted_metrics x key r) [
    | none ↦ (write_header 400 json_response, s)
    | some m ↦ (value_decoded m s, s)
  ]

-- ===== src/Handlers/Plain.antt =====
-- internal/server/handlers.go: UpdateHandler, ValueHandler, IndexHandler and PingHandler. A handler
-- maps a request and the storage's state to a response and the new state.
pub mod Laws
use go_metrics.Common.{String, not, none, some, ◌==◌, if◌then◌else◌}
use go_metrics.Storage.{gauge, counter, Result, ok, err, Storage}
use go_metrics.Strconv.{parse_int, format_int}
use go_metrics.Http.{Request, Response, new_response, set_header, write_header, write_text}
use go_metrics.Handlers.{Externals, check_hash}

abbrev pub plain_response : Response
unfolding set_header
plain_response = set_header "Content-Type" "text/plain" new_response

-- w.WriteHeader(http.StatusOK), then the body.
unfoldable pub send : String → Response → Response
unfolding write_header write_text
send text w = write_text text (write_header 200 w)

-- The switch of ValueHandler, for a value that was found and printed.
abbrev reply_value : {A : Type 0} → (A → String) → Result A → Response
reply_value print (ok v) = send (print v) plain_response
reply_value print (err e) = write_header 404 plain_response

module _ {F S : Type 0} (x : Externals F) (st : Storage F S) where
  unfoldable pub update_gauge_value : Request → S → Response × S
  unfolding set_header
  update_gauge_value r s = elim (x.parse_float (r.url_param "value")) [
    | none ↦ (write_header 400 plain_response, s)
    | some v ↦ (send "OK" plain_response, st.update_gauge (r.url_param "name") v s)
  ]

  unfoldable pub update_counter_value : Request → S → Response × S
  unfolding set_header
  update_counter_value r s = elim (parse_int (r.url_param "value")) [
    | none ↦ (write_header 400 plain_response, s)
    | some v ↦ (send "OK" plain_response, st.update_counter (r.url_param "name") v s)
  ]

  unfoldable pub value_handler : Request → S → Response × S
  unfolding set_header
  value_handler r s =
      if r.url_param "name" == ""
      then (write_header 404 new_response, s)
      else if r.url_param "type" == gauge
      then (reply_value x.print_float (st.get_gauge (r.url_param "name") s), s)
      else if r.url_param "type" == counter
      then (reply_value format_int (st.get_counter (r.url_param "name") s), s)
      else (write_header 400 plain_response, s)

  -- The template is a constant that parses.
  unfoldable pub index_handler : Request → S → Response × S
  index_handler r s = (
    send (x.render (st.get_all_gauges s) (st.get_all_counters s))
        (set_header "Content-Type" "text/html" new_response),
    s,
  )

unfoldable pub update_handler :
    {F S : Type 0} → Externals F → Storage F S → String → Request → S → Response × S
unfolding update_gauge_value update_counter_value set_header
update_handler x st key r s =
    if not (check_hash x key r)
    then (write_header 400 new_response, s)
    else if r.url_param "name" == ""
    then (write_header 404 new_response, s)
    else if r.url_param "type" == gauge
    then update_gauge_value x st r s
    else if r.url_param "type" == counter
    then update_counter_value x st r s
    else (write_header 400 plain_response, s)

unfoldable pub ping_handler : {F S : Type 0} → Storage F S → Request → S → Response × S
ping_handler st r s =
    if not (st.is_available s) then (write_header 500 new_response, s) else elim (st.ping s) [
      | some e ↦ (write_header 500 new_response, s)
      | none ↦ (write_header 200 new_response, s)
    ]

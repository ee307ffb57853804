-- ===== src/Handlers/Plain/Laws.antt =====
-- The plain-text handlers: an update that is accepted is what a later read returns, and one that is
-- not accepted changes nothing.
use go_metrics.Common.{ℕ, String, ◌≡◌, ◌≢◌, ◌∙◌, true, some, arith, str_ne, eq_iff, eq_refl, add64}
use go_metrics.Storage.{gauge, counter, ok, Storage}
use go_metrics.Storage.Updates.{count_of, IsLawful}
use go_metrics.Strconv.{parse_int, format_int}
use go_metrics.Hash.{verify_hash}
use go_metrics.Http.{Request, write_header}
use go_metrics.Handlers.{Externals, check_hash, check_plain_hash}
use go_metrics.Handlers.Plain.{
  update_handler, update_gauge_value, update_counter_value, value_handler, send, plain_response,
}

module _ {F S : Type 0} (x : Externals F) (st : Storage F S) (key : String) (r : Request)
    (s : S) where
  -- An update that is not answered by 200 has not touched the storage.
  pub update_handler_refused :
      (update_handler x st key r s).0.status ≢ some 200 → (update_handler x st key r s).1 ≡ s
  unfolding update_handler write_header send
  update_handler_refused h = ground arith

-- A request that updates the metric `name` of a type: its hash passes and the name is not empty.
pub record Updates {F : Type 0} (x : Externals F) (key : String) (r : Request)
    (mtype name value : String) : Type 0 where
  pub passes : check_hash x key r ≡ true
  pub typed : r.url_param "type" ≡ mtype
  pub named : r.url_param "name" ≡ name
  pub present : name ≢ ""
  pub valued : r.url_param "value" ≡ value

-- A request that reads it.
pub record Reads (r : Request) (mtype name : String) : Type 0 where
  pub typed : r.url_param "type" ≡ mtype
  pub named : r.url_param "name" ≡ name

module _ {F S : Type 0} (x : Externals F) (st : Storage F S) where
  update_handler-gauge :
      (key : String) (r : Request) (s : S) (name value : String) (v : F)
      → Updates x key r gauge name value
      → x.parse_float value ≡ some v
      → update_handler x st key r s ≡ (send "OK" plain_response, st.update_gauge name v s)
  unfolding update_handler update_gauge_value
  update_handler-gauge key r s name value v u p =
      rw (u.passes, u.typed, u.named, str_ne u.present) (ground (arith, u.valued, u.named, p))

  update_handler-counter :
      (key : String) (r : Request) (s : S) (name value : String) (d : ℕ)
      → Updates x key r counter name value
      → parse_int value ≡ some d
      → update_handler x st key r s ≡ (send "OK" plain_response, st.update_counter name d s)
  unfolding update_handler update_counter_value
  update_handler-counter key r s name value d u p =
      rw (u.passes, u.typed, u.named, str_ne u.present) (ground (arith, u.valued, u.named, p))

  value_handler-gauge :
      (r : Request) (s : S) (name : String) (v : F)
      → Reads r gauge name
      → name ≢ ""
      → st.get_gauge name s ≡ ok v
      → (value_handler x st r s).0 ≡ send (x.print_float v) plain_response
  unfolding value_handler
  value_handler-gauge r s name v n p g = rw (n.typed, n.named, str_ne p, g)

  value_handler-counter :
      (r : Request) (s : S) (name : String) (c : ℕ)
      → Reads r counter name
      → name ≢ ""
      → st.get_counter name s ≡ ok c
      → (value_handler x st r s).0 ≡ send (format_int c) plain_response
  unfolding value_handler
  value_handler-counter r s name c n p g = rw (n.typed, n.named, str_ne p, g)

  -- Over a lawful storage, a gauge that is posted in the URL, with a name, a hash that passes and a
  -- value that parses, is what the next GET of it prints.
  pub value_handler-update_handler-gauge :
      (key : String) (r q : Request) (s : S) (name value : String) (v : F)
      → IsLawful st
      → Updates x key r gauge name value
      → x.parse_float value ≡ some v
      → Reads q gauge name
      → (value_handler x st q (update_handler x st key r s).1).0
        ≡ send (x.print_float v) plain_response
  value_handler-update_handler-gauge key r q s name value v law u p n =
      rw (update_handler-gauge key r s name value v u p) (
        value_handler-gauge q _ name v n u.present
          (law.gauge_set name name v s ∙ rw (eq_refl name)))

  -- Over a lawful storage, a delta that is posted in the URL, with a name, a hash that passes and a
  -- value that parses, is added, in 64 bits, to what the
  -- counter was (zero if it was not there), and the next GET of the counter prints the sum.
  pub value_handler-update_handler-counter :
      (key : String) (r q : Request) (s : S) (name value : String) (d : ℕ)
      → IsLawful st
      → Updates x key r counter name value
      → parse_int value ≡ some d
      → Reads q counter name
      → (value_handler x st q (update_handler x st key r s).1).0
        ≡ send (format_int (add64 (count_of (st.get_counter name s)) d)) plain_response
  value_handler-update_handler-counter key r q s name value d law u p n =
      rw (update_handler-counter key r s name value d u p) (
        value_handler-counter q _ name _ n u.present
          (law.counter_added name name d s ∙ rw (eq_refl name)))

-- With a key, an update that is answered by 200 and whose HashSHA256 header is not empty is signed:
-- unless it says JSON, the header is the HMAC of the body.
pub update_handler-signed :
    {F S : Type 0} (x : Externals F) (st : Storage F S) (key : String) (r : Request) (s : S)
    (body : String)
    → key ≢ ""
    → r.header "Content-Type" ≢ "application/json"
    → r.header "HashSHA256" ≢ ""
    → r.body ≡ some body
    → (update_handler x st key r s).0.status ≡ some 200
    → r.header "HashSHA256" ≡ x.hmac body key
unfolding update_handler check_hash check_plain_hash verify_hash write_header
update_handler-signed x st key r s body k c h b e = ground (
  arith,
  eq_iff key "",
  eq_iff (r.header "Content-Type") "application/json",
  eq_iff (r.header "HashSHA256") "",
  eq_iff (x.hmac body key) (r.header "HashSHA256"),
  k,
  c,
  h,
  b,
  e,
)

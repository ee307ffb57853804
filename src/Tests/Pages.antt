-- ===== src/Tests/Pages.antt =====
-- The plain-text and the JSON handlers over the storage in memory.
use go_metrics.Common.{
  ℕ, String, ◌≡◌, ◌≢◌, ◌⊎◌, refl, some, List, true, false, arith, add64, ◌==◌, if◌then◌else◌,
  eq_iff,
}
use go_metrics.Models.{Metrics}
use go_metrics.Storage.{gauge, counter}
use go_metrics.Storage.Updates.{set_gauge, add_counter, update_of, count_of}
use go_metrics.Storage.Mem.{mem_storage, get_counter}
use go_metrics.Storage.Mem.Laws.{mem_storage-IsLawful}
use go_metrics.Http.{Request, write_header}
use go_metrics.Hash.{verify_hash}
use go_metrics.Strconv.{format_int, parse_int}
use go_metrics.Handlers.{
  check_hash, check_plain_hash, hash_data, add_hash_to_metrics, verify_metric_hash,
}
use go_metrics.Handlers.Plain.{
  update_gauge_value, update_handler, value_handler, send, plain_response,
}
use go_metrics.Http.{write_text}
use go_metrics.Handlers.Plain.Laws.{
  Updates, Reads, value_handler-update_handler-counter, update_handler-signed,
}
use go_metrics.Handlers.Json.{accepted_metrics, update_json_handler, value_json_handler}
use go_metrics.Handlers.Json.Laws.{
  verify_metric_hash-add_hash_to_metrics, value_json_handler-update_json_handler,
}
use go_metrics.Handlers.Updates.{updates_handler}
use go_metrics.Handlers.Updates.Laws.{Carries, updates_handler-cases}
use go_metrics.Tests.Setup.{polls, alloc, libraries, post, runtime, empty}

-- A request for the metric `name` of a type, with the HMAC "body" ++ "k" of its body.
abbrev plain : String → String → String → Request
plain mtype name value = record {
  header = λ h. if h == "HashSHA256" then "bodyk" else "";
  body = some "body";
  url_param = λ p.
      if p == "type"
      then mtype
      else if p == "name"
      then name
      else if p == "value"
      then value
      else "";
}

plain-Updates :
    (mtype name value : String)
    → name ≢ ""
    → Updates libraries "" (plain mtype name value) mtype name value
unfolding check_hash
plain-Updates mtype name value p = record {
  passes = refl;
  typed = refl;
  named = refl;
  present = p;
  valued = refl;
}

plain-Reads : (mtype name : String) → Reads (plain mtype name "") mtype name
plain-Reads mtype name = record { typed = refl; named = refl }

differ : (s t : String) → (s == t) ≡ false → s ≢ t
differ s t h e = ground (arith, eq_iff s t, h, e)

five_parsed : parse_int "5" ≡ some 5
unfolding parse_int
five_parsed = refl

value_handler-update_handler-counter_example :
    (value_handler libraries
      (mem_storage runtime)
      (plain counter "polls" "")
      (update_handler libraries (mem_storage runtime) "" (plain counter "polls" "5") empty).1).0
    ≡ send (format_int (add64 (count_of (get_counter "polls" empty)) 5)) plain_response
value_handler-update_handler-counter_example =
    value_handler-update_handler-counter libraries (mem_storage runtime) ""
      (plain counter "polls" "5") (plain counter "polls" "") empty "polls" "5" 5
      (mem_storage-IsLawful runtime) (plain-Updates counter "polls" "5" (differ "polls" "" refl))
      five_parsed (plain-Reads counter "polls")

-- The metric does not exist: 404 at once.
no_name_refused :
    (update_handler libraries (mem_storage runtime) "" (plain gauge "" "1.5") empty).0.status
    ≡ some 404
unfolding update_handler check_hash write_header
no_name_refused = refl

signed_ok :
    (update_handler libraries (mem_storage runtime) "k" (plain gauge "alloc" "1.5") empty).0.status
    ≡ some 200
unfolding update_handler check_hash check_plain_hash verify_hash write_header update_gauge_value
    send write_text
signed_ok = refl

update_handler-signed_example : "bodyk" ≡ libraries.hmac "body" "k"
update_handler-signed_example =
    update_handler-signed libraries (mem_storage runtime) "k" (plain gauge "alloc" "1.5") empty
      "body" (differ "k" "" refl) (differ "" "application/json" refl) (differ "bodyk" "" refl) refl
      signed_ok

polls_text : hash_data libraries "k" (polls 5) ≡ some "polls:counter:5"
unfolding hash_data format_int
polls_text = refl

verify_metric_hash-add_hash_to_metrics_example :
    verify_metric_hash libraries "k" (add_hash_to_metrics libraries "k" (polls 5)) ≡ true
verify_metric_hash-add_hash_to_metrics_example =
    verify_metric_hash-add_hash_to_metrics libraries "k" (polls 5) "polls:counter:5" polls_text
      (differ "polls:counter:5k" "" refl)

polls_accepted : accepted_metrics libraries "" (post "polls") ≡ some (polls 2)
unfolding accepted_metrics verify_metric_hash check_hash
polls_accepted = refl

junk_refused :
    (update_json_handler libraries (mem_storage runtime) "" (post "junk") empty).0.status ≡ some 400
unfolding update_json_handler accepted_metrics write_header check_hash
junk_refused = refl

updates_handler-cases_example :
    ((ms : List (Metrics ℕ)) × Carries libraries "" (post "junk") ms)
    ⊎ (((updates_handler libraries (mem_storage runtime) "" (post "junk") empty).0.status
          ≡ some 400)
        × ((updates_handler libraries (mem_storage runtime) "" (post "junk") empty).1 ≡ empty))
updates_handler-cases_example =
    updates_handler-cases libraries (mem_storage runtime) "" (post "junk") empty

polls_update : (d : ℕ) → update_of (polls d) ≡ some (add_counter "polls" d)
unfolding update_of
polls_update d = refl

alloc_update : update_of (alloc 7) ≡ some (set_gauge "alloc" 7)
unfolding update_of
alloc_update = refl

value_json_handler-update_json_handler_example :
    (value_json_handler libraries
      (mem_storage runtime)
      ""
      (post "polls")
      (update_json_handler libraries (mem_storage runtime) "" (post "polls") empty).1).0
    ≡ (update_json_handler libraries (mem_storage runtime) "" (post "polls") empty).0
value_json_handler-update_json_handler_example =
    value_json_handler-update_json_handler libraries (mem_storage runtime) "" (post "polls")
      (post "polls") empty (polls 2) (polls 2) 2 (mem_storage-IsLawful runtime) polls_accepted refl
      refl polls_accepted refl refl

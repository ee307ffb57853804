-- ===== src/Handlers.antt =====
-- internal/server/handlers.go: what the handlers share, the hash checks. The handlers themselves
-- are in the modules below.
pub mod Plain
pub mod Json
pub mod Updates
use Prim.Native.String
use go_metrics.Common.{
  ℕ, String, Bool, true, false, not, Option, none, some, List, ◌==◌, if◌then◌else◌,
}
use go_metrics.GoMap.{GoMap, Order}
use go_metrics.Models.{Metrics}
use go_metrics.Strconv.{format_int}
use go_metrics.Hash.{calculate_hash, verify_hash}
use go_metrics.Http.{Request, Response, set_header}

-- What the handlers take from the libraries: the HMAC, the float64 conversions, encoding/json
-- (`none` is an error) and html/template, and the order of `range` over the metrics of a batch.
pub record Externals (F : Type 0) : Type 0 where
  pub hmac : String → String → String
  pub format_float : F → String
  pub print_float : F → String
  pub parse_float : String → Option F
  pub unmarshal : String → Option (Metrics F)
  pub decode : String → Option (Metrics F)
  pub decode_list : String → Option (List (Metrics F))
  pub marshal : Metrics F → Option String
  pub render : GoMap F → GoMap ℕ → String
  pub range_order : Order (String × Metrics F)

-- fmt.Sprintf("%s:%s:%s", …), and so "%s:%s:%d" and "%s:%s:%f" on the printed number.
abbrev pub signed_text : String → String → String → String
signed_text id mtype number = id ++ (":" ++ (mtype ++ (":" ++ number)))
  where
    infixr 65 ◌++◌
    ◌++◌ : String → String → String
    s ++ t = String.◌++◌ s t

abbrev pub bind : {A B : Type 0} → Option A → (A → Option B) → Option B
bind none f = none
bind (some a) f = f a

module _ {F : Type 0} (x : Externals F) (key : String) where
  -- The text that is signed: the `switch` that four functions of the file repeat. `none` is the
  -- case with no text, a nil value or another type.
  unfoldable pub hash_data : Metrics F → Option String
  hash_data m =
      if m.mtype == "counter"
      then bind m.delta (λ d. some (signed_text m.id m.mtype (format_int d)))
      else if m.mtype == "gauge"
      then bind m.value (λ v. some (signed_text m.id m.mtype (x.format_float v)))
      else none

  -- It has two colons, so `data != ""` holds where it is set.
  unfoldable pub add_hash_to_metrics : Metrics F → Metrics F
  add_hash_to_metrics m = if key == "" then m else elim (hash_data m) [
    | none ↦ m
    | some text ↦ record m { hash = calculate_hash x.hmac text key }
  ]

  unfoldable pub add_hash_to_response : Response → String → Response
  add_hash_to_response w body =
      if key == "" then w else set_header "HashSHA256" (calculate_hash x.hmac body key) w

  -- The header with the hash, or the older one.
  abbrev header_hash : Request → String
  header_hash r = if r.header "HashSHA256" == "" then r.header "Hash" else r.header "HashSHA256"

  -- The parsed body, where no header has a hash.
  unfoldable pub check_body_hash : Metrics F → Bool
  check_body_hash m =
      if m.hash == ""
      then true
      else elim (hash_data m) [ none ↦ false | some text ↦ verify_hash x.hmac text key m.hash ]

  unfoldable pub check_json_hash : Request → Bool
  check_json_hash r = elim r.body [
    | none ↦ false
    | some body ↦
        let h = header_hash r in
        if h == "none" then true else elim (x.unmarshal body) [
          | none ↦ false
          | some m ↦ if not (h == "") then verify_hash x.hmac body key h else check_body_hash m
        ]
  ]

  unfoldable pub check_plain_hash : Request → Bool
  check_plain_hash r = elim r.body [
    | none ↦ false
    | some body ↦
        if r.header "HashSHA256" == ""
        then if r.header "Hash" == ""
          then true
          else if r.header "Hash" == "none"
          then true
          else verify_hash x.hmac body key (r.header "Hash")
        else verify_hash x.hmac body key (r.header "HashSHA256")
  ]

  unfoldable pub check_hash : Request → Bool
  check_hash r =
      if key == ""
      then true
      else if r.header "Content-Type" == "application/json"
      then check_json_hash r
      else check_plain_hash r

  unfoldable pub verify_metric_hash : Metrics F → Bool
  verify_metric_hash m =
      if key == "" then true else if m.hash == "" then false else elim (hash_data m) [
        | none ↦ false
        | some text ↦ m.hash == calculate_hash x.hmac text key
      ]

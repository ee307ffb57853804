-- ===== src/Handlers/Updates.antt =====
-- internal/server/handlers.go: UpdatesHandler, a batch of metrics in one request.
pub mod Grouping
pub mod Laws
use Prim.Native.String
use go_metrics.Common.{
  ℕ, String, Bool, true, false, not, Option, none, some, List, [], ◌∷◌, add64, all, ◌&&◌, ◌==◌,
  if◌then◌else◌,
}
use go_metrics.GoMap.{GoMap, index, assign, values, Order}
use go_metrics.Models.{Metrics}
use go_metrics.Storage.{Error, Storage}
use go_metrics.Http.{Request, Response, new_response, set_header, write_header}
use go_metrics.Handlers.{Externals, bind, verify_metric_hash}

abbrev json_response : Response
unfolding set_header
json_response = set_header "Content-Type" "application/json" new_response

abbrev both : Option ℕ → Option ℕ → Option ℕ
both (some a) (some b) = some (add64 a b)
both _ d = d

module _ {F : Type 0} where
  -- metric.ID + "_" + metric.MType
  unfoldable pub group_key : Metrics F → String
  group_key m = String.◌++◌ (String.◌++◌ m.id "_") m.mtype

  -- A later metric of the same key takes the place of the earlier one, with the deltas added up if
  -- it is a counter and both have one.
  unfoldable pub merge : Option (Metrics F) → Metrics F → Metrics F
  merge none m = m
  merge (some e) m = if m.mtype == "counter" then record m { delta = both e.delta m.delta } else m

  unfoldable pub group_from : GoMap (Metrics F) → List (Metrics F) → GoMap (Metrics F)
  unfolding group_key merge
  group_from acc [] = acc
  group_from acc (m ∷ ms) =
      group_from (assign (group_key m) (merge (index (group_key m) acc) m) acc) ms

-- uniqueMetrics, in the order in which `range` visits the map.
unfoldable pub unique_metrics : {F : Type 0} → Externals F → List (Metrics F) → List (Metrics F)
unique_metrics x ms = values (x.range_order.visit (group_from [] ms))

unfoldable pub update_all :
    {F S : Type 0} → Externals F → Storage F S → List (Metrics F) → S → Response × S
unfolding set_header
update_all x st ms s =
    let (e, s') = st.update_batch (unique_metrics x ms) s in
    elim e [
      | some y ↦ (write_header 500 json_response, s')
      | none ↦ (write_header 200 json_response, s')
    ]

-- The hashes are checked only if there is a key.
abbrev pub checked : {F : Type 0} → Externals F → String → List (Metrics F) → Bool
checked x key ms = if key == "" then true else all (verify_metric_hash x key) ms

-- What stands before the grouping: the media type, the decoding, the empty list, the hashes.
unfoldable pub accepted_list :
    {F : Type 0} → Externals F → String → Request → Option (List (Metrics F))
accepted_list x key r =
    if not (r.header "Content-Type" == "application/json")
    then none
    else elim (bind r.body x.decode_list) [
      | none ↦ none
      | some [] ↦ none
      | some (m ∷ ms) ↦ if checked x key (m ∷ ms) then some (m ∷ ms) else none
    ]

unfoldable pub updates_handler :
    {F S : Type 0} → Externals F → Storage F S → String → Request → S → Response × S
unfolding set_header
updates_handler x st key r s = elim (accepted_list x key r) [
  | none ↦ (write_header 400 json_response, s)
  | some ms ↦ update_all x st ms s
]

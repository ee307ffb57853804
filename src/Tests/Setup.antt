-- ===== src/Tests/Setup.antt =====
-- Concrete libraries for the runs: float64 values are numbers, the HMAC of a text is the text with
-- the key behind it, `range` visits the second entry first, and the JSON texts are few.
use Prim.Native.String
use go_metrics.Common.{
  ℕ, String, Option, none, some, List, [], ◌∷◌, Permᴰ, refl, ◌==◌, if◌then◌else◌,
}
use mathlib.Core.List.Permᴰ
use go_metrics.GoMap.{Order}
use go_metrics.Common.{add64}
use go_metrics.GoMap.{index, assign, copy_map}
use go_metrics.Storage.Mem.{
  update_gauge, update_counter, get_gauge, get_counter, update_metric, update_batch,
}
use go_metrics.Models.{Metrics}
use go_metrics.Storage.Mem.{MemStorage, Runtime}
use go_metrics.Http.{Request}
use go_metrics.Handlers.{Externals}

abbrev pub swap_two : {A : Type 0} → List A → List A
swap_two (a ∷ b ∷ l) = b ∷ a ∷ l
swap_two l = l

pub swap_two-perm : {A : Type 0} (l : List A) → Permᴰ l (swap_two l)
swap_two-perm (a ∷ b ∷ l) = Permᴰ.swap refl refl
swap_two-perm (a ∷ []) = Permᴰ.refl (a ∷ [])
swap_two-perm [] = Permᴰ.nil

abbrev pub second_first : {A : Type 0} → Order A
second_first = record { visit = swap_two; visit_perm = swap_two-perm }

abbrev pub metric : String → String → Option ℕ → Option ℕ → String → Metrics ℕ
metric id mtype delta value hash = record {
  id = id;
  mtype = mtype;
  delta = delta;
  value = value;
  hash = hash;
}

abbrev pub polls : ℕ → Metrics ℕ
polls d = metric "polls" "counter" (some d) none ""

abbrev pub alloc : ℕ → Metrics ℕ
alloc v = metric "alloc" "gauge" none (some v) ""

-- A batch with two metrics of one key, and one that is signed under the key "k".
abbrev pub batch : List (Metrics ℕ)
batch = polls 2 ∷ alloc 7 ∷ polls 3 ∷ []

abbrev pub signed_batch : List (Metrics ℕ)
signed_batch = metric "polls" "counter" (some 2) none "polls:counter:2k" ∷ []

abbrev pub libraries : Externals ℕ
libraries = record {
  hmac = λ text key. String.◌++◌ text key;
  format_float = λ v. "1.5";
  print_float = λ v. "1.5";
  parse_float = λ s. if s == "1.5" then some 7 else none;
  unmarshal = λ s. if s == "polls" then some (polls 2) else none;
  decode = λ s. if s == "polls" then some (polls 2) else none;
  decode_list =
      λ s. if s == "batch" then some batch else if s == "signed" then some signed_batch else none;
  marshal = λ m. some m.hash;
  render = λ g c. "page";
  range_order = second_first;
}

abbrev pub post : String → Request
post body = record {
  header = λ h. if h == "Content-Type" then "application/json" else "";
  body = some body;
  url_param = λ p. "";
}

abbrev pub runtime : Runtime ℕ
runtime = record {
  gauge_order = second_first;
  counter_order = second_first;
  encode = λ d. some "dump";
  decode = λ s. some (record { gauges = ("alloc", 1) ∷ []; counters = [] });
}

abbrev pub empty : MemStorage ℕ
empty = record { gauges = []; counters = [] }

-- What a run of a handler over the storage in memory unfolds.
unfoldable pub storage_runs : Unit {0}
unfolding index assign copy_map add64 update_gauge update_counter get_gauge get_counter
    update_metric update_batch
storage_runs = tt

-- ===== src/Tests/Stores.antt =====
-- The storage in memory.
use go_metrics.Common.{ℕ, String, ◌≡◌, ◌≢◌, refl, ap, Option, none, some, List, [], ◌∷◌, ◌++◌, true}
use go_metrics.GoMap.{IsDistinct, index}
use go_metrics.GoMap.Laws.{SameMap}
use go_metrics.Models.{Metrics}
use go_metrics.Storage.{Files}
use go_metrics.Storage.Updates.{set_gauge, add_counter, Asks, nothing, more, update_of, IsLawful}
use go_metrics.Storage.Mem.{
  MemStorage, Runtime, mem_storage, update_batch, save_to_file, load_from_file, dump_of,
}
use go_metrics.Storage.Mem.Laws.{mem_storage-IsLawful}
use go_metrics.Storage.Mem.Batch.{update_batch_stops}
use go_metrics.Storage.Mem.Persistence.{IsValid, IsCodec, SameMetrics, load_from_file-save_to_file}
use go_metrics.Tests.Setup.{metric, polls, alloc, runtime, empty, second_first, storage_runs}

mem_storage-IsLawful_example : IsLawful (mem_storage runtime)
mem_storage-IsLawful_example = mem_storage-IsLawful runtime

-- A gauge with no value.
abbrev no_value : Metrics ℕ
no_value = metric "load" "gauge" none none ""

two-Asks : Asks (polls 2 ∷ alloc 7 ∷ []) (add_counter "polls" 2 ∷ set_gauge "alloc" 7 ∷ [])
unfolding update_of
two-Asks = more refl (more refl nothing)

no_value-refused : update_of no_value ≡ none
unfolding update_of
no_value-refused = refl

update_batch_stops_example :
    ((update_batch ((polls 2 ∷ alloc 7 ∷ []) ++ no_value ∷ polls 3 ∷ []) empty).0 ≢ none)
    × ((update_batch ((polls 2 ∷ alloc 7 ∷ []) ++ no_value ∷ polls 3 ∷ []) empty).1
        ≡ (update_batch (polls 2 ∷ alloc 7 ∷ []) empty).1)
update_batch_stops_example =
    update_batch_stops (polls 2 ∷ alloc 7 ∷ []) (polls 3 ∷ [])
      (add_counter "polls" 2 ∷ set_gauge "alloc" 7 ∷ []) no_value empty two-Asks no_value-refused

empty-IsValid : IsValid empty
empty-IsValid = record { gauges = tt; counters = tt }

-- A codec for dumps with one gauge, which are known by its name.
abbrev encode_lists : List (String × Unit {0}) → List (String × ℕ) → Option String
encode_lists ((k, v) ∷ []) [] = some k
encode_lists g c = none

abbrev pub one_gauge : Runtime (Unit {0})
one_gauge = record {
  gauge_order = second_first;
  counter_order = second_first;
  encode = λ d. encode_lists d.gauges d.counters;
  decode = λ s. some (record { gauges = (s, tt) ∷ []; counters = [] });
}

one_entry :
    (g : List (String × Unit {0})) (c : List (String × ℕ)) (text : String)
    → IsDistinct g
    → IsDistinct c
    → encode_lists g c ≡ some text
    → SameMap g ((text, tt) ∷ []) × SameMap c []
unfolding index
one_entry ((k, v) ∷ []) [] text p q h =
    let same : k ≡ text = cc h in
    (
      record { same = λ n. ap (λ t. index n ((t, tt) ∷ [])) same; distinct = (refl, tt) },
      record { same = λ n. refl; distinct = tt },
    )
one_entry g c text p q h = cc h

pub one_gauge-IsCodec : IsCodec one_gauge
one_gauge-IsCodec = record {
  round_trip = λ d text p q h.
      let (g, c) = one_entry d.gauges d.counters text p q h in
      (record { gauges = (text, tt) ∷ []; counters = [] }, refl, g, c);
}

abbrev pub saved : MemStorage (Unit {0})
saved = record { gauges = ("alloc", tt) ∷ []; counters = [] }

abbrev pub no_metrics : MemStorage (Unit {0})
no_metrics = record { gauges = []; counters = [] }

abbrev pub disk : Files
disk = record { contents = λ f. none; can_create = λ f. true }

pub saved-IsValid : IsValid saved
unfolding index
saved-IsValid = record { gauges = (refl, tt); counters = tt }

saved_written : (save_to_file one_gauge "db" saved disk).0 ≡ none
unfolding save_to_file dump_of storage_runs
saved_written = refl

load_from_file-save_to_file_example :
    ((load_from_file one_gauge "db" (save_to_file one_gauge "db" saved disk).1 no_metrics).0 ≡ none)
    × SameMetrics saved
        (load_from_file one_gauge "db" (save_to_file one_gauge "db" saved disk).1 no_metrics).1
load_from_file-save_to_file_example =
    load_from_file-save_to_file one_gauge "db" saved no_metrics disk saved-IsValid one_gauge-IsCodec
      saved_written

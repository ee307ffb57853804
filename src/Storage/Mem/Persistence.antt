-- ===== src/Storage/Mem/Persistence.antt =====
-- memstorage.go, `SaveToFile` and `LoadFromFile`.
use go_metrics.Common.{
  List, [], ◌∷◌, Option-cases, inl, inr, ℕ, String, ◌≡◌, refl, none, some, arith, eq_refl, true,
}
use go_metrics.GoMap.{IsDistinct}
use go_metrics.GoMap.Laws.{
  copy_map-IsDistinct, assign-IsDistinct, SameMap, SameMap-trans, copy_map-SameMap,
}
use go_metrics.Models.{Metrics}
use go_metrics.Storage.{Files, Error, encode_failed}
use go_metrics.Storage.Mem.{
  MemStorage, StorageDump, Runtime, new_mem_storage, update_gauge, update_counter, update_metric,
  update_batch, save_to_file, load_from_file, dump_of, restore,
}

-- Each map has one entry for a key, as every Go map has.
pub record IsValid {F : Type 0} (s : MemStorage F) : Type 0 where
  pub gauges : IsDistinct s.gauges
  pub counters : IsDistinct s.counters

-- Two storages with the same entries.
pub record SameMetrics {F : Type 0} (s t : MemStorage F) : Type 0 where
  pub gauges : SameMap s.gauges t.gauges
  pub counters : SameMap s.counters t.counters

-- encoding/json: what `Encode` wrote, `Decode` reads back as a dump with the same entries.
pub record IsCodec {F : Type 0} (rt : Runtime F) : Type 0 where
  pub round_trip :
      (d : StorageDump F) (text : String)
      → IsDistinct d.gauges
      → IsDistinct d.counters
      → rt.encode d ≡ some text
      → (e : StorageDump F) × (rt.decode text ≡ some e)
        × SameMap d.gauges e.gauges
        × SameMap d.counters e.counters

module _ {F : Type 0} where
  pub new_mem_storage-IsValid : IsValid (new_mem_storage {F = F})
  unfolding new_mem_storage
  new_mem_storage-IsValid = record { gauges = tt; counters = tt }

  pub update_gauge-IsValid :
      (k : String) (v : F) (s : MemStorage F) → IsValid s → IsValid (update_gauge k v s)
  unfolding update_gauge
  update_gauge-IsValid k v s h = record {
    gauges = assign-IsDistinct k v s.gauges h.gauges;
    counters = h.counters;
  }

  pub update_counter-IsValid :
      (k : String) (d : ℕ) (s : MemStorage F) → IsValid s → IsValid (update_counter k d s)
  unfolding update_counter
  update_counter-IsValid k d s h = record {
    gauges = h.gauges;
    counters = assign-IsDistinct k _ s.counters h.counters;
  }

  update_metric-IsValid :
      (m : Metrics F) (s : MemStorage F) → IsValid s → IsValid (update_metric m s).1
  unfolding update_metric
  update_metric-IsValid m s h = grind (arith, update_gauge-IsValid, update_counter-IsValid)

  -- Accepted or refused halfway, a batch leaves maps with one entry for a key if they were so before.
  pub update_batch-IsValid :
      (ms : List (Metrics F)) (s : MemStorage F) → IsValid s → IsValid (update_batch ms s).1
  unfolding update_batch
  update_batch-IsValid [] s h = h
  update_batch-IsValid (m ∷ ms) s h = elim (Option-cases (update_metric m s).0) [
    | inl e ↦ rw (e, update_batch) (update_batch-IsValid ms _ (update_metric-IsValid m s h))
    | inr (x, e) ↦ rw (e, update_batch) (update_metric-IsValid m s h)
  ]

module _ {F : Type 0} (rt : Runtime F) (filename : String) where
  saved_text :
      (s : MemStorage F) (fs : Files)
      → (save_to_file rt filename s fs).0 ≡ none
      → (text : String) × (rt.encode (dump_of rt s) ≡ some text)
        × ((save_to_file rt filename s fs).1.contents filename ≡ some text)
  unfolding save_to_file
  saved_text s fs h = ground (arith, eq_refl filename)

  loaded :
      (t : MemStorage F) (fs : Files) (text : String) (d : StorageDump F)
      → fs.contents filename ≡ some text
      → rt.decode text ≡ some d
      → load_from_file rt filename fs t ≡ (none, restore rt d)
  unfolding load_from_file
  loaded t fs text d e f = ground (arith, e, f)

  restore-SameMetrics :
      (s : MemStorage F) (d : StorageDump F)
      → SameMap s.gauges d.gauges
      → SameMap s.counters d.counters
      → SameMetrics s (restore rt d)
  restore-SameMetrics s d g c = record {
    gauges = SameMap-trans g (copy_map-SameMap rt.gauge_order d.gauges g.distinct);
    counters = SameMap-trans c (copy_map-SameMap rt.counter_order d.counters c.distinct);
  }

  dumped_gauges : (s : MemStorage F) → IsValid s → SameMap s.gauges (dump_of rt s).gauges
  unfolding dump_of
  dumped_gauges s v = copy_map-SameMap rt.gauge_order s.gauges v.gauges

  dumped_counters : (s : MemStorage F) → IsValid s → SameMap s.counters (dump_of rt s).counters
  unfolding dump_of
  dumped_counters s v = copy_map-SameMap rt.counter_order s.counters v.counters

  -- If the JSON codec reads back what it wrote, a save of a valid storage that returns no error is
  -- read back, by any storage and without an error, as the metrics that were saved.
  pub load_from_file-save_to_file :
      (s t : MemStorage F) (fs : Files)
      → IsValid s
      → IsCodec rt
      → (save_to_file rt filename s fs).0 ≡ none
      → ((load_from_file rt filename (save_to_file rt filename s fs).1 t).0 ≡ none)
        × SameMetrics s (load_from_file rt filename (save_to_file rt filename s fs).1 t).1
  load_from_file-save_to_file s t fs v c h =
      let (text, encoded, written) = saved_text s fs h in
      let g = dumped_gauges s v in
      let n = dumped_counters s v in
      let (d, decoded, dg, dn) = c.round_trip _ text g.distinct n.distinct encoded in
      rw (loaded t (save_to_file rt filename s fs).1 text d written decoded)
        (refl, restore-SameMetrics s d (SameMap-trans g dg) (SameMap-trans n dn))

  -- Where the file can be created and `Encode` fails, a save returns the error and the file is empty
  -- afterwards: what it held before is lost.
  pub save_to_file-encode_failed :
      (s : MemStorage F) (fs : Files)
      → fs.can_create filename ≡ true
      → rt.encode (dump_of rt s) ≡ none
      → ((save_to_file rt filename s fs).0 ≡ some (encode_failed filename))
        × ((save_to_file rt filename s fs).1.contents filename ≡ some "")
  unfolding save_to_file
  save_to_file-encode_failed s fs c e = ground (arith, eq_refl filename)

  -- A load that returns an error has changed no metric.
  pub load_from_file-error :
      (t : MemStorage F) (fs : Files) (e : Error)
      → (load_from_file rt filename fs t).0 ≡ some e
      → (load_from_file rt filename fs t).1 ≡ t
  unfolding load_from_file
  load_from_file-error t fs e h = ground arith

  -- Whatever is in the file, a load leaves maps with one entry for a key if they were so before.
  pub load_from_file-IsValid :
      (t : MemStorage F) (fs : Files) → IsValid t → IsValid (load_from_file rt filename fs t).1
  unfolding load_from_file
  load_from_file-IsValid t fs h = elim (Option-cases (fs.contents filename)) [
    | inl missing ↦ rw (load_from_file, missing) h
    | inr (text, read) ↦ elim (Option-cases (rt.decode text)) [
      | inl bad ↦ rw (load_from_file, read, bad) h
      | inr (dump, good) ↦
          rw (load_from_file, read, good)
            (record {
              gauges = copy_map-IsDistinct rt.gauge_order dump.gauges;
              counters = copy_map-IsDistinct rt.counter_order dump.counters;
            })
    ]
  ]

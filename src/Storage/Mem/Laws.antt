-- ===== src/Storage/Mem/Laws.antt =====
-- memstorage.go meets the laws of the interface.
use go_metrics.Common.{
  ℕ, String, ◌≡◌, refl, ◌∙◌, none, some, List, ◌∷◌, arith, ap, inl, inr, eq_iff,
}
use go_metrics.Storage.{gauge, counter}
use go_metrics.Storage.Updates.Laws.{update_of-cases}
use go_metrics.GoMap.Laws.{index-assign}
use go_metrics.Models.{Metrics}
use go_metrics.Storage.Updates.{
  Update, set_gauge, add_counter, update_of, gauge_after, gauge_after_all, counter_after,
  counter_after_all, Asks, nothing, more, IsLawful,
}
use go_metrics.Storage.Mem.{
  MemStorage, Runtime, update_gauge, update_counter, get_gauge, get_counter, update_metric,
  update_batch, mem_storage,
}

module _ {F : Type 0} where
  pub get_gauge-update_gauge :
      (k n : String) (v : F) (s : MemStorage F)
      → get_gauge n (update_gauge k v s) ≡ gauge_after n (set_gauge k v) (get_gauge n s)
  unfolding get_gauge update_gauge
  get_gauge-update_gauge k n v s = rw index-assign (ground arith)

  pub get_counter-update_counter :
      (k n : String) (d : ℕ) (s : MemStorage F)
      → get_counter n (update_counter k d s)
        ≡ counter_after {F = F} n (add_counter k d) (get_counter n s)
  unfolding get_counter update_counter
  get_counter-update_counter k n d s = rw index-assign (ground (arith, eq_iff k n))

  -- One round of the loop: a metric with an update is accepted, and has the effect of its update.
  record Applied (n : String) (u : Update F) (m : Metrics F) (s : MemStorage F) : Type 0 where
    accepted : (update_metric m s).0 ≡ none
    gauges : get_gauge n (update_metric m s).1 ≡ gauge_after n u (get_gauge n s)
    counters : get_counter n (update_metric m s).1 ≡ counter_after n u (get_counter n s)

  update_metric-gauge :
      (m : Metrics F) (v : F) (s : MemStorage F)
      → m.mtype ≡ gauge
      → m.value ≡ some v
      → update_metric m s ≡ (none, update_gauge m.id v s)
  unfolding update_metric
  update_metric-gauge m v s t e = rw (t, e)

  update_metric-counter :
      (m : Metrics F) (d : ℕ) (s : MemStorage F)
      → m.mtype ≡ counter
      → m.delta ≡ some d
      → update_metric m s ≡ (none, update_counter m.id d s)
  unfolding update_metric
  update_metric-counter m d s t e = rw (t, e)

  get_counter-update_gauge :
      (k n : String) (v : F) (s : MemStorage F)
      → get_counter n (update_gauge k v s) ≡ get_counter n s
  unfolding get_counter update_gauge
  get_counter-update_gauge k n v s = refl

  get_gauge-update_counter :
      (k n : String) (d : ℕ) (s : MemStorage F) → get_gauge n (update_counter k d s) ≡ get_gauge n s
  unfolding get_gauge update_counter
  get_gauge-update_counter k n d s = refl

  update_metric_lem :
      (n : String) (u : Update F) (m : Metrics F) (s : MemStorage F)
      → update_of m ≡ some u
      → Applied n u m s
  update_metric_lem n u m s h = elim (update_of-cases m u h) [
    | inl (v, t, e, same) ↦
        let step = update_metric-gauge m v s t e in
        record {
          accepted = rw step;
          gauges = rw (same, step) (get_gauge-update_gauge m.id n v s);
          counters = rw (same, step) (get_counter-update_gauge m.id n v s);
        }
    | inr (d, t, e, same) ↦
        let step = update_metric-counter m d s t e in
        record {
          accepted = rw step;
          gauges = rw (same, step) (get_gauge-update_counter m.id n d s);
          counters = rw (same, step) (get_counter-update_counter m.id n d s);
        }
  ]

  pub update_metric_accepted :
      (u : Update F) (m : Metrics F) (s : MemStorage F)
      → update_of m ≡ some u
      → (update_metric m s).0 ≡ none
  update_metric_accepted u m s h = (update_metric_lem "" u m s h).accepted

  pub update_batch-cons :
      (m : Metrics F) (ms : List (Metrics F)) (s : MemStorage F)
      → (update_metric m s).0 ≡ none
      → update_batch (m ∷ ms) s ≡ update_batch ms (update_metric m s).1
  unfolding update_batch
  update_batch-cons m ms s h = rw (h, update_batch)

  pub update_batch-accepted :
      (ms : List (Metrics F)) (us : List (Update F)) (s : MemStorage F)
      → Asks ms us
      → (update_batch ms s).0 ≡ none
  unfolding update_batch
  update_batch-accepted _ _ s nothing = refl
  update_batch-accepted _ _ s (more {m} {u} {ms} {us} e h) =
      rw (update_batch-cons m ms s (update_metric_accepted u m s e))
        (update_batch-accepted ms us _ h)

  update_batch-gauges :
      (ms : List (Metrics F)) (us : List (Update F)) (s : MemStorage F) (n : String)
      → Asks ms us
      → get_gauge n (update_batch ms s).1 ≡ gauge_after_all n us (get_gauge n s)
  unfolding update_batch
  update_batch-gauges _ _ s n nothing = refl
  update_batch-gauges _ _ s n (more {m} {u} {ms} {us} e h) =
      let a = update_metric_lem n u m s e in
      rw (update_batch-cons m ms s a.accepted)
        (update_batch-gauges ms us _ n h ∙ ap (gauge_after_all n us) a.gauges)

  update_batch-counters :
      (ms : List (Metrics F)) (us : List (Update F)) (s : MemStorage F) (n : String)
      → Asks ms us
      → get_counter n (update_batch ms s).1 ≡ counter_after_all n us (get_counter n s)
  unfolding update_batch
  update_batch-counters _ _ s n nothing = refl
  update_batch-counters _ _ s n (more {m} {u} {ms} {us} e h) =
      let a = update_metric_lem n u m s e in
      rw (update_batch-cons m ms s a.accepted)
        (update_batch-counters ms us _ n h ∙ ap (counter_after_all n us) a.counters)

-- Whatever the order of `range` and the codec, the storage in memory has all the laws of the
-- interface: a read returns the last gauge set or the wrapped sum of the counter's deltas, a batch
-- of complete metrics is accepted, and it has the effect of its updates one after another.
pub mem_storage-IsLawful : {F : Type 0} (rt : Runtime F) → IsLawful (mem_storage rt)
mem_storage-IsLawful rt = record {
  gauge_set = get_gauge-update_gauge;
  gauge_kept = get_gauge-update_counter;
  counter_kept = get_counter-update_gauge;
  counter_added = get_counter-update_counter;
  batch_accepted = update_batch-accepted;
  batch_gauges = update_batch-gauges;
  batch_counters = update_batch-counters;
}

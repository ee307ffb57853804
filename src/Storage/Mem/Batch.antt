-- ===== src/Storage/Mem/Batch.antt =====
-- memstorage.go, `UpdateBatch` on metrics that are not all complete.
use go_metrics.Common.{◌≡◌, ◌≢◌, ◌↔◌, inl, inr, none, List, [], ◌∷◌, ◌++◌, arith, Option-cases}
use go_metrics.Models.{Metrics}
use go_metrics.Storage.Updates.{Update, update_of, Asks, nothing, more}
use go_metrics.Storage.Mem.{MemStorage, update_metric, update_batch}
use go_metrics.Storage.Mem.Laws.{update_metric_accepted, update_batch-cons, update_batch-accepted}

module _ {F : Type 0} where
  -- A metric with no update is refused, and changes nothing.
  update_metric_refused :
      (m : Metrics F) (s : MemStorage F)
      → update_of m ≡ none
      → ((update_metric m s).0 ≢ none) × ((update_metric m s).1 ≡ s)
  unfolding update_metric update_of
  update_metric_refused m s h = ground arith

  update_batch-head_refused :
      (m : Metrics F) (ms : List (Metrics F)) (s : MemStorage F)
      → (update_metric m s).0 ≢ none
      → update_batch (m ∷ ms) s ≡ update_metric m s
  unfolding update_batch
  update_batch-head_refused m ms s h = ground arith

  -- A batch stops at the first metric that lacks its value or has another type: it returns an error,
  -- the metrics before that one stay applied, and those behind it are ignored.
  pub update_batch_stops :
      (ms rest : List (Metrics F)) (us : List (Update F)) (m : Metrics F) (s : MemStorage F)
      → Asks ms us
      → update_of m ≡ none
      → ((update_batch (ms ++ m ∷ rest) s).0 ≢ none)
        × ((update_batch (ms ++ m ∷ rest) s).1 ≡ (update_batch ms s).1)
  unfolding update_batch
  update_batch_stops _ rest _ m s nothing h =
      let (refused, kept) = update_metric_refused m s h in
      rw (update_batch-head_refused m rest s refused) (refused, kept)
  update_batch_stops _ rest _ m s (more {m = n} {u} {ms} {us} e a) h =
      let ok = update_metric_accepted u n s e in
      rw (update_batch-cons n (ms ++ m ∷ rest) s ok, update_batch-cons n ms s ok)
        (update_batch_stops ms rest us m _ a h)

  Asks-of_accepted :
      (ms : List (Metrics F)) (s : MemStorage F)
      → (update_batch ms s).0 ≡ none
      → (us : List (Update F)) × Asks ms us
  unfolding update_batch
  Asks-of_accepted [] s h = ([], nothing)
  Asks-of_accepted (m ∷ ms) s h = elim (Option-cases (update_of m)) [
    | inl e ↦
        let refused = (update_metric_refused m s e).0 in
        absurd (refused (rw (update_batch-head_refused m ms s refused) at h))
    | inr (u, e) ↦
        let step = update_batch-cons m ms s (update_metric_accepted u m s e) in
        let (us, a) = Asks-of_accepted ms (update_metric m s).1 (rw step at h) in (u ∷ us, more e a)
  ]

  -- A batch is accepted exactly if every metric is a gauge with its value or a counter with its
  -- delta.
  pub update_batch-accepted_iff :
      (ms : List (Metrics F)) (s : MemStorage F)
      → ((update_batch ms s).0 ≡ none) ↔ ((us : List (Update F)) × Asks ms us)
  update_batch-accepted_iff ms s = (Asks-of_accepted ms s, λ a. update_batch-accepted ms a.0 s a.1)

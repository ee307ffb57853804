-- ===== src/Storage/Db/Listing.antt =====
-- database.go, `GetAllGauges` and `GetAllCounters`: what their maps hold, where the SELECT was answered
-- with all of its rows.
pub mod Rows
use go_metrics.Common.{String, ◌≡◌, ap, ◌∙◌, inl, inr, Option, none, some, List, All, Option-cases}
use go_metrics.GoMap.{index}
use go_metrics.Models.{Metrics}
use go_metrics.Storage.{gauge, counter, Result, err, Error, gauge_not_found, counter_not_found}
use go_metrics.Storage.Mem.{found}
use go_metrics.Storage.Updates.{Update, Asks, gauge_after_all, counter_after_all}
use go_metrics.Retry.{success}
use go_metrics.Retry.Rule.{Ends-success}
use go_metrics.Storage.Db.{Answer, answer, Pg, update_batch}
use go_metrics.Storage.Db.Table.{Row, Table}
use go_metrics.Storage.Db.Reads.{get_all_gauges, get_all_counters}
use go_metrics.Storage.Db.Specification.{
  IsPostgres, FailsCleanly, IsValid, gauge_in, counter_in, gauge_cell, counter_cell,
}
use go_metrics.Storage.Db.Readings.{InRange}
use go_metrics.Storage.Db.Refinement.{update_batch-ReadsAll}
use go_metrics.Storage.Db.Listing.Rows.{IsListing, found-assign_rows}

module _ {F : Type 0} where
  gauge_cell_misses :
      (n : String) (o : Option (Row F)) (e : Error) → gauge_cell n o ≡ err e → e ≡ gauge_not_found n
  gauge_cell_misses n none e miss = cc miss
  gauge_cell_misses n (some r) e miss = elim (Option-cases r.value) [
    | inl null ↦ let f = rw null at miss in cc f
    | inr (v, there) ↦ let f = rw there at miss in cc f
  ]

  counter_cell_misses :
      (n : String) (o : Option (Row F)) (e : Error)
      → counter_cell n o ≡ err e
      → e ≡ counter_not_found n
  counter_cell_misses n none e miss = cc miss
  counter_cell_misses n (some r) e miss = elim (Option-cases r.delta) [
    | inl null ↦ let f = rw null at miss in cc f
    | inr (d, there) ↦ let f = rw there at miss in cc f
  ]

module _ {F W : Type 0} (table : W → Table F) where
  -- A SELECT that is answered with all of its rows, and changes nothing.
  pub record IsListed {V : Type 0} (query : W → Answer (List (Option (String × V))) × W)
      (reading : String → Table F → Result V) (w : W) : Type 0 where
    pub rows : List (Option (String × V))
    pub answered : (query w).0 ≡ answer rows
    pub listing : IsListing (λ n. reading n (table w)) rows
    pub kept : table (query w).1 ≡ table w

module _ {F W : Type 0} (pg : Pg F W) (table pending : W → Table F) where
  get_all_gauges-reads :
      (n : String) (w : W)
      → IsListed table pg.select_gauges gauge_in w
      → (found (gauge_not_found n) (index n (get_all_gauges pg w).0) ≡ gauge_in n (table w))
        × (table (get_all_gauges pg w).1 ≡ table w)
  unfolding get_all_gauges
  get_all_gauges-reads n w l =
      rw (get_all_gauges, l.answered)
        (
          found-assign_rows (λ k. gauge_in k (table w)) gauge_not_found l.rows n l.listing
              (λ e. gauge_cell_misses n (table w n gauge) e),
          l.kept,
        )

  get_all_counters-reads :
      (n : String) (w : W)
      → IsListed table pg.select_counters counter_in w
      → found (counter_not_found n) (index n (get_all_counters pg w).0) ≡ counter_in n (table w)
  unfolding get_all_counters
  get_all_counters-reads n w l =
      rw (get_all_counters, l.answered)
        (found-assign_rows (λ k. counter_in k (table w)) counter_not_found l.rows n l.listing
          (λ e. counter_cell_misses n (table w n counter) e))

  -- After an UpdateBatch that succeeds, GetAllGauges and then GetAllCounters return maps in which every
  -- name has the value that the updates of the batch, one by one, make of what was in the table, or
  -- no entry where there is none. Their SELECTs are answered with all rows of the table, the batch has
  -- gauges and counters that all have their values, counters are int64 values, and no commit that
  -- returns an error has been carried out.
  pub get_all_counters-update_batch :
      (ms : List (Metrics F)) (us : List (Update F)) (n : String) (w : W)
      → IsPostgres pg table pending
      → FailsCleanly pg table
      → Asks ms us
      → All InRange us
      → IsValid (table w)
      → (update_batch pg ms w).0 ≡ success
      → IsListed table pg.select_gauges gauge_in (update_batch pg ms w).1
      → IsListed table pg.select_counters counter_in (get_all_gauges pg (update_batch pg ms w).1).1
      → (found (gauge_not_found n) (index n (get_all_gauges pg (update_batch pg ms w).1).0)
          ≡ gauge_after_all n us (gauge_in n (table w)))
        × (found
              (counter_not_found n)
              (index n (get_all_counters pg (get_all_gauges pg (update_batch pg ms w).1).1).0)
            ≡ counter_after_all n us (counter_in n (table w)))
  get_all_counters-update_batch ms us n w laws clean asks ranges valid stored gauges counters =
      let batch = update_batch-ReadsAll pg table pending laws ms us w clean asks ranges valid in
      let after = Ends-success _ _ (update_batch pg ms w) batch stored in
      let (shown, kept) = get_all_gauges-reads n (update_batch pg ms w).1 gauges in
      (
        shown ∙ after.gauges n,
        get_all_counters-reads n _ counters ∙ ap (counter_in n) kept ∙ after.counters n,
      )

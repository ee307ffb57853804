-- ===== src/Storage/Db/Batch.antt =====
-- database.go, `UpdateBatch`: what it leaves in the table, and what is then read there.
pub mod Transaction
use go_metrics.Common.{ℕ, ◌≡◌, refl, List, [], ◌∷◌, arith}
use go_metrics.Models.{Metrics}
use go_metrics.Retry.{default_retry_config, success}
use go_metrics.Storage.Db.{Pg, attempt, update_batch}
use go_metrics.Storage.Db.Table.{Table}
use go_metrics.Storage.Db.Specification.{
  IsPostgres, FailsCleanly, nothing, Writes, never, once_more,
}
use go_metrics.Storage.Db.Delivery.{AtLeastOnce, Once, retry-AtLeastOnce, retry-Once}
use go_metrics.Storage.Db.Batch.Transaction.{attempt-Performs, attempt_clean}

module _ {F W : Type 0} (pg : Pg F W) (table pending : W → Table F)
    (laws : IsPostgres pg table pending) where
  -- `UpdateBatch` is atomic where a commit that returns an error has not been carried out: a success
  -- leaves the table with every statement of the batch carried out once and in the batch's order, and
  -- an error leaves it as it was, whatever attempts were made and failed.
  pub update_batch-Once :
      (ms : List (Metrics F)) (w : W)
      → FailsCleanly pg table
      → Once table (Writes ms) (table w) (update_batch pg ms w)
  unfolding update_batch
  update_batch-Once [] w clean = ([], nothing, refl)
  update_batch-Once (m ∷ ms) w clean =
      retry-Once table (Writes (m ∷ ms)) (pg.within 30 w) default_retry_config (attempt pg (m ∷ ms))
        w (attempt-Performs pg table pending laws (m ∷ ms))
        (λ v x fails. attempt_clean pg table pending laws (m ∷ ms) v x clean fails)
        (λ d v. laws.wait_kept 30 d w v) (omega arith)

  -- Without that, the batch as a whole has been carried out some number of times, and at least once in
  -- a success: never a part of it.
  pub update_batch-AtLeastOnce :
      (ms : List (Metrics F)) (w : W)
      → AtLeastOnce table (Writes ms) (table w) (update_batch pg ms w)
  unfolding update_batch
  update_batch-AtLeastOnce [] w = (0, once_more never ([], nothing, refl))
  update_batch-AtLeastOnce (m ∷ ms) w =
      retry-AtLeastOnce table (Writes (m ∷ ms)) (pg.within 30 w) default_retry_config
        (attempt pg (m ∷ ms)) w (attempt-Performs pg table pending laws (m ∷ ms))
        (λ d v. laws.wait_kept 30 d w v) (omega arith)

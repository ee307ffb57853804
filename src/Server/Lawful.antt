-- ===== src/Server/Lawful.antt =====
-- The storage that the server has chosen keeps the laws that both implementations keep.
use go_metrics.Common.{◌⊎◌, inl, inr}
use go_metrics.Storage.{Storage}
use go_metrics.Storage.Updates.{IsLawful}
use go_metrics.Server.{either_storage}

on_both :
    {A B : Type 0} (P : A ⊎ B → Type 0)
    → ((a : A) → P (inl a))
    → ((b : B) → P (inr b))
    → (s : A ⊎ B) → P s
on_both P f g (inl a) = f a
on_both P f g (inr b) = g b

pub either_storage-IsLawful :
    {F D M : Type 0} (db : Storage F D) (mem : Storage F M)
    → IsLawful db
    → IsLawful mem
    → IsLawful (either_storage db mem)
unfolding either_storage
either_storage-IsLawful db mem p q = record {
  gauge_set = λ k n v. on_both _ (p.gauge_set k n v) (q.gauge_set k n v);
  gauge_kept = λ k n d. on_both _ (p.gauge_kept k n d) (q.gauge_kept k n d);
  counter_kept = λ k n v. on_both _ (p.counter_kept k n v) (q.counter_kept k n v);
  counter_added = λ k n d. on_both _ (p.counter_added k n d) (q.counter_added k n d);
  batch_accepted = λ ms us. on_both _ (p.batch_accepted ms us) (q.batch_accepted ms us);
  batch_gauges = λ ms us. on_both _ (p.batch_gauges ms us) (q.batch_gauges ms us);
  batch_counters = λ ms us. on_both _ (p.batch_counters ms us) (q.batch_counters ms us);
}

-- ===== src/Server/InMemory.antt =====
-- The storage of a server that has chosen the one in memory.
use go_metrics.Common.{ℕ, String, ◌≡◌, refl, List, ◌⊎◌, inl, inr}
use go_metrics.Models.{Metrics}
use go_metrics.Storage.{Storage}
use go_metrics.Storage.Mem.{MemStorage, Runtime, mem_storage}
use go_metrics.Storage.Mem.Persistence.{
  IsValid, SameMetrics, update_gauge-IsValid, update_counter-IsValid, update_batch-IsValid,
}
use go_metrics.Router.State.{Keeps}
use go_metrics.Server.{either_storage}

-- The storage in memory, with valid maps.
abbrev pub InMemory : {F D : Type 0} → D ⊎ MemStorage F → Type 0
InMemory (inl d) = ⊥
InMemory (inr s) = IsValid s

module _ {F D : Type 0} (db : Storage F D) (rt : Runtime F) where
  abbrev either : Storage F (D ⊎ MemStorage F)
  either = either_storage db (mem_storage rt)

  gauge-InMemory :
      (k : String) (v : F) (s : D ⊎ MemStorage F)
      → InMemory s
      → InMemory (either.update_gauge k v s)
  unfolding either_storage
  gauge-InMemory k v (inr s) h = update_gauge-IsValid k v s h
  gauge-InMemory k v (inl d) h = h

  counter-InMemory :
      (k : String) (n : ℕ) (s : D ⊎ MemStorage F)
      → InMemory s
      → InMemory (either.update_counter k n s)
  unfolding either_storage
  counter-InMemory k n (inr s) h = update_counter-IsValid k n s h
  counter-InMemory k n (inl d) h = elim h [ ]

  batch-InMemory :
      (ms : List (Metrics F)) (s : D ⊎ MemStorage F)
      → InMemory s
      → InMemory (either.update_batch ms s).1
  unfolding either_storage
  batch-InMemory ms (inr s) h = update_batch-IsValid ms s h
  batch-InMemory ms (inl d) h = elim h [ ]

  -- What the server writes keeps the storage in memory, and valid.
  pub either_storage-Keeps : Keeps either InMemory
  either_storage-Keeps = record {
    gauge = gauge-InMemory;
    counter = counter-InMemory;
    batch = batch-InMemory;
  }

-- Two states that are both in memory, with the same metrics.
abbrev pub SameInMemory : {F D : Type 0} → D ⊎ MemStorage F → D ⊎ MemStorage F → Type 0
SameInMemory (inr s) (inr t) = SameMetrics s t
SameInMemory _ _ = ⊥

pub in_memory :
    {F D : Type 0} (s : D ⊎ MemStorage F)
    → InMemory s
    → (t : MemStorage F) × (s ≡ inr t) × IsValid t
in_memory (inr t) h = (t, refl, h)
in_memory (inl d) h = elim h [ ]

-- ===== src/Storage/Db/Specification.antt =====
-- What the storage in PostgreSQL relies on, and what a client reads in the table.
use go_metrics.Common.{ℕ, suc, ◌^◌, ◌<◌, String, ◌≡◌, ◌⊎◌, Option, none, some, List, [], ◌∷◌}
use go_metrics.Models.{Metrics}
use go_metrics.Storage.{gauge, counter, Result, ok, err, gauge_not_found, counter_not_found}
use go_metrics.Retry.{GoError}
use go_metrics.Storage.Db.{Pg, answer}
use go_metrics.Storage.Db.Table.{
  effect_all, Row, Table, Statement, upsert_gauge, upsert_counter, effect,
}

module _ {F : Type 0} where
  abbrev pub gauge_cell : String → Option (Row F) → Result F
  gauge_cell n none = err (gauge_not_found n)
  gauge_cell n (some r) = elim r.value [ none ↦ err (gauge_not_found n) | some v ↦ ok v ]

  abbrev pub counter_cell : String → Option (Row F) → Result ℕ
  counter_cell n none = err (counter_not_found n)
  counter_cell n (some r) = elim r.delta [ none ↦ err (counter_not_found n) | some d ↦ ok d ]

  -- What the two SELECTs find of a name.
  abbrev pub gauge_in : String → Table F → Result F
  gauge_in n t = gauge_cell n (t n gauge)

  abbrev pub counter_in : String → Table F → Result ℕ
  counter_in n t = counter_cell n (t n counter)

-- `table w` is what is committed, and `pending w` what the open transaction sees. The program is the
-- only writer. An Exec that returns an error may have been carried out, when its answer was lost.
pub record IsPostgres {F W : Type 0} (pg : Pg F W) (table pending : W → Table F) : Type 0 where
  pub exec_done :
      (s : Statement F) (w : W)
      → (pg.exec s w).0 ≡ none
      → effect s (table w) ≡ some (table (pg.exec s w).1)
  pub exec_failed :
      (s : Statement F) (w : W) (e : GoError)
      → (pg.exec s w).0 ≡ some e
      → (table (pg.exec s w).1 ≡ table w) ⊎ (effect s (table w) ≡ some (table (pg.exec s w).1))
  pub begin_kept : (w : W) → table (pg.begin w).1 ≡ table w
  pub begin_done : (w : W) → (pg.begin w).0 ≡ none → pending (pg.begin w).1 ≡ table w
  pub tx_exec_kept : (s : Statement F) (w : W) → table (pg.tx_exec s w).1 ≡ table w
  pub tx_exec_done :
      (s : Statement F) (w : W)
      → (pg.tx_exec s w).0 ≡ none
      → effect s (pending w) ≡ some (pending (pg.tx_exec s w).1)
  pub commit_done : (w : W) → (pg.commit w).0 ≡ none → table (pg.commit w).1 ≡ pending w
  pub commit_failed :
      (w : W) (e : GoError)
      → (pg.commit w).0 ≡ some e
      → (table (pg.commit w).1 ≡ table w) ⊎ (table (pg.commit w).1 ≡ pending w)
  pub rollback_kept : (w : W) → table (pg.rollback w) ≡ table w
  pub wait_kept : (n d : ℕ) (v w : W) → table ((pg.within n v).wait d w).1 ≡ table w
  pub select_gauge_kept : (n : String) (w : W) → table (pg.select_gauge n w).1 ≡ table w
  pub select_gauge_done :
      (n : String) (w : W) (v : F)
      → (pg.select_gauge n w).0 ≡ answer v
      → gauge_in n (table w) ≡ ok v
  pub select_counter_kept : (n : String) (w : W) → table (pg.select_counter n w).1 ≡ table w
  pub select_counter_done :
      (n : String) (w : W) (d : ℕ)
      → (pg.select_counter n w).0 ≡ answer d
      → counter_in n (table w) ≡ ok d

-- A commit that returns an error has not been carried out.
abbrev pub FailsCleanly : {F W : Type 0} → Pg F W → (W → Table F) → Type 0
FailsCleanly {W} pg table =
    (w : W) (e : GoError) → (pg.commit w).0 ≡ some e → table (pg.commit w).1 ≡ table w

module _ {F : Type 0} where
  -- `Wants ms ss`: every metric of `ms` is a gauge or a counter, and `ss` are the statements of those
  -- that have their value.
  pub data Wants : List (Metrics F) → List (Statement F) → Type 0 where
    nothing : Wants [] []
    gauge_set :
        {m : Metrics F} {ms : List (Metrics F)} {ss : List (Statement F)} {v : F}
        → m.mtype ≡ gauge
        → m.value ≡ some v
        → Wants ms ss
        → Wants (m ∷ ms) (upsert_gauge m.id v ∷ ss)
    counter_added :
        {m : Metrics F} {ms : List (Metrics F)} {ss : List (Statement F)} {d : ℕ}
        → m.mtype ≡ counter
        → m.delta ≡ some d
        → Wants ms ss
        → Wants (m ∷ ms) (upsert_counter m.id d ∷ ss)
    no_value :
        {m : Metrics F} {ms : List (Metrics F)} {ss : List (Statement F)}
        → m.mtype ≡ gauge
        → m.value ≡ none
        → Wants ms ss
        → Wants (m ∷ ms) ss
    no_delta :
        {m : Metrics F} {ms : List (Metrics F)} {ss : List (Statement F)}
        → m.mtype ≡ counter
        → m.delta ≡ none
        → Wants ms ss
        → Wants (m ∷ ms) ss

  -- What a batch makes of the table: all of its statements, in its order.
  abbrev pub Writes : List (Metrics F) → Table F → Table F → Type 0
  Writes ms t u = (ss : List (Statement F)) × Wants ms ss × (effect_all ss t ≡ some u)

  -- What a statement makes of it.
  abbrev pub Does : Statement F → Table F → Table F → Type 0
  Does s t u = effect s t ≡ some u

  -- The row of a counter has its delta, an int64.
  abbrev pub IsCounter : Row F → Type 0
  IsCounter r = (d : ℕ) × (r.delta ≡ some d) × (d < 2 ^ 64)

  abbrev pub IsValid : Table F → Type 0
  IsValid t = (n : String) (r : Row F) → t n counter ≡ some r → IsCounter r

-- `k` steps of `R` lead from one to the other.
pub data Times {A : Type 0} (R : A → A → Type 0) : ℕ → A → A → Type 0 where
  never : {a : A} → Times R 0 a a
  once_more : {k : ℕ} {a b c : A} → Times R k a b → R b c → Times R (suc k) a c

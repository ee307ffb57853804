-- ===== src/Storage/Updates.antt =====
-- What a metric asks a storage to do, and what a client then reads: the specification that the
-- implementations of `Storage` are held to.
pub mod Laws
use mathlib.Core.Option
use go_metrics.Common.{
  ℕ, String, ◌≡◌, Option, none, some, List, [], ◌∷◌, add64, ◌==◌, if◌then◌else◌,
}
use go_metrics.Models.{Metrics}
use go_metrics.Storage.{gauge, counter, Result, ok, err, Storage}

pub data Update (F : Type 0) : Type 0 where
  set_gauge : String → F → Update F
  add_counter : String → ℕ → Update F

-- A counter that is not there counts from zero.
abbrev pub count_of : Result ℕ → ℕ
count_of (ok c) = c
count_of (err e) = 0

module _ {F : Type 0} where
  -- The update of a metric that has its value; `none` for one that an `UpdateBatch` refuses.
  unfoldable pub update_of : Metrics F → Option (Update F)
  update_of m =
      if m.mtype == gauge
      then Option.map (set_gauge m.id) m.value
      else if m.mtype == counter
      then Option.map (add_counter m.id) m.delta
      else none

  -- What GetGauge of `n` returns after an update, from what it returned before.
  abbrev pub gauge_after : String → Update F → Result F → Result F
  gauge_after n (set_gauge k v) r = if k == n then ok v else r
  gauge_after n (add_counter k d) r = r

  abbrev pub counter_after : String → Update F → Result ℕ → Result ℕ
  counter_after n (set_gauge k v) r = r
  counter_after n (add_counter k d) r = if k == n then ok (add64 (count_of r) d) else r

  abbrev pub gauge_after_all : String → List (Update F) → Result F → Result F
  gauge_after_all n [] r = r
  gauge_after_all n (u ∷ us) r = gauge_after_all n us (gauge_after n u r)

  abbrev pub counter_after_all : String → List (Update F) → Result ℕ → Result ℕ
  counter_after_all n [] r = r
  counter_after_all n (u ∷ us) r = counter_after_all n us (counter_after n u r)

  -- `us` are the updates of the metrics `ms`, each of which has one.
  pub data Asks : List (Metrics F) → List (Update F) → Type 0 where
    nothing : Asks [] []
    more :
        {m : Metrics F} {u : Update F} {ms : List (Metrics F)} {us : List (Update F)}
        → update_of m ≡ some u
        → Asks ms us
        → Asks (m ∷ ms) (u ∷ us)

-- The laws of a storage that works: each method has the effect that its clients count on.
pub record IsLawful {F S : Type 0} (st : Storage F S) : Type 0 where
  pub gauge_set :
      (k n : String) (v : F) (s : S)
      → st.get_gauge n (st.update_gauge k v s) ≡ gauge_after n (set_gauge k v) (st.get_gauge n s)
  pub gauge_kept :
      (k n : String) (d : ℕ) (s : S) → st.get_gauge n (st.update_counter k d s) ≡ st.get_gauge n s
  pub counter_kept :
      (k n : String) (v : F) (s : S) → st.get_counter n (st.update_gauge k v s) ≡ st.get_counter n s
  pub counter_added :
      (k n : String) (d : ℕ) (s : S)
      → st.get_counter n (st.update_counter k d s)
        ≡ counter_after {F = F} n (add_counter k d) (st.get_counter n s)
  pub batch_accepted :
      (ms : List (Metrics F)) (us : List (Update F)) (s : S)
      → Asks ms us
      → (st.update_batch ms s).0 ≡ none
  pub batch_gauges :
      (ms : List (Metrics F)) (us : List (Update F)) (s : S) (n : String)
      → Asks ms us
      → st.get_gauge n (st.update_batch ms s).1 ≡ gauge_after_all n us (st.get_gauge n s)
  pub batch_counters :
      (ms : List (Metrics F)) (us : List (Update F)) (s : S) (n : String)
      → Asks ms us
      → st.get_counter n (st.update_batch ms s).1 ≡ counter_after_all n us (st.get_counter n s)

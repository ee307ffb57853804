-- ===== src/Tests/Databases.antt =====
-- The storage in PostgreSQL, on a server that loses its first answer and on one that loses none.
use mathlib.Core.List.{Memᴰ}
use go_metrics.Common.{
  ℕ, String, ◌≡◌, refl, ◌⊎◌, inl, inr, none, some, List, [], ◌∷◌, arith, Bool-cases, eq_iff, ◌==◌,
}
use go_metrics.GoMap.{index}
use go_metrics.Retry.{success, default_retry_config}
use go_metrics.Retry.Rule.{Ends, Ends-success}
use go_metrics.Retry.Rounds.{FailedRound}
use go_metrics.Storage.Updates.{
  Update, set_gauge, add_counter, gauge_after_all, counter_after_all, update_of, Asks, nothing,
  more,
}
use go_metrics.Storage.Db.{update_gauge, update_counter, update_batch}
use go_metrics.Storage.Db.Table.{
  Statement, upsert_gauge, upsert_counter, effect, fits_name, add_bigint,
}
use go_metrics.Storage.{ok, gauge_not_found, counter_not_found}
use go_metrics.Storage.Db.Specification.{Does, Writes, gauge_in, counter_in}
use go_metrics.Storage.Db.Delivery.{Once}
use go_metrics.Storage.Db.Batch.{update_batch-Once}
use go_metrics.Storage.Db.Refinement.{ReadsAll, update_batch-ReadsAll}
use go_metrics.Retry.{retry, retry_loop}
use go_metrics.Storage.Db.{attempt, tx_loop, tx_metric}
use go_metrics.Storage.Db.Reads.{get_counter, get_all_gauges, get_all_counters}
use go_metrics.Storage.Db.Listing.{IsListed, get_all_counters-update_batch}
use go_metrics.Storage.Mem.{found}
use go_metrics.Storage.Db.ReadBack.{get_counter-update_batch}
use go_metrics.Storage.Db.Single.{update_gauge_settles, update_counter_doubles}
use go_metrics.Common.{add64}
use go_metrics.Retry.Text.{codes}
use go_metrics.Tests.Setup.{batch}
use go_metrics.Tests.Postgres.{
  Server, timeout, patient, server, committed, uncommitted, no_rows, fresh, reliable,
  server-IsPostgres, server-FailsCleanly, no_rows-IsValid,
}

update_batch-Once_example : Once committed (Writes batch) no_rows (update_batch server batch fresh)
update_batch-Once_example =
    update_batch-Once server committed uncommitted server-IsPostgres batch fresh server-FailsCleanly

abbrev updates : List (Update ℕ)
updates = add_counter "polls" 2 ∷ set_gauge "alloc" 7 ∷ add_counter "polls" 3 ∷ []

batch-Asks : Asks batch updates
unfolding update_of
batch-Asks = more refl (more refl (more refl nothing))

update_batch-ReadsAll_example :
    Ends
      (λ v. v.table ≡ no_rows)
      (λ v. ReadsAll updates no_rows v.table)
      (update_batch server batch fresh)
update_batch-ReadsAll_example =
    update_batch-ReadsAll server committed uncommitted server-IsPostgres batch updates fresh
      server-FailsCleanly batch-Asks (omega arith, (tt, (omega arith, tt))) no_rows-IsValid

update_gauge_settles_example :
    ((update_gauge server "alloc" 7 fresh).1.table ≡ no_rows)
    ⊎ Does (upsert_gauge "alloc" 7) no_rows (update_gauge server "alloc" 7 fresh).1.table
update_gauge_settles_example =
    update_gauge_settles server committed uncommitted server-IsPostgres "alloc" 7 fresh

abbrev polls : Statement ℕ
polls = upsert_counter "polls" 5

-- The server behind the first Exec.
abbrev after_first : Server
after_first = (server.exec polls fresh).1

first_round : FailedRound patient default_retry_config (server.exec polls) 0 fresh after_first
unfolding effect fits_name codes
first_round = record {
  error = timeout;
  delay = 1_000_000_000;
  live = refl;
  fails = refl;
  retriable = refl;
  not_last = λ e. omega (arith, e);
  has_delay = refl;
  waited = refl;
  after = refl;
}

first_effect : Does polls no_rows after_first.table
unfolding effect fits_name codes
first_effect = refl

second_call : (server.exec polls after_first).0 ≡ none
unfolding effect fits_name add_bigint codes add64
second_call = refl

update_counter_doubles_example :
    ((update_counter server "polls" 5 fresh).0 ≡ success)
    × (counter_in "polls" (update_counter server "polls" 5 fresh).1.table
        ≡ counter_after_all {F = ℕ} "polls"
            (add_counter "polls" 5 ∷ add_counter "polls" 5 ∷ [])
            (counter_in "polls" no_rows))
update_counter_doubles_example =
    update_counter_doubles server committed uncommitted server-IsPostgres "polls" 5 fresh
      after_first no_rows-IsValid (omega arith) first_round first_effect refl second_call

stored : (update_batch server batch reliable).0 ≡ success
unfolding update_batch retry retry_loop attempt tx_loop tx_metric effect fits_name codes add_bigint
    add64
stored = refl

read_back : (get_counter server "polls" (update_batch server batch reliable).1).0.1 ≡ success
unfolding update_batch retry retry_loop attempt tx_loop tx_metric effect fits_name codes add_bigint
    add64 get_counter
read_back = refl

get_counter-update_batch_example :
    ok (get_counter server "polls" (update_batch server batch reliable).1).0.0
    ≡ counter_after_all "polls" updates (counter_in "polls" no_rows)
get_counter-update_batch_example =
    get_counter-update_batch server committed uncommitted server-IsPostgres batch updates "polls"
      reliable server-FailsCleanly batch-Asks (omega arith, (tt, (omega arith, tt))) no_rows-IsValid
      stored read_back

-- The server behind the batch, and what is read of its table.
abbrev behind : Server
behind = (update_batch server batch reliable).1

read_behind : ReadsAll updates no_rows behind.table
read_behind =
    Ends-success _ _ (update_batch server batch reliable)
      (update_batch-ReadsAll server committed uncommitted server-IsPostgres batch updates reliable
        server-FailsCleanly batch-Asks (omega arith, (tt, (omega arith, tt))) no_rows-IsValid)
      stored

only_alloc : (k : String) (v : ℕ) → gauge_in k behind.table ≡ ok v → ("alloc" ≡ k) × (v ≡ 7)
only_alloc k v e = elim (Bool-cases ("alloc" == k)) [
  | inl same ↦ let f = rw (read_behind.gauges k, same) at e in ((eq_iff "alloc" k).0 same, cc f)
  | inr differ ↦ let f = rw (read_behind.gauges k, differ) at e in cc f
]

only_polls : (k : String) (d : ℕ) → counter_in k behind.table ≡ ok d → ("polls" ≡ k) × (d ≡ 5)
unfolding add64
only_polls k d e = elim (Bool-cases ("polls" == k)) [
  | inl same ↦ let f = rw (read_behind.counters k, same) at e in ((eq_iff "polls" k).0 same, cc f)
  | inr differ ↦ let f = rw (read_behind.counters k, differ) at e in cc f
]

select_gauges-IsListed : IsListed committed server.select_gauges gauge_in behind
unfolding update_batch retry retry_loop attempt tx_loop tx_metric effect fits_name codes add_bigint
    add64
select_gauges-IsListed = record {
  rows = some ("alloc", 7) ∷ [];
  answered = refl;
  listing = record {
    read = (refl, tt);
    whole = λ k v e. let (name, value) = only_alloc k v e in Memᴰ.head (cc (name, value));
  };
  kept = refl;
}

-- Between the two methods.
abbrev between : Server
between = (get_all_gauges server behind).1

select_counters-IsListed : IsListed committed server.select_counters counter_in between
unfolding update_batch retry retry_loop attempt tx_loop tx_metric effect fits_name codes add_bigint
    add64 get_all_gauges
select_counters-IsListed = record {
  rows = some ("polls", 5) ∷ [];
  answered = refl;
  listing = record {
    read = (refl, tt);
    whole = λ k d e. let (name, value) = only_polls k d e in Memᴰ.head (cc (name, value));
  };
  kept = refl;
}

get_all_counters-update_batch_example :
    (found (gauge_not_found "polls") (index "polls" (get_all_gauges server behind).0)
      ≡ gauge_after_all "polls" updates (gauge_in "polls" no_rows))
    × (found (counter_not_found "polls") (index "polls" (get_all_counters server between).0)
        ≡ counter_after_all "polls" updates (counter_in "polls" no_rows))
get_all_counters-update_batch_example =
    get_all_counters-update_batch server committed uncommitted batch updates "polls" reliable
      server-IsPostgres server-FailsCleanly batch-Asks (omega arith, (tt, (omega arith, tt)))
      no_rows-IsValid stored select_gauges-IsListed select_counters-IsListed

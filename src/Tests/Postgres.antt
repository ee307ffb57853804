-- ===== src/Tests/Postgres.antt =====
-- A PostgreSQL that carries out every statement, and loses the first answers.
use go_metrics.Common.{
  ℕ, zero, suc, ◌≡◌, refl, ◌⊎◌, inl, inr, Option, none, some, String, List, [], ◌∷◌, true, false,
}
use go_metrics.Retry.{GoError, Env}
use go_metrics.Storage.Db.{Answer, Pg, answer, error, new_error}
use go_metrics.Storage.Db.Table.{Table, effect}
use go_metrics.Storage.{Result, ok, err}
use go_metrics.Storage.Db.Specification.{gauge_in, IsPostgres, FailsCleanly, IsValid, counter_in}

-- `lost` answers are still to be lost.
pub record Server : Type 0 where
  pub table : Table ℕ
  pub pending : Table ℕ
  pub lost : ℕ

abbrev pub timeout : GoError
timeout = record {
  net_timeout = some true;
  pg_code = none;
  is_closed = false;
  text = "i/o timeout";
}

abbrev refused : GoError
refused = new_error "value out of range"

abbrev pub perform : Server → ℕ → Option (Table ℕ) → Option GoError × Server
perform w n none = (some refused, w)
perform w zero (some t) = (none, record w { table = t })
perform w (suc n) (some t) = (some timeout, record w { table = t; lost = n })

abbrev pub within_tx : Server → Option (Table ℕ) → Option GoError × Server
within_tx w none = (some refused, w)
within_tx w (some t) = (none, record w { pending = t })

-- A commit whose answer is lost has not been carried out.
abbrev pub end : ℕ → Server → Option GoError × Server
end zero w = (none, record { table = w.pending; pending = w.pending; lost = 0 })
end (suc n) w = (some timeout, record w { lost = n })

abbrev pub patient : Env Server
patient = record {
  ctx_err = λ w. none;
  wait = λ d w. (none, w);
  retriable = λ (e : GoError). elim e.net_timeout [ none ↦ false | some t ↦ t ];
}

abbrev answered : {A : Type 0} → Result A → Answer A
answered (ok a) = answer a
answered (err e) = error (new_error "no rows in result set")

abbrev row_of : {A : Type 0} → String → Result A → List (Option (String × A))
row_of n (ok a) = some (n, a) ∷ []
row_of n (err e) = []

-- The tables have at most the gauge "alloc" and the counter "polls".
abbrev pub server : Pg ℕ Server
server = record {
  exec = λ s w. perform w w.lost (effect s w.table);
  begin = λ w. (none, record w { pending = w.table });
  tx_exec = λ s w. within_tx w (effect s w.pending);
  commit = λ w. end w.lost w;
  rollback = λ w. record w { pending = w.table };
  select_gauge = λ n w. (answered (gauge_in n w.table), w);
  select_counter = λ n w. (answered (counter_in n w.table), w);
  select_gauges = λ w. (answer (row_of "alloc" (gauge_in "alloc" w.table)), w);
  select_counters = λ w. (answer (row_of "polls" (counter_in "polls" w.table)), w);
  select_all = λ w. (answer ([], none), w);
  ping = λ n w. (none, w);
  close = λ w. w;
  within = λ n w. patient;
}

perform_done :
    (w : Server) (n : ℕ) (o : Option (Table ℕ))
    → (perform w n o).0 ≡ none
    → o ≡ some (perform w n o).1.table
perform_done w n none e = absurd (cc e)
perform_done w zero (some t) e = refl
perform_done w (suc n) (some t) e = cc e

perform_failed :
    (w : Server) (n : ℕ) (o : Option (Table ℕ))
    → ((perform w n o).1.table ≡ w.table) ⊎ (o ≡ some (perform w n o).1.table)
perform_failed w n none = inl refl
perform_failed w zero (some t) = inr refl
perform_failed w (suc n) (some t) = inr refl

within_tx_done :
    (w : Server) (o : Option (Table ℕ))
    → (within_tx w o).0 ≡ none
    → o ≡ some (within_tx w o).1.pending
within_tx_done w none e = cc e
within_tx_done w (some t) e = refl

within_tx_kept : (w : Server) (o : Option (Table ℕ)) → (within_tx w o).1.table ≡ w.table
within_tx_kept w none = refl
within_tx_kept w (some t) = refl

end_done : (n : ℕ) (w : Server) → (end n w).0 ≡ none → (end n w).1.table ≡ w.pending
end_done zero w e = refl
end_done (suc n) w e = cc e

end_failed : (n : ℕ) (w : Server) (x : GoError) → (end n w).0 ≡ some x → (end n w).1.table ≡ w.table
end_failed zero w x e = cc e
end_failed (suc n) w x e = refl

abbrev pub committed : Server → Table ℕ
committed w = w.table

abbrev pub uncommitted : Server → Table ℕ
uncommitted w = w.pending

answered_ok : {A : Type 0} (r : Result A) (a : A) → answered r ≡ answer a → r ≡ ok a
answered_ok (ok b) a e = cc e
answered_ok (err b) a e = cc e

pub server-IsPostgres : IsPostgres server committed uncommitted
server-IsPostgres = record {
  exec_done = λ s w. perform_done w w.lost (effect s w.table);
  exec_failed = λ s w x e. perform_failed w w.lost (effect s w.table);
  begin_kept = λ w. refl;
  begin_done = λ w e. refl;
  tx_exec_kept = λ s w. within_tx_kept w (effect s w.pending);
  tx_exec_done = λ s w. within_tx_done w (effect s w.pending);
  commit_done = λ w. end_done w.lost w;
  commit_failed = λ w x e. inl (end_failed w.lost w x e);
  rollback_kept = λ w. refl;
  wait_kept = λ n d v w. refl;
  select_gauge_kept = λ n w. refl;
  select_gauge_done = λ n w. answered_ok (gauge_in n w.table);
  select_counter_kept = λ n w. refl;
  select_counter_done = λ n w. answered_ok (counter_in n w.table);
}

pub server-FailsCleanly : FailsCleanly server committed
server-FailsCleanly w x e = end_failed w.lost w x e

abbrev pub no_rows : Table ℕ
no_rows name kind = none

-- The first answer of this server is lost.
abbrev pub fresh : Server
fresh = record { table = no_rows; pending = no_rows; lost = 1 }

pub no_rows-IsValid : IsValid no_rows
no_rows-IsValid n r e = cc e

-- A server that loses no answer.
abbrev pub reliable : Server
reliable = record { table = no_rows; pending = no_rows; lost = 0 }

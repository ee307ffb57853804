-- ===== src/Storage/Db/Migrations.antt =====
-- internal/storage/migrations.go, `NewDatabaseStorage` of database.go, and cmd/migrate/main.go: the
-- connection, and the migrations by goose.
use go_metrics.Common.{◌==◌, if◌then◌else◌, String, Option, none, some}
use go_metrics.Retry.{GoError, wrap}

-- sql.Open, goose.SetDialect, goose.Up and goose.Status of the directory, and the Close of the
-- connection that sql.Open makes; pgxpool.New and its Close.
pub record Opening (W : Type 0) : Type 0 where
  pub sql_open : String → W → Option GoError × W
  pub sql_close : W → W
  pub set_dialect : String → W → Option GoError × W
  pub goose_up : String → W → Option GoError × W
  pub goose_status : String → W → Option GoError × W
  pub new_pool : String → W → Option GoError × W
  pub close_pool : W → W

-- How a command ends: by a return of main, or by log.Fatal.
pub data Ending : Type 0 where
  finished fatal : Ending

abbrev ended : {W : Type 0} → Option GoError × W → Ending × W
ended (none, w) = (finished, w)
ended (some e, w) = (fatal, w)

module _ {W : Type 0} (op : Opening W) where
  -- What `RunMigrations` and `CheckMigrationsStatus` do with an open connection.
  with_dialect : String → (String → W → Option GoError × W) → String → W → Option GoError × W
  with_dialect message action dir w =
      let (d, v) = op.set_dialect "postgres" w in
      elim d [
        | some e ↦ (some (wrap "failed to set dialect: " e), op.sql_close v)
        | none ↦
            let (a, u) = action dir v in
            elim a [
              | some e ↦ (some (wrap message e), op.sql_close u)
              | none ↦ (none, op.sql_close u)
            ]
      ]

  unfoldable pub run_migrations : String → String → W → Option GoError × W
  unfolding with_dialect
  run_migrations dsn dir w =
      let (o, v) = op.sql_open dsn w in
      elim o [
        | some e ↦ (some (wrap "failed to open database for migrations: " e), v)
        | none ↦ with_dialect "failed to run migrations: " op.goose_up dir v
      ]

  unfoldable pub check_migrations_status : String → String → W → Option GoError × W
  unfolding with_dialect
  check_migrations_status dsn dir w =
      let (o, v) = op.sql_open dsn w in
      elim o [
        | some e ↦ (some (wrap "failed to open database for status check: " e), v)
        | none ↦ with_dialect "failed to check migration status: " op.goose_status dir v
      ]

  unfoldable pub new_database_storage : String → W → Option GoError × W
  unfolding run_migrations
  new_database_storage dsn w =
      let (p, v) = op.new_pool dsn w in
      elim p [
        | some e ↦ (some (wrap "failed to open database: " e), v)
        | none ↦
            let (m, u) = run_migrations dsn "migrations" v in
            elim m [
              | some e ↦ (some (wrap "failed to run migrations: " e), op.close_pool u)
              | none ↦ (none, u)
            ]
      ]

  -- main of cmd/migrate, of the flags -dsn, -dir and -command.
  unfoldable pub migrate : String → String → String → W → Ending × W
  unfolding run_migrations check_migrations_status
  migrate dsn dir command w =
      if dsn == ""
      then (fatal, w)
      else if command == "up"
      then ended (run_migrations dsn dir w)
      else if command == "status"
      then ended (check_migrations_status dsn dir w)
      else if command == "down"
      then (finished, w)
      else (fatal, w)

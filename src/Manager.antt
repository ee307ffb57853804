-- ===== src/Manager.antt =====
-- internal/server/storage_manager.go, and of cmd/server/main.go the choice of the storage and the
-- shutdown.
pub mod Laws
use go_metrics.Common.{
  ℕ, String, Bool, true, false, not, Option, none, some, List, [], ◌∷◌, ◌⊎◌, inl, inr, ltb, ◌==◌,
  if◌then◌else◌,
}
use go_metrics.Config.Server.{Config}
use go_metrics.Storage.{Files, Error, Storage}
use go_metrics.Storage.Mem.{MemStorage, Runtime, new_mem_storage, load_from_file}

-- The `Config` of the server package. An interval is a positive int, or 0.
pub record ManagerConfig : Type 0 where
  pub store_interval : ℕ
  pub file_storage_path : String
  pub restore : Bool

-- The storage and the files, with the manager's flag `stopped`, and whether `periodicSave` runs.
pub record Manager (S : Type 0) : Type 0 where
  pub storage : S
  pub files : Files
  pub stopped : Bool
  pub saving : Bool

-- What happens between start and shutdown.
pub data Event (S : Type 0) : Type 0 where
  ticked : Event S
  handled : (S → S) → Event S

module _ {F S : Type 0} (st : Storage F S) (config : ManagerConfig) where
  abbrev pub new_storage_manager : S → Files → Manager S
  new_storage_manager s fs = record { storage = s; files = fs; stopped = false; saving = false }

  -- A load that fails is only logged.
  abbrev restored : Manager S → S
  restored m =
      if config.restore
      then (st.load_from_file config.file_storage_path m.files m.storage).1
      else m.storage

  unfoldable pub start : Manager S → Manager S
  start m =
      if m.stopped
      then m
      else if st.is_database m.storage
      then m
      else record m { storage = restored m; saving = ltb 0 config.store_interval }

  -- One event of the server while it runs: a tick of the ticker of `periodicSave`, or a handler that
  -- changes the storage.
  unfoldable pub tick : Manager S → Manager S
  tick m =
      if m.saving
      then record m { files = (st.save_to_file config.file_storage_path m.storage m.files).1 }
      else m

  unfoldable pub handle : (S → S) → Manager S → Manager S
  handle f m = record m { storage = f m.storage }

  -- Behind `Stop`, `periodicSave` has returned.
  unfoldable pub stop : Manager S → Manager S
  stop m = if m.stopped then m else record m { stopped = true; saving = false }

  -- `close` is Close() of a storage that has it.
  unfoldable pub shutdown : (S → Option Error × S) → Manager S → Option Error × Manager S
  shutdown close m =
      if st.is_database m.storage
      then ((close m.storage).0, record m { storage = (close m.storage).1 })
      else if config.file_storage_path == ""
      then (none, m)
      else (
        (st.save_to_file config.file_storage_path m.storage m.files).0,
        record m { files = (st.save_to_file config.file_storage_path m.storage m.files).1 },
      )

  unfoldable pub run : List (Event S) → Manager S → Manager S
  unfolding tick handle
  run [] m = m
  run (ticked ∷ es) m = run es (tick m)
  run (handled f ∷ es) m = run es (handle f m)

  -- performGracefulShutdown, behind the shutdown of the HTTP server: `Stop`, then `Shutdown`. The
  -- requests between them are those that the HTTP server has not waited for.
  unfoldable pub perform_graceful_shutdown :
      (S → Option Error × S) → List (Event S) → Manager S → Option Error × Manager S
  unfolding run stop shutdown
  perform_graceful_shutdown close late m = shutdown close (run late (stop m))

-- setupStorageManager, the configuration part.
abbrev pub manager_config : Config → ManagerConfig
manager_config cfg = record {
  store_interval = cfg.store_interval;
  file_storage_path = cfg.file_storage_path;
  restore = cfg.restore;
}

module _ {F : Type 0} (rt : Runtime F) where
  -- A load that fails leaves the new storage empty.
  unfoldable pub mem_storage_for : Config → Files → MemStorage F
  mem_storage_for cfg fs =
      if cfg.file_storage_path == ""
      then new_mem_storage
      else if cfg.restore
      then (load_from_file rt cfg.file_storage_path fs new_mem_storage).1
      else new_mem_storage

  abbrev connected : {D : Type 0} → Option D → Option (D ⊎ MemStorage F)
  connected none = none
  connected (some d) = some (inl d)

  -- `connect` is NewDatabaseStorage; `none` ends the program.
  unfoldable pub initialize_storage :
      {D : Type 0} → (String → Option D) → Config → Files → Option (D ⊎ MemStorage F)
  unfolding mem_storage_for
  initialize_storage connect cfg fs =
      if cfg.database_dsn == ""
      then some (inr (mem_storage_for cfg fs))
      else connected (connect cfg.database_dsn)

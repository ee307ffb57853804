-- ===== src/Manager/Laws.antt =====
-- What a shutdown keeps, and what may happen behind it.
use go_metrics.Common.{
  true, false, ◌&&◌, ◌≡◌, ◌≢◌, refl, sym, ap, ◌∙◌, Option, none, List, [], ◌∷◌, arith, eq_iff,
}
use go_metrics.Config.Server.{Config}
use go_metrics.Storage.{Files, Error, Storage}
use go_metrics.Storage.Mem.{
  MemStorage, Runtime, mem_storage, save_to_file, load_from_file, is_database,
}
use go_metrics.Storage.Mem.Persistence.{IsValid, IsCodec, SameMetrics, load_from_file-save_to_file}
use go_metrics.Manager.{
  ManagerConfig, Manager, Event, ticked, handled, new_storage_manager, start, stop, tick, handle,
  run, shutdown, perform_graceful_shutdown, manager_config, mem_storage_for,
}

-- A manager that is stopped does not save.
pub record IsConsistent {S : Type 0} (m : Manager S) : Type 0 where
  pub quiet : (m.stopped && m.saving) ≡ false

module _ {F S : Type 0} (st : Storage F S) (config : ManagerConfig) where
  start-IsConsistent : (m : Manager S) → IsConsistent m → IsConsistent (start st config m)
  unfolding start
  start-IsConsistent m c = ground arith

  tick-IsConsistent : (m : Manager S) → IsConsistent m → IsConsistent (tick st config m)
  unfolding tick
  tick-IsConsistent m c = ground arith

  -- Whatever ticks and requests come after the start of a new manager, it is consistent.
  pub run-IsConsistent :
      (es : List (Event S)) (m : Manager S) → IsConsistent m → IsConsistent (run st config es m)
  unfolding run handle
  run-IsConsistent [] m c = c
  run-IsConsistent (ticked ∷ es) m c =
      run-IsConsistent es (tick st config m) (tick-IsConsistent m c)
  run-IsConsistent (handled f ∷ es) m c =
      run-IsConsistent es (handle st config f m) (record { quiet = c.quiet })

  stop-IsConsistent : (m : Manager S) → IsConsistent m → IsConsistent (stop st config m)
  unfolding stop
  stop-IsConsistent m c = ground arith

  -- What the handlers of the events, one after another, make of a state.
  abbrev pub handled_all : List (Event S) → S → S
  handled_all [] s = s
  handled_all (ticked ∷ es) s = handled_all es s
  handled_all (handled f ∷ es) s = handled_all es (f s)

  -- Ticks do not touch the storage.
  pub storage-run :
      (es : List (Event S)) (m : Manager S)
      → (run st config es m).storage ≡ handled_all es m.storage
  unfolding run handle tick
  storage-run [] m = refl
  storage-run (ticked ∷ es) m =
      storage-run es (tick st config m) ∙ ap (handled_all es) (ground arith)
  storage-run (handled f ∷ es) m = storage-run es (handle st config f m)

  pub storage-stop : (m : Manager S) → (stop st config m).storage ≡ m.storage
  unfolding stop
  storage-stop m = ground arith

  -- What the events and the shutdown leave of the two flags.
  run_flags :
      (es : List (Event S)) (m : Manager S)
      → ((run st config es m).stopped ≡ m.stopped) × ((run st config es m).saving ≡ m.saving)
  unfolding run handle tick
  run_flags [] m = (refl, refl)
  run_flags (ticked ∷ es) m = ground (arith, run_flags es (tick st config m))
  run_flags (handled f ∷ es) m = run_flags es (handle st config f m)

  stop_stops : (m : Manager S) → (stop st config m).stopped ≡ true
  unfolding stop
  stop_stops m = ground arith

  module _ (close : S → Option Error × S) where
    -- A new manager that was started, ran through events, and was shut down.
    abbrev pub ended : List (Event S) → List (Event S) → S → Files → Manager S
    ended es late s fs =
        (perform_graceful_shutdown st config close late
          (run st config es (start st config (new_storage_manager st config s fs)))).1

    shutdown_final :
        (m : Manager S)
        → IsConsistent m
        → m.stopped ≡ true
        → (tick st config (shutdown st config close m).1 ≡ (shutdown st config close m).1)
          × (start st config (shutdown st config close m).1 ≡ (shutdown st config close m).1)
    unfolding shutdown start tick
    shutdown_final m c h = ground (arith, c.quiet)

    -- After a graceful shutdown of a manager that was started and ran through any ticks and requests,
    -- a late tick saves nothing and a late start does nothing, whatever came between `Stop` and
    -- `Shutdown`.
    pub ended_final :
        (es late : List (Event S)) (s : S) (fs : Files)
        → (tick st config (ended es late s fs) ≡ ended es late s fs)
          × (start st config (ended es late s fs) ≡ ended es late s fs)
    unfolding perform_graceful_shutdown
    ended_final es late s fs =
        let m = run st config es (start st config (new_storage_manager st config s fs)) in
        let c : IsConsistent m =
          run-IsConsistent es _
            (start-IsConsistent (new_storage_manager st config s fs) (record { quiet = refl })) in
        shutdown_final (run st config late (stop st config m))
          (run-IsConsistent late _ (stop-IsConsistent m c))
          ((run_flags late (stop st config m)).0 ∙ stop_stops m)

module _ {F : Type 0} (rt : Runtime F) (cfg : Config) where
  -- The storage of a server that starts on these files, once its manager has started too.
  abbrev pub restarted : Files → MemStorage F
  restarted fs =
      (start (mem_storage rt) (manager_config cfg) (
        new_storage_manager (mem_storage rt) (manager_config cfg) (mem_storage_for rt cfg fs)
          fs)).storage

  -- A start with a file and `restore` loads the file, for the second time.
  restarted_lem :
      (fs : Files)
      → cfg.restore ≡ true
      → restarted fs ≡ (load_from_file rt cfg.file_storage_path fs (mem_storage_for rt cfg fs)).1
  unfolding start is_database
  restarted_lem fs r = rw r

  shutdown-saves :
      (close : MemStorage F → Option Error × MemStorage F) (m : Manager (MemStorage F))
      → cfg.file_storage_path ≢ ""
      → (shutdown (mem_storage rt) (manager_config cfg) close m).0
          ≡ (save_to_file rt cfg.file_storage_path m.storage m.files).0
        × ((shutdown (mem_storage rt) (manager_config cfg) close m).1.files
            ≡ (save_to_file rt cfg.file_storage_path m.storage m.files).1)
  unfolding shutdown is_database
  shutdown-saves close m p = ground (arith, p, eq_iff cfg.file_storage_path "")

  -- If the JSON codec reads back what it wrote, the valid metrics in memory when the manager of a
  -- server with a file is shut down without an error are the metrics of the next server that starts
  -- on that file with `restore`, once its manager has started too.
  pub restarted_restores :
      (close : MemStorage F → Option Error × MemStorage F) (m : Manager (MemStorage F))
      → IsValid m.storage
      → IsCodec rt
      → cfg.file_storage_path ≢ ""
      → cfg.restore ≡ true
      → (shutdown (mem_storage rt) (manager_config cfg) close m).0 ≡ none
      → SameMetrics m.storage
          (restarted (shutdown (mem_storage rt) (manager_config cfg) close m).1.files)
  restarted_restores close m v c p r h =
      let (status, files) = shutdown-saves close m p in
      rw (files, restarted_lem _ r)
        (load_from_file-save_to_file rt cfg.file_storage_path m.storage _ m.files v c
          (sym status ∙ h)).1

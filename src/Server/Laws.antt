-- ===== src/Server/Laws.antt =====
-- What a run of the server leaves for the next one.
use go_metrics.Common.{
  ◌≡◌, ◌≢◌, refl, sym, ◌∙◌, true, Option, none, some, List, [], ◌∷◌, inr, arith, ◌++◌, ap, str_ne,
}
use go_metrics.Storage.{Files, Error}
use go_metrics.Storage.Mem.{MemStorage, is_database, save_to_file, new_mem_storage, load_from_file}
use go_metrics.Storage.Mem.Persistence.{
  IsValid, IsCodec, load_from_file-save_to_file, new_mem_storage-IsValid, load_from_file-IsValid,
}
use go_metrics.Router.State.{serve_http-keeps}
use go_metrics.Config.{ok}
use go_metrics.Config.Server.{Config, load}
use go_metrics.Manager.{
  Manager, new_storage_manager, run, shutdown, stop, perform_graceful_shutdown, manager_config,
  mem_storage_for, initialize_storage, start,
}
use go_metrics.Manager.Laws.{handled_all, storage-run, storage-stop}
use go_metrics.Server.InMemory.{InMemory, SameInMemory, in_memory, either_storage-Keeps}
use go_metrics.Server.{
  System, Input, tick, request, signalled, finished, State, storage, close_storage,
  setup_http_server, new_router, events, launch, serve, main,
}

-- A server that keeps its metrics in a file, and restores them from it.
pub record UsesFile (cfg : Config) : Type 0 where
  pub no_dsn : cfg.database_dsn ≡ ""
  pub has_file : cfg.file_storage_path ≢ ""
  pub restores : cfg.restore ≡ true

module _ {F D P : Type 0} (sys : System F D P) (cfg : Config) where
  -- The storage once the handlers of the inputs, one after another, have run on it.
  abbrev pub served : List Input → State sys → State sys
  served inputs =
      handled_all (storage sys) (manager_config cfg) (events sys (new_router sys cfg) inputs)

  served-append :
      (is js : List Input) (s : State sys) → served (is ++ js) s ≡ served js (served is s)
  served-append [] js s = refl
  served-append (tick ∷ is) js s = served-append is js s
  served-append (request method path m ∷ is) js s = served-append is js _

  served-InMemory : (is : List Input) (s : State sys) → InMemory s → InMemory (served is s)
  unfolding new_router storage
  served-InMemory [] s h = h
  served-InMemory (tick ∷ is) s h = served-InMemory is s h
  served-InMemory (request method path m ∷ is) s h =
      served-InMemory is (new_router sys cfg method path m s).1 (
        serve_http-keeps sys.externals (storage sys) cfg.key InMemory
          (either_storage-Keeps sys.database sys.runtime) s h sys.mux sys.codecs method path _ m)

  -- The manager of a server that starts on the storage in memory.
  abbrev launched : Files → Manager (State sys)
  launched fs = start (storage sys) (manager_config cfg) (
      new_storage_manager (storage sys) (manager_config cfg)
        (inr (mem_storage_for sys.runtime cfg fs)) fs)

  launch_in_memory : (fs : Files) → cfg.database_dsn ≡ "" → launch sys cfg fs ≡ some (launched fs)
  unfolding launch initialize_storage
  launch_in_memory fs e = rw (e, launch) refl

  mem_storage_for-IsValid : (fs : Files) → IsValid (mem_storage_for sys.runtime cfg fs)
  unfolding mem_storage_for
  mem_storage_for-IsValid fs = ground (
    arith,
    new_mem_storage-IsValid {F = F},
    load_from_file-IsValid sys.runtime cfg.file_storage_path new_mem_storage fs
        new_mem_storage-IsValid,
  )

  launched_storage :
      (fs : Files)
      → cfg.restore ≡ true
      → (launched fs).storage
        ≡ inr
            (load_from_file sys.runtime cfg.file_storage_path fs
              (mem_storage_for sys.runtime cfg fs)).1
  unfolding start storage is_database
  launched_storage fs e = rw e

  saved_files :
      (close : State sys → Option Error × State sys) (s : MemStorage F) (m : Manager (State sys))
      → cfg.file_storage_path ≢ ""
      → m.storage ≡ inr s
      → (shutdown (storage sys) (manager_config cfg) close m).0
          ≡ (save_to_file sys.runtime cfg.file_storage_path s m.files).0
        × ((shutdown (storage sys) (manager_config cfg) close m).1.files
            ≡ (save_to_file sys.runtime cfg.file_storage_path s m.files).1)
  unfolding shutdown storage is_database
  saved_files close s m p e = rw (e, str_ne p) (refl, refl)

  reread :
      (close : State sys → Option Error × State sys) (s : MemStorage F) (m : Manager (State sys))
      → UsesFile cfg
      → IsCodec sys.runtime
      → m.storage ≡ inr s
      → IsValid s
      → (shutdown (storage sys) (manager_config cfg) close m).0 ≡ none
      → SameInMemory {D = D}
          (inr s)
          (launched (shutdown (storage sys) (manager_config cfg) close m).1.files).storage
  reread close s m u c e v h =
      let (status, files) = saved_files close s m u.has_file e in
      rw (files, launched_storage _ u.restores)
        (load_from_file-save_to_file sys.runtime cfg.file_storage_path s _ m.files v c
          (sym status ∙ h)).1

  -- The events of a run that is shut down, as the storage sees them.
  storage-shut_down :
      (inputs late : List Input) (m : Manager (State sys))
      → (run (storage sys) (manager_config cfg) (events sys (new_router sys cfg) late) (
          stop (storage sys) (manager_config cfg) (
            run
              (storage sys)
              (manager_config cfg)
              (events sys (new_router sys cfg) inputs)
              m))).storage
        ≡ served (inputs ++ late) m.storage
  storage-shut_down inputs late m =
      storage-run (storage sys) (manager_config cfg) (events sys (new_router sys cfg) late) _
      ∙ ap (served late) (
          storage-stop (storage sys) (manager_config cfg) _
          ∙ storage-run (storage sys) (manager_config cfg) (events sys (new_router sys cfg) inputs)
              m)
      ∙ sym (served-append inputs late m.storage)

  -- The manager of a run that is signalled, where `Shutdown` finds it.
  abbrev stopped : List Input → List Input → Manager (State sys) → Manager (State sys)
  stopped inputs late m =
      run (storage sys) (manager_config cfg) (events sys (new_router sys cfg) late) (
        stop (storage sys) (manager_config cfg)
          (run (storage sys) (manager_config cfg) (events sys (new_router sys cfg) inputs) m))

  -- A run of main that ends by a shutdown without an error.
  main_shut_down :
      (inputs late : List Input) (fs : Files) (m : Manager (State sys))
      → cfg.database_dsn ≡ ""
      → load sys.host sys.parse sys.unmarshal ≡ ok cfg
      → main sys inputs (signalled late) fs ≡ finished none m
      → ((shutdown
            (storage sys)
            (manager_config cfg)
            (close_storage sys)
            (stopped inputs late (launched fs))).0
          ≡ none)
        × (m.files
            ≡ (shutdown
                (storage sys)
                (manager_config cfg)
                (close_storage sys)
                (stopped inputs late (launched fs))).1.files)
  unfolding main serve setup_http_server perform_graceful_shutdown
  main_shut_down inputs late fs m d l h = ground (arith, l, launch_in_memory fs d)

  launched-InMemory : (fs : Files) → cfg.restore ≡ true → InMemory (launched fs).storage
  launched-InMemory fs r =
      rw (launched_storage fs r)
        (load_from_file-IsValid sys.runtime cfg.file_storage_path _ fs (mem_storage_for-IsValid fs))

  -- If the configuration that Load returns names a file, sets `restore` and has no DSN, and the JSON
  -- codec reads back what it wrote, then behind a run of main that a signal ends without an error of
  -- `Shutdown`, the next start from the files of that run succeeds, on the metrics that all requests
  -- of the run, one after another, have made of those that it started with: the requests before the
  -- signal and those that ended before the save, whatever ticks came between them.
  pub main_restores :
      (inputs late : List Input) (fs : Files) (before after : Manager (State sys))
      → UsesFile cfg
      → IsCodec sys.runtime
      → load sys.host sys.parse sys.unmarshal ≡ ok cfg
      → launch sys cfg fs ≡ some before
      → main sys inputs (signalled late) fs ≡ finished none after
      → (next : Manager (State sys)) × (launch sys cfg after.files ≡ some next)
        × SameInMemory (served (inputs ++ late) before.storage) next.storage
  main_restores inputs late fs before after u c l b h =
      let (status, files) = main_shut_down inputs late fs after u.no_dsn l h in
      let started : launched fs ≡ before = cc (launch_in_memory fs u.no_dsn, b) in
      let (s, e, valid) =
        in_memory _ (served-InMemory (inputs ++ late) _ (launched-InMemory fs u.restores)) in
      (
        launched after.files,
        launch_in_memory after.files u.no_dsn,
        rw (← started, files, e)
            (reread (close_storage sys) s (stopped inputs late (launched fs)) u c
              (storage-shut_down inputs late (launched fs) ∙ e) valid status),
      )

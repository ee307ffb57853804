-- ===== src/Server.antt =====
-- cmd/server/main.go: the program of the server, from its configuration to its end. internal/server
-- has its parts (Manager, Router), and the storage that it chooses is one of two.
pub mod InMemory
pub mod Lawful
pub mod Laws
pub mod Delivery
use Prim.Native.String
use go_metrics.Common.{
  String, Bool, true, false, Option, none, some, List, [], ◌∷◌, ◌⊎◌, inl, inr, ◌==◌, if◌then◌else◌,
}
use go_metrics.Storage.{Files, Error, Storage}
use go_metrics.Storage.Mem.{MemStorage, Runtime, mem_storage}
use go_metrics.Handlers.{Externals}
use go_metrics.Crypto.{Rsa}
use go_metrics.Crypto.Keys.{KeyCodecs, KeyFiles}
use go_metrics.Middleware.{Message, Codecs, Handler}
use go_metrics.Router.{Mux, private_key, serve_http}
use go_metrics.Config.{Host, Loaded, ok, err, ServerJsonConfig}
use go_metrics.Config.Server.{Config, ServerFlagValues, load}
use go_metrics.Manager.{
  Manager, Event, ticked, handled, new_storage_manager, start, run, perform_graceful_shutdown,
  manager_config, initialize_storage,
}

-- A variable of the build that is not set.
abbrev or_not_available : String → String
or_not_available s = if s == "" then "N/A" else s

-- The lines that are printed first.
unfoldable pub print_build_info : String → String → String → List String
print_build_info version date commit =
    String.◌++◌ "Build version: " (or_not_available version)
    ∷ String.◌++◌ "Build date: " (or_not_available date)
    ∷ String.◌++◌ "Build commit: " (or_not_available commit)
    ∷ []

abbrev map_either : {A B : Type 0} → (A → A) → (B → B) → A ⊎ B → A ⊎ B
map_either f g (inl a) = inl (f a)
map_either f g (inr b) = inr (g b)

abbrev on_either : {A B C : Type 0} → (A → C) → (B → C) → A ⊎ B → C
on_either f g (inl a) = f a
on_either f g (inr b) = g b

abbrev try_either :
    {A B : Type 0}
    → (A → Option Error × A)
    → (B → Option Error × B)
    → A ⊎ B
    → Option Error × (A ⊎ B)
try_either f g (inl a) = ((f a).0, inl (f a).1)
try_either f g (inr b) = ((g b).0, inr (g b).1)

-- A value of the interface `Storage`: the method of the implementation that it holds is called.
unfoldable pub either_storage : {F D M : Type 0} → Storage F D → Storage F M → Storage F (D ⊎ M)
either_storage db mem = record {
  update_gauge = λ k v. map_either (db.update_gauge k v) (mem.update_gauge k v);
  update_counter = λ k d. map_either (db.update_counter k d) (mem.update_counter k d);
  get_gauge = λ k. on_either (db.get_gauge k) (mem.get_gauge k);
  get_counter = λ k. on_either (db.get_counter k) (mem.get_counter k);
  get_all_gauges = on_either db.get_all_gauges mem.get_all_gauges;
  get_all_counters = on_either db.get_all_counters mem.get_all_counters;
  save_to_file = λ p. on_either (db.save_to_file p) (mem.save_to_file p);
  load_from_file = λ p fs. try_either (db.load_from_file p fs) (mem.load_from_file p fs);
  ping = on_either db.ping mem.ping;
  is_database = on_either db.is_database mem.is_database;
  is_available = on_either db.is_available mem.is_available;
  update_batch = λ ms. try_either (db.update_batch ms) (mem.update_batch ms);
}

-- What the program is given: the host with the libraries of its configuration, `connect` for
-- NewDatabaseStorage with the storage in PostgreSQL, its `Close` included, the runtime of the storage
-- in memory, the libraries of the handlers, chi, those of the middleware, the key files, and whether
-- zap can be configured.
pub record System (F D P : Type 0) : Type 0 where
  pub host : Host
  pub parse : ServerFlagValues → List String → Option ServerFlagValues
  pub unmarshal : String → ServerJsonConfig → Option ServerJsonConfig
  pub connect : String → Option D
  pub database : Storage F D
  pub close : D → Option Error × D
  pub runtime : Runtime F
  pub externals : Externals F
  pub mux : Mux
  pub codecs : Codecs
  pub key_codecs : KeyCodecs Rsa P
  pub key_files : KeyFiles
  pub has_logger : Bool

-- What happens to the server while it runs: a tick of the ticker of `periodicSave`, or a request, by
-- its method, its path and the rest of it.
pub data Input : Type 0 where
  tick : Input
  request : String → String → Message → Input

-- How the running ends: ListenAndServe fails, or a signal comes. `late` are the requests that
-- HTTPServer.Shutdown has not waited for, as it waits for 30 seconds, and that end before the
-- metrics are saved.
pub data Cause : Type 0 where
  listen_failed : Cause
  signalled : (late : List Input) → Cause

-- log.Fatal ends the program at once, and leaves the files; a shutdown ends with the error of
-- `Shutdown`, which is only logged, and the manager.
pub data Ended (S : Type 0) : Type 0 where
  fatal : Files → Ended S
  finished : Option Error → Manager S → Ended S

module _ {F D P : Type 0} (sys : System F D P) where
  abbrev pub State : Type 0
  State = D ⊎ MemStorage F

  unfoldable pub storage : Storage F State
  unfolding either_storage
  storage = either_storage sys.database (mem_storage sys.runtime)

  -- NewRouter, with the key that it loads.
  unfoldable pub new_router : Config → String → String → Handler State
  unfolding private_key serve_http storage
  new_router cfg =
      serve_http sys.externals storage cfg.key sys.mux sys.codecs
        (private_key sys.key_codecs cfg.crypto_key sys.key_files)

  -- setupHTTPServer, where WithLogging changes nothing of a response.
  unfoldable pub setup_http_server : Config → Option (String → String → Handler State)
  unfolding new_router
  setup_http_server cfg = if sys.has_logger then some (new_router cfg) else none

  -- An input as the manager sees it.
  abbrev pub event : (String → String → Handler State) → Input → Event State
  event handler tick = ticked
  event handler (request method path m) = handled (λ s. (handler method path m s).1)

  abbrev pub events : (String → String → Handler State) → List Input → List (Event State)
  events handler [] = []
  events handler (i ∷ is) = event handler i ∷ events handler is

  -- The storage behind initializeStorage and setupStorageManager.
  unfoldable pub launch : Config → Files → Option (Manager State)
  unfolding storage initialize_storage start
  launch cfg fs = elim (initialize_storage sys.runtime sys.connect cfg fs) [
    | none ↦ none
    | some s ↦
        some (
          start storage (manager_config cfg)
            (new_storage_manager storage (manager_config cfg) s fs))
  ]

  abbrev close_storage : State → Option Error × State
  close_storage = try_either sys.close (λ m. (none, m))

  -- The deferred Close of main comes behind the shutdown, and not behind log.Fatal.
  abbrev end : Config → (String → String → Handler State) → Cause → Manager State → Ended State
  end cfg handler listen_failed m = fatal m.files
  end cfg handler (signalled late) m =
      let (e, m') =
        perform_graceful_shutdown storage (manager_config cfg) close_storage (events handler late)
          m in
      finished e (record m' { storage = (close_storage m'.storage).1 })

  -- main, from a configuration on.
  unfoldable pub serve : Config → List Input → Cause → Files → Ended State
  unfolding launch setup_http_server storage run perform_graceful_shutdown
  serve cfg inputs cause fs = elim (launch cfg fs) [
    | none ↦ fatal fs
    | some m ↦ elim (setup_http_server cfg) [
      | none ↦ fatal m.files
      | some handler ↦
          end cfg handler cause (run storage (manager_config cfg) (events handler inputs) m)
    ]
  ]

  unfoldable pub main : List Input → Cause → Files → Ended State
  unfolding serve load
  main inputs cause fs = elim (load sys.host sys.parse sys.unmarshal) [
    | err e ↦ fatal fs
    | ok cfg ↦ serve cfg inputs cause fs
  ]

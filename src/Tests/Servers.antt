-- ===== src/Tests/Servers.antt =====
-- A whole server, with the storage in memory and a file, and an agent that has its keys.
use go_metrics.Common.{
  ℕ, String, ◌≡◌, ◌≢◌, refl, ap, true, false, ◌++◌, Option, none, some, List, [], ◌∷◌, inr, arith,
  ◌==◌, eqb, eq_iff, if◌then◌else◌,
}
use go_metrics.GoMap.{index}
use go_metrics.Retry.Text.{codes, contains}
use go_metrics.Storage.{Files}
use go_metrics.Storage.Updates.{set_gauge, add_counter}
use go_metrics.Storage.Mem.{
  MemStorage, Runtime, mem_storage, save_to_file, load_from_file, dump_of, is_database,
  new_mem_storage,
}
use go_metrics.Storage.Mem.Laws.{mem_storage-IsLawful}
use go_metrics.Storage.Mem.Persistence.{IsCodec}
use go_metrics.Http.{set_header, write_header}
use go_metrics.Crypto.{Rsa}
use go_metrics.Crypto.Keys.{
  rsa_key, KeyCodecs, KeyFiles, keygen, generate_key_pair, save_private_key_to_file,
  save_public_key_to_file, write_pem,
}
use go_metrics.Middleware.{Message}
use go_metrics.Config.{Host, ok, load_json_file, parse_args, apply_to_server_config}
use go_metrics.Config.Server
use go_metrics.Config.Server.{Config, ServerFlagValues, load}
use go_metrics.Config.Agent.{AgentConfig}
use go_metrics.Agent.Sender.{new_metrics_sender, batch_message}
use go_metrics.Router.{updates}
use go_metrics.Handlers.Updates.{
  updates_handler, update_all, unique_metrics, group_from, accepted_list,
}
use go_metrics.Handlers.Updates.Laws.{HasEffect}
use go_metrics.Manager.{Manager}
use go_metrics.Server.{
  System, Input, request, signalled, finished, State, storage, new_router, launch, main,
}
use go_metrics.Server.InMemory.{SameInMemory}
use go_metrics.Server.Laws.{UsesFile, served, main_restores}
use go_metrics.Server.Delivery.{FindsUpdates, MakesPairs, Generated, agent_sender, batch_stored}
use go_metrics.Tests.Setup.{batch, libraries, runtime, empty, second_first, storage_runs}
use go_metrics.Tests.Agents.{plain, plain-IsLossless, joined, batch-IsReady}
use go_metrics.Tests.Keys.{toy, toy-IsKeyPair}
use go_metrics.Tests.Routes.{literal}

-- A codec for the dump that the run writes: one gauge and one counter.
abbrev encode_lists : List (String × ℕ) → List (String × ℕ) → Option String
encode_lists ((g, v) ∷ []) ((c, n) ∷ []) =
    if g == "alloc"
    then if eqb v 7
      then if c == "polls" then if eqb n 5 then some "dump" else none else none
      else none
    else none
encode_lists g c = none

abbrev one_dump : Runtime ℕ
one_dump = record {
  gauge_order = second_first;
  counter_order = second_first;
  encode = λ d. encode_lists d.gauges d.counters;
  decode = λ s. some (record { gauges = ("alloc", 7) ∷ []; counters = ("polls", 5) ∷ [] });
}

one_entry_each :
    (g c : List (String × ℕ)) (text : String)
    → encode_lists g c ≡ some text
    → (g ≡ ("alloc", 7) ∷ []) × (c ≡ ("polls", 5) ∷ [])
one_entry_each ((g, v) ∷ []) ((c, n) ∷ []) text h =
    ground (arith, eq_iff g "alloc", eq_iff c "polls")
one_entry_each [] c text h = cc h
one_entry_each (a ∷ b ∷ g) c text h = cc h
one_entry_each (a ∷ []) [] text h = cc h
one_entry_each (a ∷ []) (b ∷ d ∷ c) text h = cc h

one_dump-IsCodec : IsCodec one_dump
unfolding index
one_dump-IsCodec = record {
  round_trip = λ d text p q h.
      let (g, c) = one_entry_each d.gauges d.counters text h in
      (
        record { gauges = ("alloc", 7) ∷ []; counters = ("polls", 5) ∷ [] },
        refl,
        rw g (record { same = λ k. refl; distinct = (refl, tt) }),
        rw c (record { same = λ k. refl; distinct = (refl, tt) }),
      );
}

abbrev pub key_codecs : KeyCodecs Rsa Rsa
key_codecs = record {
  pem_decode = λ text. elim text [
    | [] ↦ none
    | t ∷ bytes ↦ some (if eqb t 1 then "PUBLIC KEY" else "RSA PRIVATE KEY", bytes)
  ];
  pem_encode = λ type bytes. (if type == "PUBLIC KEY" then 1 else 0) ∷ bytes;
  parse_pkix_public_key = λ bytes. rsa_key toy;
  parse_pkcs1_public_key = λ bytes. some toy;
  parse_pkcs8_private_key = λ bytes. rsa_key toy;
  parse_pkcs1_private_key = λ bytes. some toy;
  marshal_pkcs1_private_key = λ k. [];
  marshal_pkix_public_key = λ p. some [];
  public_key = λ k. k;
  generate_key = λ bits. some toy;
}

abbrev no_keys : KeyFiles
no_keys = record {
  contents = λ f. none;
  can_create = λ f. true;
  can_write = λ f. true;
  cut_off = λ f. [];
}

abbrev defaults : Host
defaults = record {
  getenv = λ n. "";
  args = "server" ∷ [];
  read_file = λ f. none;
  parse_duration = λ s. none;
  seconds = λ d. 1;
}

abbrev system : System ℕ (MemStorage ℕ) Rsa
system = record {
  host = defaults;
  parse = λ v args. some v;
  unmarshal = λ s c. none;
  connect = λ dsn. none;
  database = mem_storage runtime;
  close = λ d. (none, d);
  runtime = one_dump;
  externals = libraries;
  mux = literal;
  codecs = plain;
  key_codecs = key_codecs;
  key_files = (keygen key_codecs "private.pem" "public.pem" 2048 no_keys).1;
  has_logger = true;
}

abbrev default_config : Config
default_config = record {
  run_addr = "localhost:8080";
  store_interval = 300;
  file_storage_path = "/tmp/metrics-db.json";
  restore = true;
  database_dsn = "";
  key = "";
  crypto_key = "";
}

default_loaded : load defaults (λ v args. some v) (λ s c. none) ≡ ok default_config
unfolding load Server.parse_server_flags parse_args Server.load_server_json_config load_json_file
    Server.finish_load Server.validate_server_config apply_to_server_config
default_loaded = refl

abbrev posted : Input
posted = request "POST" "/updates/" (record {
  header = λ h. if h == "Content-Type" then "application/json" else "";
  body = some [];
})

abbrev disk : Files
disk = record { contents = λ f. none; can_create = λ f. true }

abbrev before : Manager (State system)
unfolding new_mem_storage
before = record { storage = inr new_mem_storage; files = disk; stopped = false; saving = true }

abbrev after : Manager (State system)
after = record {
  storage = inr (record { gauges = ("alloc", 7) ∷ []; counters = ("polls", 5) ∷ [] });
  files = record {
    contents = λ f. if "/tmp/metrics-db.json" == f then some "dump" else none;
    can_create = λ f. true;
  };
  stopped = true;
  saving = false;
}

launched : launch system default_config disk ≡ some before
unfolding launch load_from_file storage_runs new_mem_storage is_database
launched = refl

run_ended : main system (posted ∷ []) (signalled []) disk ≡ finished none after
unfolding main load_from_file save_to_file dump_of storage_runs new_mem_storage is_database
    Server.parse_server_flags parse_args Server.load_server_json_config load_json_file
    Server.finish_load Server.validate_server_config apply_to_server_config set_header write_header
    updates_handler update_all unique_metrics group_from accepted_list contains codes
run_ended = refl

differ : (s t : String) → (s == t) ≡ false → s ≢ t
differ s t h e = ground (arith, eq_iff s t, h, e)

has_file : UsesFile default_config
has_file = record {
  no_dsn = refl;
  has_file = differ "/tmp/metrics-db.json" "" refl;
  restores = refl;
}

main_restores_example :
    (next : Manager (State system)) × (launch system default_config after.files ≡ some next)
    × SameInMemory (served system default_config ((posted ∷ []) ++ []) before.storage) next.storage
main_restores_example =
    main_restores system default_config (posted ∷ []) [] disk before after has_file one_dump-IsCodec
      default_loaded launched run_ended

key_codecs-MakesPairs : MakesPairs key_codecs
key_codecs-MakesPairs = record {
  reads_back = record {
    pem_private = λ bytes. refl;
    pem_public = λ bytes. refl;
    pkcs1 = λ bits k g. g;
    pkix = λ bits k bytes g m. let same : toy ≡ k = cc g in ap (λ c. rsa_key c) same;
  };
  public = λ k. refl;
  pair = λ bits k g. let same : toy ≡ k = cc g in rw (← same) toy-IsKeyPair;
}

abbrev agent_config : AgentConfig
agent_config = record {
  address = "localhost:8080";
  report_interval = 10;
  poll_interval = 2;
  key = "";
  rate_limit = 1;
  crypto_key = "public.pem";
}

abbrev keyed_config : Config
keyed_config = record default_config { crypto_key = "private.pem" }

generated : Generated key_codecs "private.pem" "public.pem" 2048 no_keys
unfolding keygen generate_key_pair save_private_key_to_file save_public_key_to_file write_pem
generated = record {
  differ = differ "private.pem" "public.pem" refl;
  has_private = differ "private.pem" "" refl;
  has_public = differ "public.pem" "" refl;
  succeeded = refl;
}

literal-FindsUpdates : FindsUpdates literal
literal-FindsUpdates = record {
  found = record {
    found_route = record { method = "POST"; pattern = "/updates/"; endpoint = updates };
    url_param = λ p. "";
  };
  finds = refl;
  is_updates = refl;
}

batch_stored_example :
    (m : Message) × (batch_message joined plain
        (λ ms. some (1 ∷ 2 ∷ []))
        (agent_sender system agent_config)
        batch
      ≡ some ("http://localhost:8080/updates/", m))
    × ((new_router system keyed_config "POST" "/updates/" m (inr empty)).0.status ≡ some 200)
    × HasEffect
        (storage system)
        (add_counter "polls" 2 ∷ set_gauge "alloc" 7 ∷ add_counter "polls" 3 ∷ [])
        (inr empty)
        (new_router system keyed_config "POST" "/updates/" m (inr empty)).1
unfolding new_metrics_sender
batch_stored_example =
    batch_stored system joined (λ ms. some (1 ∷ 2 ∷ [])) agent_config keyed_config 2048 no_keys
      batch (add_counter "polls" 2 ∷ set_gauge "alloc" 7 ∷ add_counter "polls" 3 ∷ [])
      "http://localhost:8080/updates/" (1 ∷ 2 ∷ []) (inr empty) key_codecs-MakesPairs generated refl
      plain-IsLossless literal-FindsUpdates (mem_storage-IsLawful runtime) refl refl refl
      (λ e. cc e) batch-IsReady

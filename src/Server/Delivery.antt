-- ===== src/Server/Delivery.antt =====
-- From an agent to a server whose keys one keygen has made.
use go_metrics.Common.{
  ℕ, String, ◌≡◌, ◌≢◌, refl, sym, ◌∙◌, ap, Option, none, some, List, [], inr, str_ne,
}
use go_metrics.Models.{Metrics}
use go_metrics.Storage.{Storage}
use go_metrics.Storage.Updates.{Update, IsLawful}
use go_metrics.Storage.Mem.{mem_storage}
use go_metrics.Storage.Mem.Laws.{mem_storage-IsLawful}
use go_metrics.Http.{Request, Response, set_header}
use go_metrics.Handlers.{Externals}
use go_metrics.Handlers.Updates.{updates_handler}
use go_metrics.Handlers.Updates.Laws.{HasEffect, updates_handler-HasEffect}
use go_metrics.Crypto.{Rsa}
use go_metrics.Crypto.RoundTrip.{IsKeyPair}
use go_metrics.Crypto.Keys.{KeyCodecs, KeyFiles, loaded, load_private_key, load_public_key, keygen}
use go_metrics.Crypto.Keys.Laws.{ReadsBack, keygen-load_keys}
use go_metrics.Middleware.{Message, Codecs, as_text, compressed}
use go_metrics.Middleware.Delivery.{IsLossless, ArePaired, Delivered, unzipped, deliver}
use go_metrics.Agent.Sender.{MetricsSender, new_metrics_sender, batch_message}
use go_metrics.Agent.Collector.Laws.{IsReady}
use go_metrics.Config.Agent.{AgentConfig}
use go_metrics.Config.Server.{Config}
use go_metrics.Router.{updates, routes, Found, Mux, private_key, handle, dispatch, serve_http}
use go_metrics.Server.Lawful.{either_storage-IsLawful}
use go_metrics.Server.{System, State, storage, new_router}

-- For the agent's requests, chi finds the route of UpdatesHandler.
pub record FindsUpdates (mux : Mux) : Type 0 where
  pub found : Found
  pub finds : mux.find routes "POST" "/updates/" ≡ some found
  pub is_updates : found.found_route.endpoint ≡ updates

module _ {F S : Type 0} (x : Externals F) (st : Storage F S) (key : String) (mux : Mux)
    (codecs : Codecs) (finds : FindsUpdates mux) where
  abbrev update_request : Message → Request
  update_request m = record {
    header = m.header;
    body = as_text codecs.text_of m.body;
    url_param = finds.found.url_param;
  }

  dispatch-updates :
      (m : Message) (s : S)
      → dispatch x st key mux codecs "POST" "/updates/" m s
        ≡ updates_handler x st key (update_request m) s
  unfolding dispatch handle
  dispatch-updates m s = rw (dispatch, finds.finds, finds.is_updates) refl

  status_compressed : (w : Response) → w.status ≡ some 200 → (compressed codecs w).status ≡ some 200
  unfolding set_header
  status_compressed w h = rw h

  delivered :
      (rsa : Option Rsa) (m : Message) (body : List ℕ) (d : Delivered codecs S rsa m body) (s : S)
      → serve_http x st key mux codecs rsa "POST" "/updates/" m s ≡ (
        compressed codecs (updates_handler x st key (update_request (unzipped d.header body)) s).0,
        (updates_handler x st key (update_request (unzipped d.header body)) s).1,
      )
  unfolding serve_http
  delivered rsa m body d s =
      d.through (dispatch x st key mux codecs "POST" "/updates/") s
      ∙ ap (λ (o : Response × S). (compressed codecs o.0, o.1))
          (dispatch-updates (unzipped d.header body) s)

  -- What the agent sends is stored by the router with the counterpart of its key: a batch that is
  -- ready for the server's key gets 200, and the storage is then as its updates one by one make it.
  routed :
      (join_path : String → String → Option String) (marshal : List (Metrics F) → Option (List ℕ))
      (sender : MetricsSender) (ms : List (Metrics F)) (us : List (Update F)) (url : String)
      (body : List ℕ) (s : S)
      → IsLossless codecs
      → ArePaired sender.public_key
      → join_path sender.address "updates/" ≡ some url
      → marshal ms ≡ some body
      → x.decode_list (codecs.text_of body) ≡ some ms
      → ms ≢ []
      → IsReady x key ms us
      → IsLawful st
      → (m : Message) × (batch_message join_path codecs marshal sender ms ≡ some (url, m))
        × ((serve_http x st key mux codecs sender.public_key "POST" "/updates/" m s).0.status
            ≡ some 200)
        × HasEffect st us s
            (serve_http x st key mux codecs sender.public_key "POST" "/updates/" m s).1
  routed join_path marshal sender ms us url body s lossless pair u made read present ready law =
      let (m, built, d) =
        deliver {S = S} join_path codecs lossless marshal sender ms url body pair u made in
      let r = update_request (unzipped d.header body) in
      let (status, effect) =
        updates_handler-HasEffect x st key r s ms us law
          (record { json = d.json; decoded = read; present = present; signed = inr ready.verified })
          ready.asks in
      let same = delivered sender.public_key m body d s in
      (m, built, ap (λ o. o.0.status) same ∙ status_compressed _ status, rw same effect)

-- What crypto/rsa and the key files promise: a generated key leaves room for the padding and
-- decrypts what is encrypted for it, and a value of `Rsa` stands for a key and its counterpart, so
-- that the public key of a pair is the pair itself.
pub record MakesPairs (x : KeyCodecs Rsa Rsa) : Type 0 where
  pub reads_back : ReadsBack x
  pub public : (k : Rsa) → x.public_key k ≡ k
  pub pair : (bits : ℕ) (k : Rsa) → x.generate_key bits ≡ some k → IsKeyPair k

-- A keygen that has ended without an error, with two files.
pub record Generated (x : KeyCodecs Rsa Rsa) (private_file public_file : String) (size : ℕ)
    (fs : KeyFiles) : Type 0 where
  pub differ : private_file ≢ public_file
  pub has_private : private_file ≢ ""
  pub has_public : public_file ≢ ""
  pub succeeded : (keygen x private_file public_file size fs).0 ≡ none

module _ (x : KeyCodecs Rsa Rsa) (makes : MakesPairs x) where
  private_key-loaded :
      (path : String) (fs : KeyFiles) (k : Rsa)
      → path ≢ ""
      → load_private_key x path fs ≡ loaded k
      → private_key x path fs ≡ some k
  unfolding private_key
  private_key-loaded path fs k p e = rw (private_key, str_ne p, e) refl

  public_key-loaded :
      (cfg : AgentConfig) (fs : KeyFiles) (k : Rsa)
      → cfg.crypto_key ≢ ""
      → load_public_key x cfg.crypto_key fs ≡ loaded k
      → (new_metrics_sender x fs cfg).public_key ≡ some k
  unfolding new_metrics_sender
  public_key-loaded cfg fs k p e = rw (str_ne p, e) refl

  -- The agent and the server that use the two files of a keygen have a key pair.
  counterparts :
      (agent : AgentConfig) (private_file : String) (size : ℕ) (fs : KeyFiles)
      → Generated x private_file agent.crypto_key size fs
      → (k : Rsa) × IsKeyPair k
        × (private_key x private_file (keygen x private_file agent.crypto_key size fs).1 ≡ some k)
        × ((new_metrics_sender x
              (keygen x private_file agent.crypto_key size fs).1
              agent).public_key
            ≡ some k)
  counterparts agent private_file size fs g =
      let (k, made, own, other) =
        keygen-load_keys x makes.reads_back private_file agent.crypto_key size fs g.differ
          g.succeeded in
      (
        k,
        makes.pair size k made,
        private_key-loaded private_file _ k g.has_private own,
        public_key-loaded agent _ k g.has_public (other ∙ ap loaded (makes.public k)),
      )

-- The sender of an agent on the key files of the server's host.
abbrev pub agent_sender : {F D : Type 0} → System F D Rsa → AgentConfig → MetricsSender
agent_sender sys agent = new_metrics_sender sys.key_codecs sys.key_files agent

module _ {F D : Type 0} (sys : System F D Rsa) (join_path : String → String → Option String)
    (marshal : List (Metrics F) → Option (List ℕ)) (agent : AgentConfig) (server : Config)
    (size : ℕ) (fs : KeyFiles) where
  -- After a keygen that has ended without an error, an agent that is configured with its public key
  -- and a server with its private one understand each other: SendMetricsBatch builds a request for a
  -- batch that is not empty and ready for the server's key, and if chi finds the route of
  -- UpdatesHandler for it, the server answers it by 200, and its storage is then as the updates of
  -- the batch, one by one, make it. This holds if gzip and Base64 lose nothing, the key files and RSA
  -- keep their promises, the server's JSON decoder reads the agent's text, and a storage in
  -- PostgreSQL that the server may hold instead of the one in memory is lawful.
  pub batch_stored :
      (ms : List (Metrics F)) (us : List (Update F)) (url : String) (body : List ℕ) (s : State sys)
      → MakesPairs sys.key_codecs
      → Generated sys.key_codecs server.crypto_key agent.crypto_key size fs
      → sys.key_files ≡ (keygen sys.key_codecs server.crypto_key agent.crypto_key size fs).1
      → IsLossless sys.codecs
      → FindsUpdates sys.mux
      → IsLawful sys.database
      → join_path (agent_sender sys agent).address "updates/" ≡ some url
      → marshal ms ≡ some body
      → sys.externals.decode_list (sys.codecs.text_of body) ≡ some ms
      → ms ≢ []
      → IsReady sys.externals server.key ms us
      → (m : Message) × (batch_message join_path sys.codecs marshal (agent_sender sys agent) ms
          ≡ some (url, m))
        × ((new_router sys server "POST" "/updates/" m s).0.status ≡ some 200)
        × HasEffect (storage sys) us s (new_router sys server "POST" "/updates/" m s).1
  unfolding new_router storage
  batch_stored ms us url body s makes g files lossless finds law u made read present ready =
      let (k, pair, own, other) =
        counterparts sys.key_codecs makes agent server.crypto_key size fs g in
      let mine : (agent_sender sys agent).public_key ≡ some k = rw files other in
      let theirs : private_key sys.key_codecs server.crypto_key sys.key_files ≡ some k =
        rw files own in
      let shared = theirs ∙ sym mine in
      let (m, built, status, effect) =
        routed sys.externals (storage sys) server.key sys.mux sys.codecs finds join_path marshal
          (agent_sender sys agent) ms us url body s lossless (rw mine pair) u made read present
          ready
          (either_storage-IsLawful sys.database (mem_storage sys.runtime) law
            (mem_storage-IsLawful sys.runtime)) in
      (m, built, rw shared status, rw shared effect)

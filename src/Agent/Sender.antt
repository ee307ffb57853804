-- ===== src/Agent/Sender.antt =====
-- agent.go, `NewMetricsSender` and `SendMetricsBatch`, which is what a worker of the pool runs.
pub mod Laws
use Prim.Native.String
use go_metrics.Common.{
  ℕ, String, false, eqb, Option, none, some, List, [], ◌∷◌, ◌==◌, if◌then◌else◌,
}
use go_metrics.Models.{Metrics}
use go_metrics.Crypto.{Rsa, bind, encrypt_large_data}
use go_metrics.Crypto.Keys.{KeyCodecs, KeyFiles, failed, loaded, load_public_key}
use go_metrics.Config.Agent.{AgentConfig}
use go_metrics.Retry.{
  GoError, Env, Outcome, success, wrap, with_variable, default_retry_config, retry,
}
use go_metrics.Strconv.{format_int}
use go_metrics.Middleware.{Message, Codecs}

-- An error before anything is sent, or the result of `Retry`.
pub data Sent : Type 0 where
  not_built : Sent
  tried : Outcome → Sent

-- The headers that the agent sets.
abbrev batch_header : String → String → String
batch_header encoding h =
    if h == "Content-Type"
    then "application/json"
    else if h == "Content-Encoding"
    then encoding
    else if h == "Accept-Encoding"
    then "gzip"
    else ""

abbrev pub message : String → List ℕ → Message
message encoding bytes = record { header = batch_header encoding; body = some bytes }

-- `MetricsSender`, less its channel and its context. The pool has `pool_size` workers.
pub record MetricsSender : Type 0 where
  pub address : String
  pub key : String
  pub public_key : Option Rsa
  pub pool_size : ℕ

-- NewMetricsSender. Where the public key cannot be loaded, the agent goes on without encryption.
unfoldable pub new_metrics_sender :
    {K : Type 0} → KeyCodecs K Rsa → KeyFiles → AgentConfig → MetricsSender
new_metrics_sender codecs fs cfg = record {
  address = String.◌++◌ "http://" cfg.address;
  key = cfg.key;
  public_key =
      if cfg.crypto_key == ""
      then none
      else elim (load_public_key codecs cfg.crypto_key fs) [ failed e ↦ none | loaded k ↦ some k ];
  pool_size = cfg.rate_limit;
}

-- What client.Do returns: a response with its status, or an error.
pub data Answered : Type 0 where
  responded : ℕ → Answered
  no_response : GoError → Answered

-- client.Do with its timeout, on the one *http.Request that all attempts share: from its URL and
-- message and the bytes that the reader of its body still has, what it returns and leaves of them.
abbrev pub Client : Type 0 → Type 0
Client W = String × Message → List ℕ → W → Answered × (List ℕ × W)

abbrev unexpected_status : ℕ → GoError
unexpected_status code = record {
  net_timeout = none;
  pg_code = none;
  is_closed = false;
  text = String.◌++◌ "unexpected status code: " (format_int code);
}

-- What one attempt makes of it.
abbrev pub judged : Answered → Option GoError
judged (no_response e) = some (wrap "error sending batch request: " e)
judged (responded code) = if eqb code 200 then none else some (unexpected_status code)

-- The closure that is retried. Its state is the reader of the body, and the world.
unfoldable pub post :
    {W : Type 0} → Client W → String × Message → List ℕ × W → Option GoError × (List ℕ × W)
post client request (rest, w) = let (a, s) = client request rest w in (judged a, s)

abbrev pub reported : {A W : Type 0} → Outcome × (A × W) → Sent × W
reported (out, (reader, w)) = (tried out, w)

-- bytes.NewReader of the body.
abbrev pub new_reader : Message → List ℕ
new_reader m = elim m.body [ none ↦ [] | some bytes ↦ bytes ]

-- `join_path` is url.JoinPath and `marshal` json.Marshal, `none` for an error.
module _ {F : Type 0} (join_path : String → String → Option String) (codecs : Codecs)
    (marshal : List (Metrics F) → Option (List ℕ)) where
  abbrev pub final_data : Option Rsa → List ℕ → Option Message
  final_data none compressed = some (message "gzip" compressed)
  final_data (some key) compressed =
      bind (encrypt_large_data key compressed)
        λ encrypted. some (message "encrypted" (codecs.encode64 encrypted))

  -- What is sent, and where to: gzip, or with a public key the Base64 text of the encrypted gzip.
  unfoldable pub batch_message : MetricsSender → List (Metrics F) → Option (String × Message)
  batch_message ms metrics = bind (join_path ms.address "updates/") λ url.
      bind (marshal metrics)
        λ body. bind (final_data ms.public_key (codecs.gzip body)) λ m. some (url, m)

  unfoldable pub send_metrics_batch :
      {W : Type 0} → Env W → Client W → MetricsSender → List (Metrics F) → W → Sent × W
  unfolding batch_message
  send_metrics_batch env client ms [] w = (tried success, w)
  send_metrics_batch env client ms (m ∷ rest) w = elim (batch_message ms (m ∷ rest)) [
    | none ↦ (not_built, w)
    | some request ↦ reported (
        retry (with_variable env) default_retry_config (post client request)
          (new_reader request.1, w))
  ]

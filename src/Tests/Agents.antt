-- ===== src/Tests/Agents.antt =====
-- The agent's batches, and their way to the server.
use Prim.Native.String
use go_metrics.Common.{
  ℕ, zero, suc, Option, ◌+◌, ◌*◌, String, ◌≡◌, ◌↔◌, refl, true, some, List, [], ◌∷◌, arith,
}
use go_metrics.Storage.Updates.{set_gauge, add_counter}
use go_metrics.Storage.Mem.{mem_storage}
use go_metrics.Storage.Mem.Laws.{mem_storage-IsLawful}
use go_metrics.Handlers.{Externals, verify_metric_hash}
use go_metrics.Middleware.{Codecs}
use go_metrics.Middleware.Delivery.{IsLossless}
use go_metrics.Agent.Sender.{
  Client, responded, no_response, MetricsSender, tried, send_metrics_batch,
}
use go_metrics.Agent.Sender.Laws.{IsPosted, send_metrics_batch-success_iff}
use go_metrics.Retry.{success}
use go_metrics.Tests.Retrying.{quick, timeout}
use go_metrics.Agent.Collector.{Sample, collect_runtime_metrics}
use go_metrics.Agent.Collector.Laws.{HasHmac, IsReady, store_all, poll_count, store_all-poll_count}
use go_metrics.Tests.Setup.{batch, polls, libraries, runtime, empty, second_first, storage_runs}
use go_metrics.Tests.Batches.{batch-Asks}
use go_metrics.Tests.Keys.{toy}

-- The HMAC of a text is the text behind a digit.
abbrev hashing : Externals ℕ
hashing = record libraries { hmac = λ text key. String.◌∷◌ "f" text }

hashing-HasHmac : HasHmac hashing
hashing-HasHmac = record { not_empty = λ text key e. cc e }

abbrev sample : Sample ℕ
sample = record { mem_stats = λ n. 4; random = 9 }

abbrev three : List (Sample ℕ)
three = sample ∷ sample ∷ sample ∷ []

no_polls : poll_count hashing (mem_storage runtime) second_first "k" empty ≡ 0
unfolding storage_runs
no_polls = refl

store_all-poll_count_example :
    2
      * poll_count hashing (mem_storage runtime) second_first "k" (
          store_all hashing
            (mem_storage runtime)
            second_first
            "k"
            (collect_runtime_metrics hashing.hmac hashing.format_float second_first "k" 0 three)
            empty)
    ≡ 3 * (3 + 1)
store_all-poll_count_example =
    store_all-poll_count hashing (mem_storage runtime) second_first "k" three empty hashing-HasHmac
      (mem_storage-IsLawful runtime) (omega arith) no_polls

-- Encodings that change nothing.
abbrev pub plain : Codecs
plain = record {
  encode64 = λ b. b;
  decode64 = λ b. some b;
  gzip = λ b. b;
  has_gzip_header = λ b. true;
  gunzip = λ b. some b;
  zip_text = λ s. s;
  text_of = λ b. "batch";
}

pub plain-IsLossless : IsLossless plain
plain-IsLossless = record { base64 = λ b. refl; has_header = λ b. refl; gzip = λ b. refl }

pub batch-IsReady :
    IsReady libraries "" batch
      (add_counter "polls" 2 ∷ set_gauge "alloc" 7 ∷ add_counter "polls" 3 ∷ [])
unfolding verify_metric_hash
batch-IsReady = record { asks = batch-Asks; verified = refl }

-- The address and the path, one behind the other.
abbrev pub joined : String → String → Option String
joined base path = some (String.◌++◌ base (String.◌++◌ "/" path))

abbrev toy_sender : MetricsSender
toy_sender = record { address = "http://h:1"; key = ""; public_key = some toy; pool_size = 1 }

-- The first call times out before it has read the body, and the second is answered by 200.
abbrev second_do : Client ℕ
second_do request rest zero = (no_response timeout, (rest, 1))
second_do request rest (suc n) = (responded 200, ([], suc (suc n)))

send_metrics_batch-success_iff_example :
    (send_metrics_batch joined plain
        (λ ms. some (1 ∷ 2 ∷ []))
        quick
        second_do
        toy_sender
        (polls 2 ∷ [])
        0
      ≡ (tried success, 2))
    ↔ IsPosted joined plain (λ ms. some (1 ∷ 2 ∷ [])) quick second_do toy_sender (polls 2 ∷ []) 0 2
send_metrics_batch-success_iff_example =
    send_metrics_batch-success_iff joined plain (λ ms. some (1 ∷ 2 ∷ [])) quick second_do toy_sender
      (polls 2) [] 0 2

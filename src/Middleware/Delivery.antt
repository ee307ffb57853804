-- ===== src/Middleware/Delivery.antt =====
-- From the agent's `SendMetricsBatch` through the middleware of the router to `UpdatesHandler`.
use go_metrics.Common.{ℕ, String, ◌≡◌, refl, ◌∙◌, true, Option, none, some, List}
use go_metrics.Models.{Metrics}
use go_metrics.Retry.Text.{codes, contains, is_prefix}
use go_metrics.Crypto.{Rsa, decrypt_large_data}
use go_metrics.Crypto.RoundTrip.{IsKeyPair, decrypt_large_data-encrypt_large_data}
use go_metrics.Middleware.{
  Message, Codecs, Handler, with_header, compressed, decrypt_middleware, compress_response,
  gzip_middleware,
}
use go_metrics.Agent.Sender.{MetricsSender, final_data, message, batch_message}

-- encoding/base64 and compress/gzip: what is encoded is decoded to the same bytes.
pub record IsLossless (codecs : Codecs) : Type 0 where
  pub base64 : (bytes : List ℕ) → codecs.decode64 (codecs.encode64 bytes) ≡ some bytes
  pub has_header : (bytes : List ℕ) → codecs.has_gzip_header (codecs.gzip bytes) ≡ true
  pub gzip : (bytes : List ℕ) → codecs.gunzip (codecs.gzip bytes) ≡ some bytes

-- The agent's key and the server's are a pair, or neither has one.
abbrev pub ArePaired : Option Rsa → Type 0
ArePaired none = Unit
ArePaired (some key) = IsKeyPair key

abbrev pub unzipped : (String → String) → List ℕ → Message
unzipped header bytes = record { header = header; body = some bytes }

module _ (codecs : Codecs) {S : Type 0} (lossless : IsLossless codecs) where
  gzip_middleware-gzip :
      (next : Handler S) (header : String → String) (bytes : List ℕ) (s : S)
      → header "Content-Encoding" ≡ "gzip"
      → header "Accept-Encoding" ≡ "gzip"
      → gzip_middleware codecs next (unzipped header (codecs.gzip bytes)) s
        ≡ (compressed codecs (next (unzipped header bytes) s).0, (next (unzipped header bytes) s).1)
  unfolding gzip_middleware compress_response codes contains is_prefix
  gzip_middleware-gzip next header bytes s e a =
      simp (e, a, lossless.has_header bytes, lossless.gzip bytes)

  decrypt_middleware-encrypted :
      (key : Rsa) (next : Handler S) (header : String → String) (plain encrypted : List ℕ) (s : S)
      → header "Content-Encoding" ≡ "encrypted"
      → decrypt_large_data key encrypted ≡ some plain
      → decrypt_middleware codecs (some key) next (unzipped header (codecs.encode64 encrypted)) s
        ≡ next (unzipped (with_header "Content-Encoding" "gzip" header) plain) s
  unfolding decrypt_middleware
  decrypt_middleware-encrypted key next header plain encrypted s e d =
      simp (e, lossless.base64 encrypted, d)

-- What a batch message becomes on its way to what is behind the middleware.
pub record Delivered (codecs : Codecs) (S : Type 0) (rsa : Option Rsa) (m : Message) (body : List ℕ)
    : Type 0 where
  pub header : String → String
  pub json : header "Content-Type" ≡ "application/json"
  pub through :
      (next : Handler S) (s : S)
      → decrypt_middleware codecs rsa (gzip_middleware codecs next) m s
        ≡ (compressed codecs (next (unzipped header body) s).0, (next (unzipped header body) s).1)

module _ {F S : Type 0} (join_path : String → String → Option String) (codecs : Codecs)
    (lossless : IsLossless codecs) (marshal : List (Metrics F) → Option (List ℕ)) where
  carry :
      (rsa : Option Rsa) (body : List ℕ)
      → ArePaired rsa
      → (m : Message) × (final_data join_path codecs marshal rsa (codecs.gzip body) ≡ some m)
        × Delivered codecs S rsa m body
  unfolding decrypt_middleware
  carry none body p = (
    message "gzip" (codecs.gzip body),
    refl,
    record {
      header = (message "gzip" (codecs.gzip body)).header;
      json = refl;
      through = λ next s.
          gzip_middleware-gzip codecs lossless next (message "gzip" (codecs.gzip body)).header body
            s refl refl;
    },
  )
  carry (some key) body p =
      let (encrypted, made, back) =
        decrypt_large_data-encrypt_large_data key p (codecs.gzip body) in
      let m = message "encrypted" (codecs.encode64 encrypted) in
      (
        m,
        simp made,
        record {
          header = with_header "Content-Encoding" "gzip" m.header;
          json = refl;
          through = λ next s.
              decrypt_middleware-encrypted codecs lossless key (gzip_middleware codecs next)
                m.header (codecs.gzip body) encrypted s refl back
              ∙ gzip_middleware-gzip codecs lossless next
                  (with_header "Content-Encoding" "gzip" m.header) body s refl refl;
        },
      )

  -- What the agent's `SendMetricsBatch` sends, compressed and with a key encrypted, passes the
  -- server's middleware as the text that the agent has marshalled, if their keys are a pair.
  pub deliver :
      (sender : MetricsSender) (ms : List (Metrics F)) (url : String) (body : List ℕ)
      → ArePaired sender.public_key
      → join_path sender.address "updates/" ≡ some url
      → marshal ms ≡ some body
      → (m : Message) × (batch_message join_path codecs marshal sender ms ≡ some (url, m))
        × Delivered codecs S sender.public_key m body
  unfolding batch_message
  deliver sender ms url body p u h =
      let (m, made, d) = carry sender.public_key body p in
      (m, rw (batch_message, u, h, made) refl, d)

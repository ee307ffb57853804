-- ===== src/Middleware/State.antt =====
-- decrypt.go and gzip.go: what the two middlewares make of a handler's state.
use go_metrics.Common.{Option, none, some, inl, inr, Option-cases, Bool-cases, ◌==◌}
use go_metrics.Retry.Text.{codes, contains}
use go_metrics.Crypto.{Rsa, decrypt_large_data}
use go_metrics.Middleware.{
  Message, Codecs, Handler, decrypt_middleware, gzip_middleware, compress_response,
}

-- A property of the state that holds before a request, and behind the handler whatever message it is
-- given, holds behind the middleware.
module _ {S : Type 0} (codecs : Codecs) (next : Handler S) (s : S) (P : S → Type 0) (before : P s)
    (behind : (m : Message) → P (next m s).1) where
  compress_response-keeps : (m : Message) → P (compress_response codecs next m s).1
  unfolding compress_response
  compress_response-keeps m =
      elim (Bool-cases (contains (codes (m.header "Accept-Encoding")) (codes "gzip"))) [
        | inl e ↦ rw (compress_response, e) (behind m)
        | inr e ↦ rw (compress_response, e) (behind m)
      ]

  pub gzip_middleware-keeps : (m : Message) → P (gzip_middleware codecs next m s).1
  unfolding gzip_middleware
  gzip_middleware-keeps m =
      elim (Bool-cases (contains (codes (m.header "Content-Encoding")) (codes "gzip"))) [
        | inr plain ↦ rw (gzip_middleware, plain) (compress_response-keeps m)
        | inl zipped ↦ elim (Option-cases m.body) [
          | inl missing ↦ rw (gzip_middleware, zipped, missing) before
          | inr (bytes, body) ↦ elim (Bool-cases (codecs.has_gzip_header bytes)) [
            | inl good ↦
                rw (gzip_middleware, zipped, body, good)
                  (compress_response-keeps (record m { body = codecs.gunzip bytes }))
            | inr bad ↦ rw (gzip_middleware, zipped, body, bad) before
          ]
        ]
      ]

  pub decrypt_middleware-keeps :
      (rsa : Option Rsa) (m : Message) → P (decrypt_middleware codecs rsa next m s).1
  unfolding decrypt_middleware
  decrypt_middleware-keeps none m = behind m
  decrypt_middleware-keeps (some rsa) m =
      elim (Bool-cases (m.header "Content-Encoding" == "encrypted")) [
        | inr plain ↦ rw (decrypt_middleware, plain) (behind m)
        | inl encrypted ↦ elim (Option-cases m.body) [
          | inl missing ↦ rw (decrypt_middleware, encrypted, missing) before
          | inr (text, body) ↦ elim (Option-cases (codecs.decode64 text)) [
            | inl bad ↦ rw (decrypt_middleware, encrypted, body, bad) before
            | inr (bytes, good) ↦ elim (Option-cases (decrypt_large_data rsa bytes)) [
              | inl bad ↦ rw (decrypt_middleware, encrypted, body, good, bad) before
              | inr (clear, key) ↦ rw (decrypt_middleware, encrypted, body, good, key) (behind _)
            ]
          ]
        ]
      ]

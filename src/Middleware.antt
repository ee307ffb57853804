-- ===== src/Middleware.antt =====
-- internal/middleware: decrypt.go and gzip.go, around a handler. Bodies are bytes.
pub mod Delivery
pub mod State
use go_metrics.Common.{ℕ, String, Bool, Option, none, some, List, ◌==◌, if◌then◌else◌}
use go_metrics.Retry.Text.{codes, contains}
use go_metrics.Http.{Request, Response, new_response, set_header, write_header, write_text}
use go_metrics.Crypto.{Rsa, decrypt_large_data}

-- A request as it arrives. `body` is what reading the body gives, `none` for a read error.
pub record Message : Type 0 where
  pub header : String → String
  pub body : Option (List ℕ)

-- encoding/base64, and compress/gzip: `has_gzip_header` says if `gzip.NewReader` accepts what it
-- reads first, and `gunzip` is what reading it to the end gives. `zip_text` is a response's body
-- compressed, and `text_of` a request's body as the text that a handler reads. A handler here gets the
-- whole body or none: one that breaks off behind a complete JSON value is an error of reading here,
-- whereas json.Decoder does not read so far.
pub record Codecs : Type 0 where
  pub encode64 : List ℕ → List ℕ
  pub decode64 : List ℕ → Option (List ℕ)
  pub gzip : List ℕ → List ℕ
  pub has_gzip_header : List ℕ → Bool
  pub gunzip : List ℕ → Option (List ℕ)
  pub zip_text : String → String
  pub text_of : List ℕ → String

-- r.Header.Set
abbrev pub with_header : String → String → (String → String) → String → String
with_header name value header h = if h == name then value else header h

-- A handler over the state `S`, behind middleware.
abbrev pub Handler : Type 0 → Type 0
Handler S = Message → S → Response × S

abbrev or_ok : Option ℕ → Option ℕ
or_ok none = some 200
or_ok (some c) = some c

abbrev pub as_text : (List ℕ → String) → Option (List ℕ) → Option String
as_text text_of none = none
as_text text_of (some bytes) = some (text_of bytes)

-- http.Error with 400
abbrev bad_request : String → Response
unfolding write_header write_text set_header
bad_request text = write_text text (
    write_header 400 (
      set_header "X-Content-Type-Options" "nosniff"
        (set_header "Content-Type" "text/plain; charset=utf-8" new_response)))

-- The body of an encrypted request is replaced, and its encoding is then gzip.
abbrev pub decrypted : Message → List ℕ → Message
decrypted m plain = record {
  header = with_header "Content-Encoding" "gzip" m.header;
  body = some plain;
}

-- The response is compressed behind the handler, which writes to the compressor, and closing that
-- sends the status 200 if the handler has sent none. The handlers of the server do not set
-- Content-Encoding themselves.
abbrev pub compressed : Codecs → Response → Response
unfolding set_header
compressed codecs w = record (set_header "Content-Encoding" "gzip" w) {
  status = or_ok w.status;
  written = codecs.zip_text w.written;
}

module _ (codecs : Codecs) {S : Type 0} where
  unfoldable pub decrypt_middleware : Option Rsa → Handler S → Handler S
  unfolding write_header write_text set_header
  decrypt_middleware none next m s = next m s
  decrypt_middleware (some key) next m s =
      if m.header "Content-Encoding" == "encrypted"
      then elim m.body [
        | none ↦ (bad_request "Ошибка чтения тела запроса\n", s)
        | some encrypted ↦ elim (codecs.decode64 encrypted) [
          | none ↦ (bad_request "Ошибка декодирования Base64\n", s)
          | some bytes ↦ elim (decrypt_large_data key bytes) [
            | none ↦ (bad_request "Ошибка дешифрования данных\n", s)
            | some plain ↦ next (decrypted m plain) s
          ]
        ]
      ]
      else next m s

  unfoldable pub compress_response : Handler S → Handler S
  unfolding set_header
  compress_response next m s =
      if contains (codes (m.header "Accept-Encoding")) (codes "gzip")
      then (compressed codecs (next m s).0, (next m s).1)
      else next m s

  unfoldable pub gzip_middleware : Handler S → Handler S
  unfolding compress_response write_header
  gzip_middleware next m s =
      if contains (codes (m.header "Content-Encoding")) (codes "gzip")
      then elim m.body [
        | none ↦ (write_header 400 new_response, s)
        | some bytes ↦
            if codecs.has_gzip_header bytes
            then compress_response next (record m { body = codecs.gunzip bytes }) s
            else (write_header 400 new_response, s)
      ]
      else compress_response next m s

-- ===== src/Logger.antt =====
-- internal/logger/logger.go: what `WithLogging` logs of a response. The headers of the response go past
-- its wrapper. What the wrapper hides, like http.Flusher, no handler of the server asks for.
pub mod Laws
use go_metrics.Common.{ℕ, ◌+◌, Bool, List}

pub record ResponseData : Type 0 where
  pub status : ℕ
  pub size : ℕ

-- An http.ResponseWriter with a state `W`: WriteHeader, and Write with the number of bytes that it
-- reports and whether it returns an error.
pub record ResponseWriter (W : Type 0) : Type 0 where
  pub write_header : ℕ → W → W
  pub write : List ℕ → W → (ℕ × Bool) × W

-- A handler of a request, by its next call on its ResponseWriter; what it does after a Write can depend
-- on what that has returned.
pub data Handler : Type 0 where
  returns : Handler
  calls_write_header : ℕ → Handler → Handler
  calls_write : List ℕ → (ℕ × Bool → Handler) → Handler

module _ {W : Type 0} (writer : ResponseWriter W) where
  -- loggingResponseWriter
  unfoldable pub logging_response_writer : ResponseWriter (ResponseData × W)
  logging_response_writer = record {
    write_header = λ code (d, w). (record d { status = code }, writer.write_header code w);
    write = λ b (d, w).
        let ((size, err), v) = writer.write b w in
        ((size, err), (record d { size = d.size + size }, v));
  }

-- ServeHTTP
abbrev pub serve : {W : Type 0} → ResponseWriter W → Handler → W → W
serve writer returns w = w
serve writer (calls_write_header code next) w = serve writer next (writer.write_header code w)
serve writer (calls_write b next) w = serve writer (next (writer.write b w).0) (writer.write b w).1

-- What is logged of the response, and the response.
unfoldable pub with_logging : {W : Type 0} → ResponseWriter W → Handler → W → ResponseData × W
unfolding logging_response_writer
with_logging writer handler w =
    serve (logging_response_writer writer) handler (record { status = 200; size = 0 }, w)

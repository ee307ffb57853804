-- ===== src/Http.antt =====
-- What the handlers use of net/http: a request's parts, and a response under construction.
use go_metrics.Common.{ℕ, String, Option, none, some, []}
use go_metrics.GoMap.{GoMap, assign}
use Prim.Native.String

-- `header` is `r.Header.Get`, empty for a header that is not there. `body` is what reading the body
-- gives, `none` for a read error; a handler that reads it puts it back.
pub record Request : Type 0 where
  pub header : String → String
  pub body : Option String
  pub url_param : String → String

pub record Response : Type 0 where
  pub status : Option ℕ
  pub headers : GoMap String
  pub written : String

abbrev pub new_response : Response
new_response = record { status = none; headers = []; written = "" }

-- w.Header().Set
unfoldable pub set_header : String → String → Response → Response
set_header name value w = record w { headers = assign name value w.headers }

abbrev or_else : Option ℕ → ℕ → Option ℕ
or_else none code = some code
or_else (some c) code = some c

-- Only the first call counts.
unfoldable pub write_header : ℕ → Response → Response
write_header code w = record w { status = or_else w.status code }

-- A first write with no status sends 200.
unfoldable pub write_text : String → Response → Response
write_text text w = record w { status = or_else w.status 200; written = String.◌++◌ w.written text }

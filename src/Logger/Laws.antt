-- ===== src/Logger/Laws.antt =====
-- What is logged, against what the client gets.
use go_metrics.Common.{
  ℕ, ◌+◌, ◌≤◌, ◌<◌, ◌≡◌, ◌≢◌, refl, Option, none, some, List, [], ◌∷◌, All, arith, ap, ◌∙◌, leb,
  if◌then◌else◌, Bool-cases, inl, inr,
}
use go_metrics.Logger.{
  ResponseData, ResponseWriter, Handler, returns, calls_write_header, calls_write,
  logging_response_writer, serve, with_logging,
}

-- A call that a handler makes: WriteHeader with a status, or a Write with the number of bytes that it
-- reports.
pub data Call : Type 0 where
  header : ℕ → Call
  wrote : ℕ → Call

-- The calls of a handler, without any logging.
abbrev pub calls_of : {W : Type 0} → ResponseWriter W → Handler → W → List Call
calls_of writer returns w = []
calls_of writer (calls_write_header code next) w =
    header code ∷ calls_of writer next (writer.write_header code w)
calls_of writer (calls_write b next) w =
    wrote (writer.write b w).0.0 ∷ calls_of writer (next (writer.write b w).0) (writer.write b w).1

-- The status that decides: that of the first WriteHeader that is not informational, 200 where a Write
-- comes before it, and `none` where there is neither, for which net/http sends 200 in the end.
abbrev pub first_status : List Call → Option ℕ
first_status [] = none
first_status (header code ∷ rest) = if leb 200 code then some code else first_status rest
first_status (wrote n ∷ rest) = some 200

-- That of the last WriteHeader, from one before the calls.
abbrev pub last_status : ℕ → List Call → ℕ
last_status c [] = c
last_status c (header code ∷ rest) = last_status code rest
last_status c (wrote n ∷ rest) = last_status c rest

abbrev pub written : List Call → ℕ
written [] = 0
written (header code ∷ rest) = written rest
written (wrote n ∷ rest) = n + written rest

-- A status that WriteHeader takes, and that does not end HTTP, as 101 does.
abbrev pub IsStatus : Call → Type 0
IsStatus (header code) = (100 ≤ code) × (code < 1000) × (code ≢ 101)
IsStatus (wrote n) = Unit

-- What net/http promises of its ResponseWriter: the first WriteHeader with a final status decides, a
-- Write before it sends 200, and no later call changes the status.
pub record IsHttp {W : Type 0} (writer : ResponseWriter W) (status : W → Option ℕ) : Type 0 where
  pub header_first :
      (code : ℕ) (w : W)
      → IsStatus (header code)
      → 200 ≤ code
      → status w ≡ none
      → status (writer.write_header code w) ≡ some code
  pub header_informational :
      (code : ℕ) (w : W)
      → IsStatus (header code)
      → code < 200
      → status w ≡ none
      → status (writer.write_header code w) ≡ none
  pub header_again :
      (code c : ℕ) (w : W)
      → IsStatus (header code)
      → status w ≡ some c
      → status (writer.write_header code w) ≡ some c
  pub write_first : (b : List ℕ) (w : W) → status w ≡ none → status (writer.write b w).1 ≡ some 200
  pub write_again :
      (b : List ℕ) (c : ℕ) (w : W) → status w ≡ some c → status (writer.write b w).1 ≡ some c

module _ {W : Type 0} (writer : ResponseWriter W) where
  -- The wrapper around the writer changes nothing, and sums up the calls.
  record IsLogged (handler : Handler) (d : ResponseData) (w : W) (out : ResponseData × W)
      : Type 0 where
    same : out.1 ≡ serve writer handler w
    last : out.0.status ≡ last_status d.status (calls_of writer handler w)
    sum : out.0.size ≡ d.size + written (calls_of writer handler w)

  serve-IsLogged :
      (handler : Handler) (d : ResponseData) (w : W)
      → IsLogged handler d w (serve (logging_response_writer writer) handler (d, w))
  unfolding logging_response_writer
  serve-IsLogged returns d w = record { same = refl; last = refl; sum = omega arith }
  serve-IsLogged (calls_write_header code next) d w =
      let rest = serve-IsLogged next (record d { status = code }) (writer.write_header code w) in
      record { same = rest.same; last = rest.last; sum = rest.sum }
  serve-IsLogged (calls_write b next) d w =
      let ((n, err), v) = writer.write b w in
      let rest = serve-IsLogged (next (n, err)) (record d { size = d.size + n }) v in
      record { same = rest.same; last = rest.last; sum = omega (arith, rest.sum) }

  module _ (status : W → Option ℕ) (laws : IsHttp writer status) where
    -- A status that has been sent stays, whatever is called after it.
    status-kept :
        (handler : Handler) (code : ℕ) (w : W)
        → All IsStatus (calls_of writer handler w)
        → status w ≡ some code
        → status (serve writer handler w) ≡ some code
    status-kept returns code w ok h = h
    status-kept (calls_write_header c next) code w ok h =
        status-kept next code _ ok.1 (laws.header_again c code w ok.0 h)
    status-kept (calls_write b next) code w ok h =
        status-kept (next (writer.write b w).0) code _ ok.1 (laws.write_again b code w h)

    status-serve :
        (handler : Handler) (w : W)
        → All IsStatus (calls_of writer handler w)
        → status w ≡ none
        → status (serve writer handler w) ≡ first_status (calls_of writer handler w)
    status-serve returns w ok h = h
    status-serve (calls_write_header c next) w ok h = elim (Bool-cases (leb 200 c)) [
      | inl final ↦
          rw final
            (status-kept next c _ ok.1 (laws.header_first c w ok.0 (ground (arith, final)) h))
      | inr early ↦
          rw early (
            status-serve next _ ok.1 (laws.header_informational c w ok.0 (ground (arith, early)) h))
    ]
    status-serve (calls_write b next) w ok h =
        status-kept (next (writer.write b w).0) 200 _ ok.1 (laws.write_first b w h)

  -- `WithLogging` leaves the response as it is without it. For a handler whose calls of WriteHeader have
  -- statuses from 100 to 999 other than 101, over a ResponseWriter as net/http promises it that has sent
  -- nothing: the client gets the first status that is not informational, or 200 if a Write comes before
  -- it, whereas the logged status is that of the last WriteHeader, 200 if there is none. The logged size
  -- is the sum of what the calls of Write have reported.
  pub with_logging-response :
      (status : W → Option ℕ) (handler : Handler) (w : W)
      → IsHttp writer status
      → All IsStatus (calls_of writer handler w)
      → status w ≡ none
      → ((with_logging writer handler w).1 ≡ serve writer handler w)
        × (status (with_logging writer handler w).1 ≡ first_status (calls_of writer handler w))
        × ((with_logging writer handler w).0.status ≡ last_status 200 (calls_of writer handler w))
        × ((with_logging writer handler w).0.size ≡ written (calls_of writer handler w))
  unfolding with_logging
  with_logging-response status handler w laws ok h =
      let logged = serve-IsLogged handler (record { status = 200; size = 0 }) w in
      (
        logged.same,
        ap status logged.same ∙ status-serve status laws handler w ok h,
        logged.last,
        omega (arith, logged.sum),
      )

-- ===== src/Tests/Logs.antt =====
-- A response as its status and the number of its bytes.
use go_metrics.Common.{
  ℕ, ◌+◌, ◌≤◌, ◌<◌, ◌≡◌, refl, false, Option, none, some, All, [], ◌∷◌, length, leb, if◌then◌else◌,
  arith,
}
use go_metrics.Logger.{
  ResponseWriter, Handler, returns, calls_write_header, calls_write, serve, with_logging,
}
use go_metrics.Logger.Laws.{IsHttp, IsStatus, calls_of, with_logging-response}

abbrev Response : Type 0
Response = Option ℕ × ℕ

abbrev set_once : ℕ → Option ℕ → Option ℕ
set_once code none = if leb 200 code then some code else none
set_once code (some c) = some c

abbrev recorder : ResponseWriter Response
recorder = record {
  write_header = λ code (c, n). (set_once code c, n);
  write = λ b (c, n). ((length b, false), (set_once 200 c, n + length b));
}

abbrev status : Response → Option ℕ
status w = w.0

first_set : (code : ℕ) (o : Option ℕ) → 200 ≤ code → o ≡ none → set_once code o ≡ some code
first_set code o final h = rw h (ground (arith, final))

not_set : (code : ℕ) (o : Option ℕ) → code < 200 → o ≡ none → set_once code o ≡ none
not_set code o early h = rw h (ground (arith, early))

second_set : (code c : ℕ) (o : Option ℕ) → o ≡ some c → set_once code o ≡ some c
second_set code c o h = rw h refl

recorder-IsHttp : IsHttp recorder status
recorder-IsHttp = record {
  header_first = λ code w ok final h. first_set code w.0 final h;
  header_informational = λ code w ok early h. not_set code w.0 early h;
  header_again = λ code c w ok h. second_set code c w.0 h;
  write_first = λ b w h. first_set 200 w.0 (omega arith) h;
  write_again = λ b c w h. second_set 200 c w.0 h;
}

-- As UpdateJSONHandler does where json.Marshal fails, and a body of two bytes after it.
abbrev header_twice : Handler
header_twice =
    calls_write_header 200 (calls_write_header 500 (calls_write (1 ∷ 2 ∷ []) (λ r. returns)))

abbrev nothing_sent : Response
nothing_sent = (none, 0)

statuses : All IsStatus (calls_of recorder header_twice nothing_sent)
statuses =
    ((omega arith, omega arith, omega arith), ((omega arith, omega arith, omega arith), (tt, tt)))

with_logging-response_example :
    ((with_logging recorder header_twice nothing_sent).1 ≡ serve recorder header_twice nothing_sent)
    × (status (with_logging recorder header_twice nothing_sent).1 ≡ some 200)
    × ((with_logging recorder header_twice nothing_sent).0.status ≡ 500)
    × ((with_logging recorder header_twice nothing_sent).0.size ≡ 2)
with_logging-response_example =
    with_logging-response recorder status header_twice nothing_sent recorder-IsHttp statuses refl

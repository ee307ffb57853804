-- ===== src/Tests/Routes.antt =====
-- A router that finds the first route whose pattern is the path itself.
use go_metrics.Common.{
  String, ◌≡◌, Option, none, some, List, [], ◌∷◌, All, inl, inr, Bool-cases, ◌==◌, eq_iff,
  if◌then◌else◌,
}
use go_metrics.Http.{new_response}
use go_metrics.Storage.Mem.{mem_storage}
use go_metrics.Middleware.{Message}
use go_metrics.Router.{Route, Found, Mux, serve_http}
use go_metrics.Router.Laws.{IsMux, serve_http-get_kept}
use go_metrics.Tests.Agents.{plain}
use go_metrics.Tests.Setup.{libraries, runtime, empty}

abbrev pub find : List Route → String → String → Option Found
find [] method path = none
find (r ∷ rs) method path =
    let rest = find rs method path in
    if r.method == method
    then if r.pattern == path then some (record { found_route = r; url_param = λ p. "" }) else rest
    else rest

abbrev pub literal : Mux
literal = record { find = find; no_route = λ method path. new_response }

registered :
    (P : Route → Type 0) (rs : List Route) (method path : String) (f : Found)
    → find rs method path ≡ some f
    → All P rs
    → P f.found_route
registered P [] method path f e h = cc e
registered P (r ∷ rs) method path f e (h, hs) = elim (Bool-cases (r.method == method)) [
  | inr other ↦ registered P rs method path f (rw (find, other) at e) hs
  | inl same ↦ elim (Bool-cases (r.pattern == path)) [
    | inr other ↦ registered P rs method path f (rw (find, same, other) at e) hs
    | inl found ↦
        let g : some (record { found_route = r; url_param = λ p. "" }) ≡ some f =
          rw (find, same, found) at e in
        let route : r ≡ f.found_route = cc g in rw (← route) h
  ]
]

same_method :
    (rs : List Route) (method path : String) (f : Found)
    → find rs method path ≡ some f
    → f.found_route.method ≡ method
same_method [] method path f e = cc e
same_method (r ∷ rs) method path f e = elim (Bool-cases (r.method == method)) [
  | inr other ↦ same_method rs method path f (rw (find, other) at e)
  | inl same ↦ elim (Bool-cases (r.pattern == path)) [
    | inr other ↦ same_method rs method path f (rw (find, same, other) at e)
    | inl found ↦
        let g : some (record { found_route = r; url_param = λ p. "" }) ≡ some f =
          rw (find, same, found) at e in
        let route : r ≡ f.found_route = cc g in rw (← route) ((eq_iff r.method method).0 same)
  ]
]

literal-IsMux : IsMux literal
literal-IsMux = record { registered = registered; same_method = same_method }

abbrev request : Message
request = record { header = λ h. ""; body = some [] }

serve_http-get_kept_example :
    (serve_http libraries (mem_storage runtime) "k" literal plain none "GET" "/" request empty).1
    ≡ empty
serve_http-get_kept_example =
    serve_http-get_kept libraries (mem_storage runtime) "k" literal plain none "/" request empty
      literal-IsMux

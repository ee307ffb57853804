-- ===== src/Router/Laws.antt =====
-- Which requests can change the storage.
use go_metrics.Common.{
  String, ◌≡◌, ◌≢◌, refl, eq_iff, Option, some, List, All, inl, inr, arith, Option-cases,
}
use go_metrics.Http.{Request}
use go_metrics.Storage.{Storage}
use go_metrics.Handlers.{Externals}
use go_metrics.Handlers.Plain.{value_handler, index_handler, ping_handler}
use go_metrics.Crypto.{Rsa}
use go_metrics.Middleware.{Message, Codecs, Handler, gzip_middleware}
use go_metrics.Middleware.State.{gzip_middleware-keeps, decrypt_middleware-keeps}
use go_metrics.Router.{Route, routes, Found, Mux, handle, dispatch, serve_http}

-- A route that chi finds is one of those that were registered, and for the method of the request.
pub record IsMux (mux : Mux) : Type 1 where
  pub registered :
      (P : Route → Type 0) (rs : List Route) (method path : String) (f : Found)
      → mux.find rs method path ≡ some f
      → All P rs
      → P f.found_route
  pub same_method :
      (rs : List Route) (method path : String) (f : Found)
      → mux.find rs method path ≡ some f
      → f.found_route.method ≡ method

abbrev post : String
post = "POST"

post_ne_get : post ≢ "GET"
post_ne_get e = let f = (eq_iff post "GET").1 e in cc f

module _ {F S : Type 0} (x : Externals F) (st : Storage F S) (key : String) where
  pub value_handler_kept : (r : Request) (s : S) → (value_handler x st r s).1 ≡ s
  unfolding value_handler
  value_handler_kept r s = ground arith

  pub ping_handler_kept : (r : Request) (s : S) → (ping_handler st r s).1 ≡ s
  unfolding ping_handler
  ping_handler_kept r s = ground arith

  pub index_handler_kept : (r : Request) (s : S) → (index_handler x st r s).1 ≡ s
  unfolding index_handler
  index_handler_kept r s = refl

  -- A route whose endpoint only reads, or whose method is not GET.
  abbrev ReadsOnGet : Route → Type 0
  ReadsOnGet r = r.method ≡ "GET" → (q : Request) (s : S) → (handle x st key r.endpoint q s).1 ≡ s

  routes-ReadsOnGet : All ReadsOnGet routes
  unfolding handle
  routes-ReadsOnGet = (
    λ e. absurd (post_ne_get e),
    (
      λ e q s. value_handler_kept q s,
      (
        λ e q s. index_handler_kept q s,
        (
          λ e q s. ping_handler_kept q s,
          (
            λ e. absurd (post_ne_get e),
            (λ e. absurd (post_ne_get e), (λ e. absurd (post_ne_get e), tt)),
          ),
        ),
      ),
    ),
  )

module _ {F S : Type 0} (x : Externals F) (st : Storage F S) (key : String) (mux : Mux)
    (codecs : Codecs) where
  dispatch-get_kept :
      (path : String) (m : Message) (s : S)
      → IsMux mux
      → (dispatch x st key mux codecs "GET" path m s).1 ≡ s
  unfolding dispatch
  dispatch-get_kept path m s laws = elim (Option-cases (mux.find routes "GET" path)) [
    | inl missing ↦ rw (dispatch, missing) refl
    | inr (f, found) ↦
        rw (dispatch, found)
          (laws.registered (ReadsOnGet x st key) routes "GET" path f found
            (routes-ReadsOnGet x st key) (laws.same_method routes "GET" path f found) _ s)
  ]

  -- A GET request leaves the storage as it was, whatever its path, headers and body are, with or
  -- without a private key.
  pub serve_http-get_kept :
      (rsa : Option Rsa) (path : String) (m : Message) (s : S)
      → IsMux mux
      → (serve_http x st key mux codecs rsa "GET" path m s).1 ≡ s
  unfolding serve_http
  serve_http-get_kept rsa path m s laws =
      let routed : Handler S = dispatch x st key mux codecs "GET" path in
      let P : S → Type 0 = λ t. t ≡ s in
      decrypt_middleware-keeps codecs (gzip_middleware codecs routed) s P refl
        (gzip_middleware-keeps codecs routed s P refl (λ m. dispatch-get_kept path m s laws)) rsa m

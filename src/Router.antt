-- ===== src/Router.antt =====
-- internal/server/router.go: the routes, and the middleware and handlers that serve them.
pub mod Laws
pub mod State
use go_metrics.Common.{ℕ, String, Option, none, some, List, [], ◌∷◌, ◌==◌, if◌then◌else◌}
use go_metrics.Http.{Request, Response}
use go_metrics.Storage.{Storage}
use go_metrics.Handlers.{Externals}
use go_metrics.Handlers.Plain.{update_handler, value_handler, index_handler, ping_handler}
use go_metrics.Handlers.Json.{update_json_handler, value_json_handler}
use go_metrics.Handlers.Updates.{updates_handler}
use go_metrics.Crypto.{Rsa}
use go_metrics.Crypto.Keys.{KeyCodecs, KeyFiles, failed, loaded, load_private_key}
use go_metrics.Middleware.{Message, Codecs, Handler, as_text, decrypt_middleware, gzip_middleware}

pub data Endpoint : Type 0 where
  update value index ping update_json value_json updates : Endpoint

pub record Route : Type 0 where
  pub method : String
  pub pattern : String
  pub endpoint : Endpoint

abbrev route : String → String → Endpoint → Route
route method pattern endpoint = record { method = method; pattern = pattern; endpoint = endpoint }

-- In the order of NewRouter; those of `router.Route` with its prefix.
abbrev pub routes : List Route
routes =
    route "POST" "/update/{type}/{name}/{value}" update
    ∷ route "GET" "/value/{type}/{name}" value
    ∷ route "GET" "/" index
    ∷ route "GET" "/ping" ping
    ∷ route "POST" "/update/" update_json
    ∷ route "POST" "/value/" value_json
    ∷ route "POST" "/updates/" updates
    ∷ []

-- A route that chi has found, with the parts of the path that its pattern names.
pub record Found : Type 0 where
  pub found_route : Route
  pub url_param : String → String

-- chi: what it finds for a method and a path, and its answer where it finds nothing.
pub record Mux : Type 0 where
  pub find : List Route → String → String → Option Found
  pub no_route : String → String → Response

-- The key of the decrypting middleware, none where it is not configured or cannot be loaded.
unfoldable pub private_key : {P : Type 0} → KeyCodecs Rsa P → String → KeyFiles → Option Rsa
private_key codecs path fs =
    if path == ""
    then none
    else elim (load_private_key codecs path fs) [ failed e ↦ none | loaded k ↦ some k ]

module _ {F S : Type 0} (x : Externals F) (st : Storage F S) (key : String) where
  unfoldable pub handle : Endpoint → Request → S → Response × S
  handle update = update_handler x st key
  handle value = value_handler x st
  handle index = index_handler x st
  handle ping = ping_handler st
  handle update_json = update_json_handler x st key
  handle value_json = value_json_handler x st key
  handle updates = updates_handler x st key

  module _ (mux : Mux) (codecs : Codecs) where
    unfoldable pub dispatch : String → String → Handler S
    unfolding handle
    dispatch method path m s = elim (mux.find routes method path) [
      | none ↦ (mux.no_route method path, s)
      | some f ↦
          handle f.found_route.endpoint
            (record {
              header = m.header;
              body = as_text codecs.text_of m.body;
              url_param = f.url_param;
            })
            s
    ]

    -- What the router of NewRouter does with a request.
    unfoldable pub serve_http : Option Rsa → String → String → Handler S
    unfolding dispatch decrypt_middleware gzip_middleware
    serve_http rsa method path =
        decrypt_middleware codecs rsa (gzip_middleware codecs (dispatch method path))

-- ===== src/Server/Rest/Tests.antt =====
-- Requests to a gateway that is configured for the pages of one origin.
use clouditor.Prelude.{String, ◌≡◌, ◌↔◌, refl, [], ◌∷◌}
use clouditor.Policies.Names.{join}
use clouditor.Server.Rest.{
  Field, Request, ResponseWriter, CorsConfig, Config, default_cors, value_of, apply_options,
  set_field, with_allowed_origins, with_allowed_methods, handle_cors,
}
use clouditor.Server.Rest.Origins.{Listed, origin_of, handle_cors-Listed}

abbrev field : String → String → Field
field name value = record { name = name; value = value }

abbrev shop : String
shop = "https://shop.example"

abbrev config : Config String
config = record { cors = default_cors; opts = [] }

cors : CorsConfig
cors =
    (apply_options (with_allowed_origins (shop ∷ []) ∷ with_allowed_methods ("GET" ∷ []) ∷ [])
      config).cors

abbrev fresh : ResponseWriter String
fresh = record { header = []; body = "" }

-- The handler behind says which method it has served.
abbrev echo_method : Request → ResponseWriter String → ResponseWriter String
echo_method r w = record w { body = r.method }

abbrev preflight : String → Request
preflight origin = record {
  method = "OPTIONS";
  header = field "Origin" origin ∷ field "Access-Control-Request-Method" "GET" ∷ [];
}

preflight_answered : handle_cors cors echo_method (preflight shop) fresh ≡ record {
  header =
      field "Access-Control-Allow-Origin" shop
      ∷ field "Vary" "Origin"
      ∷ field "Access-Control-Allow-Headers" "Content-Type,Accept,Authorization"
      ∷ field "Access-Control-Allow-Methods" "GET"
      ∷ [];
  body = "";
}
unfolding handle_cors cors value_of apply_options with_allowed_methods with_allowed_origins
    set_field join
preflight_answered = refl

other_origin :
    handle_cors cors echo_method (preflight "https://other.example") fresh
    ≡ record { header = []; body = "OPTIONS" }
unfolding handle_cors cors value_of apply_options with_allowed_methods with_allowed_origins
other_origin = refl

nothing_allowed :
    handle_cors default_cors echo_method (preflight shop) fresh
    ≡ record { header = []; body = "OPTIONS" }
unfolding handle_cors value_of
nothing_allowed = refl

handle_cors-Listed_example :
    (origin_of (handle_cors cors echo_method (preflight shop) fresh) ≡ shop)
    ↔ Listed shop cors.allowed_origins
unfolding value_of
handle_cors-Listed_example =
    handle_cors-Listed cors echo_method (preflight shop) fresh (λ w. refl) refl refl

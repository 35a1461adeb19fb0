-- ===== src/Server/Rest.antt =====
-- The CORS configuration of server/rest/rest.go and the handler that applies it. The fields of a
-- header have the canonical names that net/http gives them. The handler behind is the parameter `h`, and
-- the rest of a response is of a type B. The options of gRPC are of a type D; the part of an option that
-- changes the multiplexer is not modelled.
pub mod Origins
mod Tests
use clouditor.Prelude.{
  String, Bool, true, false, not, ◌&&◌, List, [], ◌∷◌, ◌++◌, keep, contains, ◌==◌, if◌then◌else◌,
}
use clouditor.Policies.Names.{join}

pub record Field : Type 0 where
  pub name : String
  pub value : String

-- Header.Get, which gives the first value of a name.
unfoldable pub value_of : String → List Field → String
value_of name [] = ""
value_of name (f ∷ fs) = let rest = value_of name fs in if f.name == name then f.value else rest

unfoldable pub add_field : String → String → List Field → List Field
add_field name value header = header ++ record { name = name; value = value } ∷ []

-- Header.Set, which replaces all values of a name.
unfoldable pub set_field : String → String → List Field → List Field
unfolding add_field
set_field name value header = add_field name value (keep (λ f. not (f.name == name)) header)

pub record Request : Type 0 where
  pub method : String
  pub header : List Field

pub record ResponseWriter (B : Type 0) : Type 0 where
  pub header : List Field
  pub body : B

pub record CorsConfig : Type 0 where
  pub allowed_origins : List String
  pub allowed_headers : List String
  pub allowed_methods : List String

-- A nil list of origins is the empty one.
abbrev pub default_cors : CorsConfig
default_cors = record {
  allowed_origins = [];
  allowed_headers = "Content-Type" ∷ "Accept" ∷ "Authorization" ∷ [];
  allowed_methods = "GET" ∷ "POST" ∷ "PUT" ∷ "DELETE" ∷ [];
}

pub record Config (D : Type 0) : Type 0 where
  pub cors : CorsConfig
  pub opts : List D

module _ {D : Type 0} where
  unfoldable pub with_allowed_origins : List String → Config D → Config D
  with_allowed_origins origins c = record c { cors = record c.cors { allowed_origins = origins } }

  unfoldable pub with_allowed_headers : List String → Config D → Config D
  with_allowed_headers headers c = record c { cors = record c.cors { allowed_headers = headers } }

  unfoldable pub with_allowed_methods : List String → Config D → Config D
  with_allowed_methods methods c = record c { cors = record c.cors { allowed_methods = methods } }

  unfoldable pub with_additional_grpc_opts : List D → Config D → Config D
  with_additional_grpc_opts opts c = record c { opts = c.opts ++ opts }

  -- The options of RunServer, in their order.
  unfoldable pub apply_options : List (Config D → Config D) → Config D → Config D
  apply_options [] c = c
  apply_options (o ∷ rest) c = apply_options rest (o c)

unfoldable pub origin_allowed : CorsConfig → String → Bool
origin_allowed cors origin = if origin == "" then true else contains cors.allowed_origins origin

unfoldable pub is_preflight : Request → Bool
is_preflight r =
    r.method == "OPTIONS" && not (value_of "Access-Control-Request-Method" r.header == "")

module _ {B : Type 0} where
  -- The header of every response to an allowed origin.
  unfoldable pub allow_origin : String → ResponseWriter B → ResponseWriter B
  allow_origin origin w = record w {
    header = add_field "Vary" "Origin" (set_field "Access-Control-Allow-Origin" origin w.header);
  }

  unfoldable pub answer_preflight : CorsConfig → ResponseWriter B → ResponseWriter B
  answer_preflight cors w = record w {
    header =
        set_field "Access-Control-Allow-Methods" (join cors.allowed_methods ",")
          (set_field "Access-Control-Allow-Headers" (join cors.allowed_headers ",") w.header);
  }

  unfoldable pub handle_cors :
      CorsConfig
      → (Request → ResponseWriter B → ResponseWriter B)
      → Request
      → ResponseWriter B
      → ResponseWriter B
  unfolding origin_allowed is_preflight allow_origin answer_preflight
  handle_cors cors h r w =
      let origin = value_of "Origin" r.header in
      if origin_allowed cors origin
      then (if is_preflight r
          then answer_preflight cors (allow_origin origin w)
          else h r (allow_origin origin w))
      else h r w

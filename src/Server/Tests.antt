-- ===== src/Server/Tests.antt =====
-- A configuration with a set of keys that is fetched.
use clouditor.Prelude.{String, refl, true, Option, none, some}
use clouditor.Status.{ok, err, eof}
use clouditor.Server.{AuthConfig, Keys, parse_token, auth_func}
use clouditor.Server.Authenticated.{Authenticated, auth_func-Authenticated}

-- A context has a bearer token and, once it has been parsed, its claims.
abbrev Context : Type 0
Context = String × Option String

abbrev keys : Keys Context String String String
keys = record {
  get = λ url interval. ok "keys";
  auth_from_md = λ ctx. ok ctx.0;
  parse_with_keys = λ now jwks token. ok token;
  parse_with_public_key = λ now key token. err eof;
  with_value = λ ctx claims. (ctx.0, some claims);
}

abbrev config : Option String → AuthConfig String String
config jwks = record {
  jwks_url = "http://localhost:8080/v1/auth/certs";
  use_jwks = true;
  jwks = jwks;
  public_key = "";
}

auth_func-Authenticated_example :
    Authenticated keys (config none) 7 ("token", none) ("token", some "token")
unfolding auth_func parse_token
auth_func-Authenticated_example =
    auth_func-Authenticated keys (config none) (config (some "keys")) 7 ("token", none)
      ("token", some "token") refl

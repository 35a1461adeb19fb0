-- ===== src/Connection/Authorizer/Tests.antt =====
-- The options for a host that is reached over TLS and for one that is not.
use clouditor.Prelude.{String, ◌≡◌, refl, Option, none, some, List, [], ◌∷◌, ◌==◌, if◌then◌else◌}
use clouditor.Status.{ok, err, eof}
use clouditor.Connection.Authorizer.{
  DialOption, tls, insecure, per_rpc_credentials, additional, get_request_metadata,
  default_grpc_dial_options,
}

abbrev split : String → Option (String × String)
split hostport =
    if hostport == "api.example:443"
    then some ("api.example", "443")
    else if hostport == "localhost:9090"
    then some ("localhost", "9090")
    else none

abbrev options : String → Option (Option String) → List (DialOption String String)
options hostport s = default_grpc_dial_options split hostport s (additional "wait" ∷ [])

secured :
    options "api.example:443" (some (some "me"))
    ≡ tls "api.example" ∷ per_rpc_credentials "me" ∷ additional "wait" ∷ []
unfolding default_grpc_dial_options
secured = refl

local :
    options "localhost:9090" (some (some "me"))
    ≡ insecure ∷ per_rpc_credentials "me" ∷ additional "wait" ∷ []
unfolding default_grpc_dial_options
local = refl

no_authorizer : options "bufnet" (some none) ≡ insecure ∷ additional "wait" ∷ []
unfolding default_grpc_dial_options
no_authorizer = refl

bearer :
    get_request_metadata (err eof) (ok (record { type = "Bearer"; access_token = "abc" }))
    ≡ ok (("authorization", "Bearer abc") ∷ [])
unfolding get_request_metadata
bearer = refl

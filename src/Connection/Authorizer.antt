-- ===== src/Connection/Authorizer.antt =====
-- The authorizer of api/authorizer.go and the options with which a service dials another. The source of
-- tokens, net.SplitHostPort and gRPC's check of the security of a connection are parameters; an authorizer
-- is of a type A and an additional option of a type O.
mod Tests
use clouditor.Prelude.{
  String, Bool, true, false, ◌≡◌, refl, Option, none, some, List, [], ◌∷◌, ◌++◌, ◌==◌,
  if◌then◌else◌,
}
use Prim.Native.String.{◌++◌ as str_append}
use clouditor.Status.{Error, Result, ok, err, panic, wrapped}

-- A token of OAuth 2.0, with what its method Type gives.
pub record Token : Type 0 where
  pub type : String
  pub access_token : String

-- What dialing is told: TLS for a host or none, the credentials of each call, or an additional option.
pub data DialOption (A O : Type 0) : Type 0 where
  tls : String → DialOption A O
  insecure : DialOption A O
  per_rpc_credentials : A → DialOption A O
  additional : O → DialOption A O

-- RequireTransportSecurity
abbrev require_transport_security : Bool
require_transport_security = false

-- The security level of the connection is looked at only where that is required.
unfoldable pub metadata_with : Result (Unit {0}) → Token → Result (List (String × String))
metadata_with level token =
    let fields =
      ("authorization", str_append token.type (str_append " " token.access_token)) ∷ [] in
    if require_transport_security
    then elim level [
      | ok checked ↦ ok fields
      | err e ↦ err (wrapped "unable to transfer OAuthAuthorizer PerRPCCredentials" e)
      | panic ↦ panic
    ]
    else ok fields

unfoldable pub get_request_metadata :
    Result (Unit {0}) → Result Token → Result (List (String × String))
unfolding metadata_with
get_request_metadata level (ok token) = metadata_with level token
get_request_metadata level (err e) = err e
get_request_metadata level panic = panic

module _ {A O : Type 0} where
  unfoldable pub transport : Option (String × String) → DialOption A O
  transport none = insecure
  transport (some (host, port)) = if port == "443" then tls host else insecure

  -- Of a service that may be nil, and whose authorizer may be.
  unfoldable pub credentials_of : Option (Option A) → List (DialOption A O)
  credentials_of none = []
  credentials_of (some none) = []
  credentials_of (some (some authorizer)) = per_rpc_credentials authorizer ∷ []

  unfoldable pub default_grpc_dial_options :
      (String → Option (String × String))
      → String
      → Option (Option A)
      → List (DialOption A O)
      → List (DialOption A O)
  unfolding transport credentials_of
  default_grpc_dial_options split_host_port hostport s additional_opts =
      transport (split_host_port hostport) ∷ credentials_of s ++ additional_opts

-- The token is given to every call, whatever the security of the connection is.
get_request_metadata-insecure :
    (level other : Result (Unit {0})) (r : Result Token)
    → get_request_metadata level r ≡ get_request_metadata other r
unfolding get_request_metadata metadata_with
get_request_metadata-insecure level other (ok token) = refl
get_request_metadata-insecure level other (err e) = refl
get_request_metadata-insecure level other panic = refl

-- ===== src/Auth.antt =====
-- service/authorization.go: who may access which cloud service. The metadata of a context, the
-- bearer token in it and the JWT parser are the parameter `Jwt`.
pub mod Grants
mod Tests
use clouditor.Prelude.{
  String, Bool, true, false, ◌||◌, Option, none, some, List, [], ◌∷◌, ◌==◌, contains, if◌then◌else◌,
}

pub data RequestType : Type 0 where
  access_create access_read access_update access_delete : RequestType

-- The values of a JSON claim. What a number or an object holds is not read.
mutual
  pub data Json : Type 0 where
    null number object : Json
    boolean : Bool → Json
    text : String → Json
    array : Items → Json

  pub data Items : Type 0 where
    nil : Items
    cons : Json → Items → Items

abbrev pub Claims : Type 0
Claims = List (String × Json)

-- `claims[key]`: a missing key reads as the untyped nil.
unfoldable pub claim : Claims → String → Json
claim [] key = null
claim ((k, v) ∷ rest) key = if k == key then v else claim rest key

-- grpc_auth.AuthFromMD for the scheme "bearer", and ParseUnverified; `none` is an error.
pub record Jwt (Ctx : Type 0) : Type 0 where
  pub auth_from_md : Ctx → Option String
  pub parse_unverified : String → Option Claims

-- The interface AuthorizationStrategy. Of a request only GetCloudServiceId is asked for; `none` is
-- the nil context.
pub record AuthorizationStrategy (Ctx : Type 0) : Type 0 where
  pub check_access : Option Ctx → RequestType → String → Bool
  pub allowed_cloud_services : Option Ctx → Bool × List String

-- AuthorizationStrategyJWT
pub record StrategyJwt : Type 0 where
  pub cloud_services_key : String
  pub allow_all_key : String

-- The loop over the array claim: what is no string is passed over.
unfoldable pub strings : Items → List String
strings nil = []
strings (cons (text s) rest) = s ∷ strings rest
strings (cons _ rest) = strings rest

-- `b, ok := claim.(bool); ok && b`
unfoldable pub is_true : Json → Bool
is_true (boolean b) = b
is_true _ = false

-- The assertion that a claim is an array, and the loop.
unfoldable pub string_list : Json → List String
unfolding strings
string_list (array items) = strings items
string_list _ = []

unfoldable pub allowed_by_claims : StrategyJwt → Claims → Bool × List String
unfolding claim is_true string_list
allowed_by_claims a claims =
    if is_true (claim claims a.allow_all_key)
    then (true, [])
    else (false, string_list (claim claims a.cloud_services_key))

-- A failure to read or to parse the token leaves no allowed service.
abbrev or_none : {A : Type 0} → Option A → (A → Bool × List String) → Bool × List String
or_none (some a) f = f a
or_none none f = (false, [])

module _ {Ctx : Type 0} where
  unfoldable pub jwt_allowed_cloud_services :
      Jwt Ctx → StrategyJwt → Option Ctx → Bool × List String
  unfolding allowed_by_claims
  jwt_allowed_cloud_services jwt a none = (false, [])
  jwt_allowed_cloud_services jwt a (some ctx) =
      or_none (jwt.auth_from_md ctx)
        λ token. or_none (jwt.parse_unverified token) λ claims. allowed_by_claims a claims

  unfoldable pub jwt_check_access : Jwt Ctx → StrategyJwt → Option Ctx → RequestType → String → Bool
  unfolding jwt_allowed_cloud_services
  jwt_check_access jwt a ctx typ id =
      let (all, list) = jwt_allowed_cloud_services jwt a ctx in all || contains list id

  unfoldable pub strategy_jwt : Jwt Ctx → StrategyJwt → AuthorizationStrategy Ctx
  unfolding jwt_check_access
  strategy_jwt jwt a = record {
    check_access = jwt_check_access jwt a;
    allowed_cloud_services = jwt_allowed_cloud_services jwt a;
  }

  -- AuthorizationStrategyAllowAll
  abbrev pub strategy_allow_all : AuthorizationStrategy Ctx
  strategy_allow_all = record {
    check_access = λ ctx typ id. true;
    allowed_cloud_services = λ ctx. (true, []);
  }

-- ===== src/Auth/Tests.antt =====
-- The strategies at concrete tokens.
use clouditor.Prelude.{
  String, ◌≡◌, refl, ◌↔◌, true, false, none, some, [], ◌∷◌, ◌==◌, if◌then◌else◌,
}
use clouditor.Auth.{
  Claims, boolean, text, number, array, nil, cons, Jwt, StrategyJwt, access_read, strategy_jwt,
  jwt_check_access,
}
use clouditor.Auth.Grants.{Admits, check_access-Admits}

abbrev keys : StrategyJwt
keys = record { cloud_services_key = "cloudserviceid"; allow_all_key = "cladmin" }

abbrev two_services : Claims
two_services =
    ("cladmin", boolean false)
    ∷ ("cloudserviceid", array (cons (text "a") (cons number (cons (text "b") nil))))
    ∷ []

-- A token names its claims.
abbrev jwt : Jwt String
jwt = record {
  auth_from_md = λ md. if md == "" then none else some md;
  parse_unverified = λ t. if t == "two" then some two_services else none;
}

second_service : jwt_check_access jwt keys (some "two") access_read "b" ≡ true
unfolding jwt_check_access
second_service = refl

no_token : jwt_check_access jwt keys (some "") access_read "b" ≡ false
unfolding jwt_check_access
no_token = refl

nil_context : jwt_check_access jwt keys none access_read "b" ≡ false
unfolding jwt_check_access
nil_context = refl

check_access-Admits_example :
    ((strategy_jwt jwt keys).check_access (some "two") access_read "b" ≡ true)
    ↔ Admits jwt keys (some "two") "b"
check_access-Admits_example = check_access-Admits jwt keys (some "two") access_read "b"

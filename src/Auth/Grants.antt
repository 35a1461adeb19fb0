-- ===== src/Auth/Grants.antt =====
-- Whom the JWT strategy lets in, and what the handlers rely on of any strategy.
use mathlib.Core.Bool.{false≢true}
use clouditor.Prelude.{
  String, ◌≡◌, refl, ◌↔◌, inl, inr, Bool, true, false, ◌||◌, Option, none, some, List, arith, ◌==◌,
  str_eq→eq, str_eq_refl, contains, Bool-cases, Option-cases,
}
use clouditor.Auth.{
  Json, boolean, text, array, null, number, object, Items, nil, cons, Claims, claim, Jwt,
  AuthorizationStrategy, StrategyJwt, RequestType, strings, is_true, string_list, allowed_by_claims,
  jwt_allowed_cloud_services, strategy_jwt, strategy_allow_all,
}

-- A text stands among the items of an array.
pub data Lists (id : String) : Items → Type 0 where
  here : {rest : Items} → Lists id (cons (text id) rest)
  there : {item : Json} {rest : Items} → Lists id rest → Lists id (cons item rest)

-- Claims that let a cloud service be accessed: the flag for all of them, or its ID in the array.
pub data Grants (a : StrategyJwt) (claims : Claims) (id : String) : Type 0 where
  all_services : claim claims a.allow_all_key ≡ boolean true → Grants a claims id
  listed :
      (items : Items)
      → claim claims a.cloud_services_key ≡ array items
      → Lists id items
      → Grants a claims id

-- The context carries a bearer token whose claims grant the access.
pub record Admits {Ctx : Type 0} (jwt : Jwt Ctx) (a : StrategyJwt) (ctx : Option Ctx) (id : String)
    : Type 0 where
  pub metadata : Ctx
  pub given : ctx ≡ some metadata
  pub token : String
  pub bearer : jwt.auth_from_md metadata ≡ some token
  pub claims : Claims
  pub parsed : jwt.parse_unverified token ≡ some claims
  pub grants : Grants a claims id

contains-Lists : (items : Items) (id : String) → contains (strings items) id ≡ true → Lists id items
unfolding strings
contains-Lists nil id h = absurd (cc)
contains-Lists (cons (text s) rest) id h = elim (Bool-cases (s == id)) [
  | inl e ↦ rw (str_eq→eq s id e) here
  | inr e ↦ there (contains-Lists rest id (ground arith))
]
contains-Lists (cons item rest) id h = there (contains-Lists rest id h)

contains-cons :
    (item : Json) (rest : Items) (id : String)
    → contains (strings rest) id ≡ true
    → contains (strings (cons item rest)) id ≡ true
unfolding strings
contains-cons (text s) rest id h = ground arith
contains-cons null rest id h = h
contains-cons number rest id h = h
contains-cons object rest id h = h
contains-cons (boolean b) rest id h = h
contains-cons (array items) rest id h = h

Lists-contains : {id : String} {items : Items} → Lists id items → contains (strings items) id ≡ true
Lists-contains {id = id} (here {rest}) = unfold strings in rw (str_eq_refl id)
Lists-contains {id = id} (there {item} {rest} l) = contains-cons item rest id (Lists-contains l)

is_true-eq : (j : Json) → is_true j ≡ true → j ≡ boolean true
unfolding is_true
is_true-eq (boolean true) h = refl
is_true-eq (boolean false) h = absurd (cc)
is_true-eq null h = absurd (cc)
is_true-eq number h = absurd (cc)
is_true-eq object h = absurd (cc)
is_true-eq (text s) h = absurd (cc)
is_true-eq (array items) h = absurd (cc)

string_list-array :
    (j : Json) (id : String)
    → contains (string_list j) id ≡ true
    → (items : Items) × (j ≡ array items) × Lists id items
unfolding string_list
string_list-array (array items) id h = (items, refl, contains-Lists items id h)
string_list-array null id h = absurd (cc)
string_list-array number id h = absurd (cc)
string_list-array object id h = absurd (cc)
string_list-array (text s) id h = absurd (cc)
string_list-array (boolean b) id h = absurd (cc)

-- What a pair of allowed services says of one of them.
abbrev pub may_access : Bool × List String → String → Bool
may_access (all, list) id = all || contains list id

claims-Grants :
    (a : StrategyJwt) (claims : Claims) (id : String)
    → may_access (allowed_by_claims a claims) id ≡ true
    → Grants a claims id
unfolding allowed_by_claims
claims-Grants a claims id h = elim (Bool-cases (is_true (claim claims a.allow_all_key))) [
  | inl e ↦ all_services (is_true-eq _ e)
  | inr e ↦
      let (items, at, in_list) =
        string_list-array (claim claims a.cloud_services_key) id (rw e at h) in
      listed items at in_list
]

Grants-claims :
    (a : StrategyJwt) (claims : Claims) (id : String)
    → Grants a claims id
    → may_access (allowed_by_claims a claims) id ≡ true
unfolding allowed_by_claims is_true
Grants-claims a claims id (all_services e) = rw e
Grants-claims a claims id (listed items e l) =
    elim (Bool-cases (is_true (claim claims a.allow_all_key))) [
      | inl b ↦ rw b
      | inr b ↦ rw (b, e) (Lists-contains l)
    ]

module _ {Ctx : Type 0} (jwt : Jwt Ctx) (a : StrategyJwt) where
  admits :
      (ctx : Option Ctx) (id : String)
      → may_access (jwt_allowed_cloud_services jwt a ctx) id ≡ true
      → Admits jwt a ctx id
  unfolding jwt_allowed_cloud_services
  admits none id h = absurd (cc)
  admits (some md) id h = elim (Option-cases (jwt.auth_from_md md)) [
    | inl e ↦ absurd (false≢true (rw e at h))
    | inr (token, e) ↦ elim (Option-cases (jwt.parse_unverified token)) [
      | inl e' ↦ absurd (false≢true (rw (e, e') at h))
      | inr (claims, e') ↦ record {
        metadata = md;
        given = refl;
        token = token;
        bearer = e;
        claims = claims;
        parsed = e';
        grants = claims-Grants a claims id (rw (e, e') at h);
      }
    ]
  ]

  -- Access is granted exactly if the context carries a bearer token that parses to claims with the
  -- flag for all services or with the service's ID among the texts of the services' array.
  pub check_access-Admits :
      (ctx : Option Ctx) (typ : RequestType) (id : String)
      → ((strategy_jwt jwt a).check_access ctx typ id ≡ true) ↔ Admits jwt a ctx id
  unfolding strategy_jwt
  check_access-Admits ctx typ id = (
    λ h. admits ctx id h,
    λ m.
        rw (m.given, jwt_allowed_cloud_services, m.bearer, m.parsed)
          (Grants-claims a m.claims id m.grants),
  )

-- The two questions that a strategy answers agree with each other.
pub record Coherent {Ctx : Type 0} (s : AuthorizationStrategy Ctx) : Type 0 where
  pub agree :
      (ctx : Option Ctx) (typ : RequestType) (id : String)
      → s.check_access ctx typ id ≡ may_access (s.allowed_cloud_services ctx) id

pub strategy_jwt-Coherent :
    {Ctx : Type 0} (jwt : Jwt Ctx) (a : StrategyJwt) → Coherent (strategy_jwt jwt a)
unfolding strategy_jwt
strategy_jwt-Coherent jwt a = record { agree = λ ctx typ id. refl }

pub strategy_allow_all-Coherent : {Ctx : Type 0} → Coherent (strategy_allow_all {Ctx = Ctx})
strategy_allow_all-Coherent = record { agree = λ ctx typ id. refl }

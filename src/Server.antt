-- ===== src/Server.antt =====
-- AuthFunc of server/auth_middleware.go, which authenticates the requests of the gRPC server. The set of
-- keys, the bearer token of a context and the JWT parser are the parameter `Keys`. A context is of a type
-- Ctx, a set of keys of a type K, a public key of a type P and the claims of a type C. A set of keys is
-- keyfunc's object, which fetches its keys again at the interval that it is given: what it verifies
-- depends on the time of the request, `now`, as does whether a token has expired.
pub mod Authenticated
pub mod Rest
mod Tests
use clouditor.Prelude.{
  ℕ, ◌*◌, String, Bool, true, false, not, ◌&&◌, Option, none, some, is_some, if◌then◌else◌,
}
use clouditor.Status.{
  Error, Result, ok, err, panic, wrapped, status, failed_precondition, unauthenticated, on_error,
}
use clouditor.Exec.{Exec, pure, lift, gets, modify, map_err, ◌>>=◌, ◌>>◌}

pub record AuthConfig (K P : Type 0) : Type 0 where
  pub jwks_url : String
  pub use_jwks : Bool
  pub jwks : Option K
  pub public_key : P

-- keyfunc.Get with a refresh interval, grpc_auth.AuthFromMD for "bearer", jwt.ParseWithClaims with a set of keys and with a
-- public key, and context.WithValue for the key AuthContextKey.
pub record Keys (Ctx K P C : Type 0) : Type 0 where
  pub get : String → ℕ → Result K
  pub auth_from_md : Ctx → Result String
  pub parse_with_keys : ℕ → K → String → Result C
  pub parse_with_public_key : ℕ → P → String → Result C
  pub with_value : Ctx → C → Ctx

-- time.Hour, in nanoseconds.
abbrev pub refresh_interval : ℕ
refresh_interval = 3600 * 1000000000

abbrev invalid_token : Error → Error
invalid_token e = status unauthenticated "invalid auth token"

-- With a nil set of keys, the method of its that looks for a key panics.
unfoldable pub keyed : {K C : Type 0} → (K → String → Result C) → Option K → String → Result C
keyed parse none token = panic
keyed parse (some jwks) token = parse jwks token

module _ {Ctx K P C : Type 0} (keys : Keys Ctx K P C) where
  -- keyfunc.Get is called until it has given a set of keys.
  unfoldable pub load_jwks : Exec (AuthConfig K P) (Unit {0})
  load_jwks config =
      if not (is_some config.jwks) && config.use_jwks
      then (map_err (λ e. status failed_precondition "could not retrieve JWKS")
              (lift (keys.get config.jwks_url refresh_interval))
            >>= λ jwks. modify (λ c. record c { jwks = some jwks }))
          config
      else (ok tt, config)

  unfoldable pub parse_token : ℕ → String → AuthConfig K P → Result C
  unfolding keyed
  parse_token now token config =
      on_error
        (if config.use_jwks
          then keyed (keys.parse_with_keys now) config.jwks token
          else keys.parse_with_public_key now config.public_key token)
        (λ e. err (wrapped "could not validate JWT" e))

  -- What is done once the keys are there.
  unfoldable pub authenticate : ℕ → Ctx → Exec (AuthConfig K P) Ctx
  unfolding parse_token
  authenticate now ctx = do
    token ← map_err invalid_token (lift (keys.auth_from_md ctx))
    config ← gets (λ c. c)
    token_info ← map_err invalid_token (lift (parse_token now token config))
    pure (keys.with_value ctx token_info)

  unfoldable pub auth_func : ℕ → Ctx → Exec (AuthConfig K P) Ctx
  unfolding load_jwks authenticate
  auth_func now ctx = load_jwks >> authenticate now ctx

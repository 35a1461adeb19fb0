-- ===== src/Server/Authenticated.antt =====
-- Which requests pass AuthFunc of server/auth_middleware.go.
use clouditor.Prelude.{
  ℕ, String, ◌≡◌, inl, inr, refl, sym, ap, true, false, none, some, arith, Bool-cases, Option-cases,
}
use clouditor.Status.{Result, ok, err, panic}
use clouditor.Server.{
  AuthConfig, Keys, keyed, load_jwks, parse_token, authenticate, auth_func, refresh_interval,
}
use clouditor.Exec.Inversion.{Result-cases, Gives-bind}

module _ {Ctx K P C : Type 0} (keys : Keys Ctx K P C) where
  -- The key of a configuration that verifies a token at a time, giving these claims: with JWKS the set
  -- that the configuration has, or else one that its URL gives; without JWKS its public key.
  pub data Verifies (config : AuthConfig K P) (now : ℕ) (token : String) (claims : C) : Type 0 where
    with_kept_keys :
        (jwks : K)
        → config.use_jwks ≡ true
        → config.jwks ≡ some jwks
        → keys.parse_with_keys now jwks token ≡ ok claims
        → Verifies config now token claims
    with_fetched_keys :
        (jwks : K)
        → config.use_jwks ≡ true
        → config.jwks ≡ none
        → keys.get config.jwks_url refresh_interval ≡ ok jwks
        → keys.parse_with_keys now jwks token ≡ ok claims
        → Verifies config now token claims
    with_public_key :
        config.use_jwks ≡ false
        → keys.parse_with_public_key now config.public_key token ≡ ok claims
        → Verifies config now token claims

  -- A request that has passed: its bearer token, and the claims that it gives.
  pub record Authenticated (config : AuthConfig K P) (now : ℕ) (ctx new : Ctx) : Type 0 where
    pub token : String
    pub claims : C
    pub bearer : keys.auth_from_md ctx ≡ ok token
    pub verified : Verifies config now token claims
    pub stored : new ≡ keys.with_value ctx claims

  -- What a token that the loaded configuration accepts has been verified with.
  parsed-Verifies :
      (config : AuthConfig K P) (now : ℕ) (token : String) (claims : C)
      → (load_jwks keys config).0 ≡ ok tt
      → parse_token keys now token (load_jwks keys config).1 ≡ ok claims
      → Verifies config now token claims
  unfolding load_jwks parse_token keyed
  parsed-Verifies config now token claims loaded parsed = elim (Bool-cases config.use_jwks) [
    | inr off ↦ with_public_key off (ground arith)
    | inl on ↦ elim (Option-cases config.jwks) [
      | inr (jwks, kept) ↦ with_kept_keys jwks on kept (ground arith)
      | inl missing ↦ elim (Result-cases (keys.get config.jwks_url refresh_interval)) [
        | inl (jwks, got) ↦ with_fetched_keys jwks on missing got (ground arith)
        | inr (inl (e, failed)) ↦ absurd (ground arith)
        | inr (inr crashed) ↦ absurd (ground arith)
      ]
    ]
  ]

  -- The parts of a call of `authenticate` that has given a context.
  record Passed (config : AuthConfig K P) (now : ℕ) (ctx new : Ctx) : Type 0 where
    token : String
    claims : C
    bearer : keys.auth_from_md ctx ≡ ok token
    parsed : parse_token keys now token config ≡ ok claims
    stored : new ≡ keys.with_value ctx claims

  authenticate-Passed :
      (r : Result String) (config after : AuthConfig K P) (now : ℕ) (ctx new : Ctx)
      → keys.auth_from_md ctx ≡ r
      → authenticate keys now ctx config ≡ (ok new, after)
      → Passed config now ctx new
  unfolding authenticate
  authenticate-Passed (ok token) config after now ctx new e h =
      elim (Result-cases (parse_token keys now token config)) [
        | inl (claims, p) ↦ record {
          token = token;
          claims = claims;
          bearer = e;
          parsed = p;
          stored = ground arith;
        }
        | inr (inl (f, p)) ↦ absurd (ground arith)
        | inr (inr p) ↦ absurd (ground arith)
      ]
  authenticate-Passed (err f) config after now ctx new e h = absurd (ground arith)
  authenticate-Passed panic config after now ctx new e h = absurd (ground arith)

  -- A request passes only with a bearer token that verifies at the time: with JWKS enabled by the set of
  -- keys that the configuration has or else by the one that its URL gives, and without by its public
  -- key. Its new context carries the claims of that token.
  pub auth_func-Authenticated :
      (config after : AuthConfig K P) (now : ℕ) (ctx new : Ctx)
      → auth_func keys now ctx config ≡ (ok new, after)
      → Authenticated config now ctx new
  unfolding auth_func
  auth_func-Authenticated config after now ctx new h =
      let parts =
        Gives-bind (load_jwks keys) (λ u. authenticate keys now ctx) config new after
          (record { result = ap (λ p. p.0) h; state = ap (λ p. p.1) h }) in
      let passed =
        authenticate-Passed (keys.auth_from_md ctx) (load_jwks keys config).1 after now ctx new refl
          (rw (sym parts.then.result, sym parts.then.state) refl) in
      record {
        token = passed.token;
        claims = passed.claims;
        bearer = passed.bearer;
        verified = parsed-Verifies config now passed.token passed.claims parts.first passed.parsed;
        stored = passed.stored;
      }

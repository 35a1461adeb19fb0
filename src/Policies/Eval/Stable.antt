-- ===== src/Policies/Eval/Stable.antt =====
-- Calls of policies/rego.go on the cache of queries that have the same outcome when they are made
-- again: the cache only grows, and it keeps every query that they have used.
use mathlib.Core.Path.{subst}
use clouditor.Prelude.{
  String, ◌≡◌, refl, sym, ap, ◌∙◌, Bool-cases, inl, inr, Option, none, some, ◌==◌, str_eq→eq,
  str_eq_refl, if◌then◌else◌, arith,
}
use clouditor.Prelude.Maps.{Map, lookup, put, lookup-put}
use clouditor.Status.{Error, Result, ok, err, panic}
use clouditor.Exec.{Exec, lift, map_err, rescue, continue, ◌>>=◌}
use clouditor.Policies.{get, keep_query}

pub record Grows {Q : Type 0} (before after : Map Q) : Type 0 where
  pub keeps :
      (key : String) (query : Q) → lookup key before ≡ some query → lookup key after ≡ some query

-- A call that only adds to the cache, and that has its result again with any larger cache.
pub record Stable {Q A : Type 0} (call : Exec (Map Q) A) : Type 0 where
  pub grows : (cache : Map Q) → Grows cache (call cache).1
  pub again :
      (cache after : Map Q) (a : A)
      → (call cache).0 ≡ ok a
      → Grows (call cache).1 after
      → call after ≡ (ok a, after)

rescue-ok : {A : Type 0} (r : Result A) (f : Error → Error) (a : A) → rescue r f ≡ ok a → r ≡ ok a
rescue-ok (ok b) f a h = h
rescue-ok (err e) f a h = absurd (cc)
rescue-ok panic f a h = absurd (cc)

some_of_ok : {A : Type 0} (a b : A) → ok a ≡ ok b → some a ≡ some b
some_of_ok a b e = cc

module _ {Q : Type 0} where
  pub Grows-refl : (cache : Map Q) → Grows cache cache
  Grows-refl cache = record { keeps = λ key query h. h }

  pub Grows-trans : {a b c : Map Q} → Grows a b → Grows b c → Grows a c
  Grows-trans f g = record { keeps = λ key query h. g.keeps key query (f.keeps key query h) }

  pub Stable-lift : {A : Type 0} (r : Result A) → Stable {Q = Q} (lift r)
  Stable-lift r = record { grows = Grows-refl; again = λ cache after a h g. ap (λ x. (x, after)) h }

module _ {Q A : Type 0} where
  pub Stable-map_err :
      (f : Error → Error) (call : Exec (Map Q) A) → Stable call → Stable (map_err f call)
  Stable-map_err f call stable = record {
    grows = stable.grows;
    again = λ cache after a h g.
        ap (λ p. (rescue p.0 f, p.1))
          (stable.again cache after a (rescue-ok (call cache).0 f a h) g);
  }

  continue-Grows :
      {B : Type 0} (next : A → Exec (Map Q) B)
      → ((a : A) → Stable (next a))
      → (r : Result A) (cache between : Map Q) → Grows cache between
      → Grows cache (continue r next between).1
  continue-Grows next stable (ok a) cache between g = Grows-trans g ((stable a).grows between)
  continue-Grows next stable (err e) cache between g = g
  continue-Grows next stable panic cache between g = g

  bind-again :
      {B : Type 0} (call : Exec (Map Q) A) (next : A → Exec (Map Q) B)
      → Stable call
      → ((a : A) → Stable (next a))
      → (cache after : Map Q) (b : B) (r : Result A) → (call cache).0 ≡ r
      → (continue r next (call cache).1).0 ≡ ok b
      → Grows (continue r next (call cache).1).1 after
      → (call >>= next) after ≡ (ok b, after)
  bind-again call next first rest cache after b (ok a) e h g =
      ap (λ p. continue p.0 next p.1)
        (first.again cache after a e (Grows-trans ((rest a).grows (call cache).1) g))
      ∙ (rest a).again (call cache).1 after b h g
  bind-again call next first rest cache after b (err f) e h g = absurd (cc)
  bind-again call next first rest cache after b panic e h g = absurd (cc)

  pub Stable-bind :
      {B : Type 0} (call : Exec (Map Q) A) (next : A → Exec (Map Q) B)
      → Stable call
      → ((a : A) → Stable (next a))
      → Stable (call >>= next)
  Stable-bind call next first rest = record {
    grows =
        λ cache. continue-Grows next rest (call cache).0 cache (call cache).1 (first.grows cache);
    again =
        λ cache after b h g. bind-again call next first rest cache after b (call cache).0 refl h g;
  }

module _ {Q : Type 0} (key : String) where
  put-Grows :
      (query : Q) (cache : Map Q) → lookup key cache ≡ none → Grows cache (put key query cache)
  put-Grows query cache missing = record { keeps = λ k q h. kept k q h }
    where
      kept :
          (k : String) (q : Q) → lookup k cache ≡ some q → lookup k (put key query cache) ≡ some q
      kept k q h = elim (Bool-cases (key == k)) [
        | inl same ↦ absurd (cc (missing, ap (λ x. lookup x cache) (str_eq→eq key k same), h))
        | inr other ↦
            lookup-put key k query cache
            ∙ ap (λ b. if b then some query else lookup k cache) other
            ∙ h
      ]

  get-found :
      (or_else : String → Result Q) (cache : Map Q) (query : Q)
      → lookup key cache ≡ some query
      → get key or_else cache ≡ (ok query, cache)
  unfolding get
  get-found or_else cache query h = ground arith

  get-missing :
      (or_else : String → Result Q) (cache : Map Q)
      → lookup key cache ≡ none
      → get key or_else cache ≡ keep_query key (or_else key) cache
  unfolding get
  get-missing or_else cache h = ground arith

  keep_query-Grows :
      (r : Result Q) (cache : Map Q)
      → lookup key cache ≡ none
      → Grows cache (keep_query key r cache).1
  unfolding keep_query
  keep_query-Grows (ok query) cache missing = put-Grows query cache missing
  keep_query-Grows (err e) cache missing = Grows-refl cache
  keep_query-Grows panic cache missing = Grows-refl cache

  keep_query-lookup :
      (r : Result Q) (cache : Map Q) (query : Q)
      → (keep_query key r cache).0 ≡ ok query
      → lookup key (keep_query key r cache).1 ≡ some query
  unfolding keep_query
  keep_query-lookup (ok given) cache query h =
      lookup-put key key given cache
      ∙ ap (λ b. if b then some given else lookup key cache) (str_eq_refl key)
      ∙ some_of_ok given query h
  keep_query-lookup (err e) cache query h = absurd (cc)
  keep_query-lookup panic cache query h = absurd (cc)

  pub Stable-get : (or_else : String → Result Q) → Stable (get key or_else)
  Stable-get or_else = record {
    grows = λ cache. grows cache (lookup key cache) refl;
    again = λ cache after query h g.
        get-found or_else after query
          (g.keeps key query (kept cache query (lookup key cache) refl h));
  }
    where
      grows :
          (cache : Map Q) (entry : Option Q)
          → lookup key cache ≡ entry
          → Grows cache (get key or_else cache).1
      grows cache none e =
          subst (λ p. Grows cache p.1) (sym (get-missing or_else cache e))
            (keep_query-Grows (or_else key) cache e)
      grows cache (some query) e =
          subst (λ p. Grows cache p.1) (sym (get-found or_else cache query e)) (Grows-refl cache)

      kept :
          (cache : Map Q) (query : Q) (entry : Option Q)
          → lookup key cache ≡ entry
          → (get key or_else cache).0 ≡ ok query
          → lookup key (get key or_else cache).1 ≡ some query
      kept cache query none e h =
          subst (λ p. lookup key p.1 ≡ some query) (sym (get-missing or_else cache e))
            (keep_query-lookup (or_else key) cache query
              (ap (λ p. p.0) (sym (get-missing or_else cache e)) ∙ h))
      kept cache query (some q) e h =
          subst (λ p. lookup key p.1 ≡ some query) (sym (get-found or_else cache q e))
            (e ∙ some_of_ok q query (ap (λ p. p.0) (sym (get-found or_else cache q e)) ∙ h))

-- ===== src/Policies/Eval/Again.antt =====
-- Eval of policies/rego.go called again for the same evidence, when both caches are filled.
use mathlib.Core.Path.{subst, subst₂}
use clouditor.Prelude.{
  String, ◌≡◌, refl, sym, ap, ◌∙◌, Bool-cases, inl, inr, Option, none, some, List, [], ◌∷◌,
  str_eq_refl, if◌then◌else◌,
}
use clouditor.Prelude.Maps.{Map, lookup, put, lookup-put}
use clouditor.Status.{Result, ok, err, panic, wrapped}
use clouditor.Exec.{Exec, pure, raise, rescue, attempt, attempted, continue, ◌>>=◌}
use clouditor.Policies.Names.{Unicode, create_key}
use clouditor.Policies.Query.{EvalResult, Engine, MetricsSource}
use clouditor.Policies.Eval.{
  is_missing, RegoEval, entry_metrics, cached_metrics, eval_map, add_applicable, keep_applicable,
  run_metrics, run_cached, on_queries, store_metrics, eval_metrics, eval,
}
use clouditor.Policies.Eval.Stable.{Grows, Grows-refl, Grows-trans}
use clouditor.Policies.Eval.Grown.{
  after_first, eval_map-Stable, run_cached-Stable, run_metrics-Grows,
}

ok-injective : {A : Type 0} {a b : A} → ok a ≡ ok b → a ≡ b
ok-injective h = cc

module _ {Tx Q Input Conf Impl : Type 0} (unicode : Unicode) (engine : Engine Tx Q Input Conf Impl)
    (hash : Conf → String) (pkg : String) (src : MetricsSource Conf Impl) where
  abbrev cached_loop : String → Input → List String → Exec (Map Q) (List (EvalResult Conf))
  cached_loop = run_cached unicode engine hash pkg src

  cached_first :
      (service_id metric_id : String) (input : Input) (result : EvalResult Conf)
      (found : List String × List (EvalResult Conf)) (after : Map Q)
      → eval_map unicode engine hash pkg src service_id metric_id input after
        ≡ (ok (some result), after)
      → cached_loop service_id input found.0 after ≡ (ok found.1, after)
      → cached_loop service_id input (metric_id ∷ found.0) after ≡ (ok (result ∷ found.1), after)
  unfolding run_cached
  cached_first service_id metric_id input result found after h k = rw (h, k) refl

  first_again :
      (service_id metric_id : String) (input : Input)
      (rest : Exec (Map Q) (List String × List (EvalResult Conf)))
      → ((cache : Map Q) → Grows cache (rest cache).1)
      → ((cache after : Map Q) (found : List String × List (EvalResult Conf))
          → (rest cache).0 ≡ ok found
          → Grows (rest cache).1 after
          → cached_loop service_id input found.0 after ≡ (ok found.1, after))
      → (cache after : Map Q) (found : List String × List (EvalResult Conf))
        (r : Result (Option (EvalResult Conf)))
      → ((later : Map Q) (a : Option (EvalResult Conf))
          → r ≡ ok a
          → Grows cache later
          → eval_map unicode engine hash pkg src service_id metric_id input later ≡ (ok a, later))
      → (after_first unicode engine hash pkg src metric_id rest r cache).0 ≡ ok found
      → Grows (after_first unicode engine hash pkg src metric_id rest r cache).1 after
      → cached_loop service_id input found.0 after ≡ (ok found.1, after)
  unfolding keep_applicable
  first_again service_id metric_id input rest grows again cache after found (ok none) first h g =
      again cache after found h g
  first_again service_id metric_id input rest grows again cache after found (ok (some result)) first
        h g =
      added (rest cache).0 refl h g
    where
      added :
          (r : Result (List String × List (EvalResult Conf)))
          → (rest cache).0 ≡ r
          → (continue r
              (λ found. pure (add_applicable unicode engine hash pkg src metric_id result found))
              (rest cache).1).0
            ≡ ok found
          → Grows
              (continue r
                (λ found. pure (add_applicable unicode engine hash pkg src metric_id result found))
                (rest cache).1).1
              after
          → cached_loop service_id input found.0 after ≡ (ok found.1, after)
      added (ok others) e h g =
          subst (λ f. cached_loop service_id input f.0 after ≡ (ok f.1, after)) (ok-injective h)
            (cached_first service_id metric_id input result others after
              (first after (some result) refl (Grows-trans (grows cache) g))
              (again cache after others e g))
      added (err f) e h g = absurd (cc)
      added panic e h g = absurd (cc)
  first_again service_id metric_id input rest grows again cache after found (err e) first h g =
      elim (Bool-cases (is_missing e)) [
        | inl missing ↦
            again cache after found
              (ap (λ b. ((if b then rest else raise e) cache).0) (sym missing) ∙ h)
              (subst (λ b. Grows ((if b then rest else raise e) cache).1 after) missing g)
        | inr other ↦
            absurd (cc (ap (λ b. ((if b then rest else raise e) cache).0) (sym other) ∙ h))
      ]
  first_again service_id metric_id input rest grows again cache after found panic first h g =
      absurd (cc)

  run_metrics-run_cached :
      (service_id : String) (input : Input) (names : List String) (cache after : Map Q)
      (found : List String × List (EvalResult Conf))
      → (run_metrics unicode engine hash pkg src service_id input names cache).0 ≡ ok found
      → Grows (run_metrics unicode engine hash pkg src service_id input names cache).1 after
      → cached_loop service_id input found.0 after ≡ (ok found.1, after)
  unfolding run_metrics
  run_metrics-run_cached service_id input [] cache after found h g =
      subst (λ f. cached_loop service_id input f.0 after ≡ (ok f.1, after)) (ok-injective h)
        (nothing after)
    where
      nothing : (after : Map Q) → cached_loop service_id input [] after ≡ (ok [], after)
      nothing after = unfold run_cached in refl
  run_metrics-run_cached service_id input (metric_id ∷ rest) cache after found h g =
      let once = eval_map unicode engine hash pkg src service_id metric_id input cache in
      first_again service_id metric_id input
        (run_metrics unicode engine hash pkg src service_id input rest)
        (run_metrics-Grows unicode engine hash pkg src service_id input rest)
        (run_metrics-run_cached service_id input rest) once.1 after found once.0
        (λ later a e larger.
          (eval_map-Stable unicode engine hash pkg src service_id metric_id input).again cache later
            a e larger)
        h g

  -- What a state must give: a further call has the same results, and leaves the state.
  Again : String → String → Input → List (EvalResult Conf) → RegoEval Q → Type 0
  Again key service_id input results re =
      eval_metrics unicode engine hash pkg src key service_id input (cached_metrics key re.mrtc) re
      ≡ (ok results, re)

  run_cached-Again :
      (key service_id : String) (input : Input) (names : List String)
      (results : List (EvalResult Conf)) (re : RegoEval Q)
      → cached_metrics key re.mrtc ≡ some names
      → cached_loop service_id input names re.qc ≡ (ok results, re.qc)
      → Again key service_id input results re
  unfolding Again eval_metrics
  run_cached-Again key service_id input names results re h k =
      ap (λ entry. eval_metrics unicode engine hash pkg src key service_id input entry re) h
      ∙ ap (λ p. (p.0, record re { qc = p.1 })) k

  fresh-Again :
      (key service_id : String) (input : Input) (names : List String) (re : RegoEval Q)
      (results : List (EvalResult Conf)) (after : RegoEval Q)
      (r : Result (List String × List (EvalResult Conf))) (qc : Map Q)
      → run_metrics unicode engine hash pkg src service_id input names re.qc ≡ (r, qc)
      → continue
          (attempted r (record re { qc = qc })).0
          (store_metrics unicode engine hash pkg src key)
          (attempted r (record re { qc = qc })).1
        ≡ (ok results, after)
      → Again key service_id input results after
  unfolding store_metrics
  fresh-Again key service_id input names re results after (ok found) qc e h =
      subst₂ (λ results after. Again key service_id input results after)
        (ok-injective (ap (λ p. p.0) h)) (ap (λ p. p.1) h)
        (run_cached-Again key service_id input found.0 found.1
          (record { mrtc = put key (some found.0) re.mrtc; qc = qc })
          (ap entry_metrics (
            lookup-put key key (some found.0) re.mrtc
            ∙ ap (λ b. if b then some (some found.0) else lookup key re.mrtc) (str_eq_refl key)))
          (run_metrics-run_cached service_id input names re.qc qc found (ap (λ p. p.0) e)
            (subst (λ p. Grows p.1 qc) (sym e) (Grows-refl qc))))
  fresh-Again key service_id input names re results after (err f) qc e h =
      absurd (cc (ap (λ p. p.0) h))
  fresh-Again key service_id input names re results after panic qc e h =
      absurd (cc (ap (λ p. p.0) h))

  eval_metrics-Again :
      (key service_id : String) (input : Input) (re : RegoEval Q) (results : List (EvalResult Conf))
      (after : RegoEval Q) (cached : Option (List String))
      → cached_metrics key re.mrtc ≡ cached
      → eval_metrics unicode engine hash pkg src key service_id input cached re
        ≡ (ok results, after)
      → Again key service_id input results after
  unfolding eval_metrics
  eval_metrics-Again key service_id input re results after (some names) e h =
      let qc = (cached_loop service_id input names re.qc).1 in
      subst (λ after. Again key service_id input results after) (ap (λ p. p.1) h)
        (run_cached-Again key service_id input names results (record re { qc = qc }) e
          ((run_cached-Stable unicode engine hash pkg src service_id input names).again re.qc qc
            results (ap (λ p. p.0) h) (Grows-refl qc)))
  eval_metrics-Again key service_id input re results after none e h = loaded src.metrics h
    where
      loaded :
          (r : Result (List String))
          → continue
              (rescue r (λ e. wrapped "could not retrieve metric definitions" e))
              (λ names.
                attempt (
                  on_queries unicode engine hash pkg src
                    (run_metrics unicode engine hash pkg src service_id input names))
                >>= store_metrics unicode engine hash pkg src key)
              re
            ≡ (ok results, after)
          → Again key service_id input results after
      loaded (ok names) h = fresh-Again key service_id input names re results after _ _ refl h
      loaded (err f) h = absurd (cc (ap (λ p. p.0) h))
      loaded panic h = absurd (cc (ap (λ p. p.0) h))

  -- A call that has had results has the same ones when it is made again, from the caches that it has
  -- left, and it leaves them as they are.
  pub eval-eval :
      (tool_id service_id : String) (resource_map : Result Input) (types : List String)
      (re : RegoEval Q) (results : List (EvalResult Conf)) (after : RegoEval Q)
      → eval unicode engine hash pkg src tool_id service_id resource_map types re
        ≡ (ok results, after)
      → eval unicode engine hash pkg src tool_id service_id resource_map types after
        ≡ (ok results, after)
  unfolding eval Again
  eval-eval tool_id service_id (ok input) types re results after h =
      eval_metrics-Again (create_key tool_id types) service_id input re results after _ refl h
  eval-eval tool_id service_id (err e) types re results after h = absurd (cc (ap (λ p. p.0) h))
  eval-eval tool_id service_id panic types re results after h = absurd (cc (ap (λ p. p.0) h))

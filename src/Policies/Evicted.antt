-- ===== src/Policies/Evicted.antt =====
-- What the query cache gives after a metric has been evicted.
use Prim.Native.Char.{Char, code}
use Prim.Native.String.{◌++◌ as str_append}
use text.Mathlib.TextLemmas.{cons-append}
use clouditor.Prelude.{
  ℕ, String, ◌≡◌, refl, sym, ap, ◌∙◌, true, ◌&&◌, Bool-cases, inl, inr, none, [], ◌∷◌, ◌==◌, ◌==ℕ◌,
  arith, str_eq→eq, if◌then◌else◌,
}
use clouditor.Prelude.Maps.{Map, lookup}
use clouditor.Status.{Result}
use clouditor.Policies.{
  MetricChangeEvent, has_prefix, query_key, get, keep_query, evict, handle_metric_event,
}

has_prefix-cons :
    (c : Char) (s t : String) → has_prefix (String.◌∷◌ c s) (String.◌∷◌ c t) ≡ has_prefix s t
unfolding has_prefix
has_prefix-cons c s t = ap (λ b. b && has_prefix s t) (same (code c))
  where
    same : (n : ℕ) → (n ==ℕ n) ≡ true
    same n = ground arith

has_prefix-append : (t s : String) → has_prefix (str_append t s) t ≡ true
has_prefix-append String.[] s = unfold has_prefix in refl
has_prefix-append (String.◌∷◌ c t) s =
    ap (λ u. has_prefix u (String.◌∷◌ c t)) (cons-append c t s)
    ∙ has_prefix-cons c (str_append t s) t
    ∙ has_prefix-append t s

-- Evicting a metric removes exactly the entries whose key begins with its ID.
pub lookup-evict :
    {Q : Type 0} (metric key : String) (cache : Map Q)
    → lookup key (evict metric cache) ≡ (if has_prefix key metric then none else lookup key cache)
unfolding lookup evict
lookup-evict metric key [] = ground arith
lookup-evict metric key ((k, query) ∷ rest) = elim (Bool-cases (has_prefix k metric)) [
  | inl p ↦ elim (Bool-cases (k == key)) [
    | inl e ↦ rw p (
        lookup-evict metric key rest
        ∙ rw (sym (ap (λ t. has_prefix t metric) (str_eq→eq k key e)) ∙ p))
    | inr e ↦ rw (p, e) (lookup-evict metric key rest)
  ]
  | inr p ↦ elim (Bool-cases (k == key)) [
    | inl e ↦ rw (p, e, sym (ap (λ t. has_prefix t metric) (str_eq→eq k key e)) ∙ p)
    | inr e ↦ rw (p, e) (lookup-evict metric key rest)
  ]
]

lookup-evicted :
    {Q : Type 0} (metric key : String) (cache : Map Q)
    → has_prefix key metric ≡ true
    → lookup key (evict metric cache) ≡ none
lookup-evicted metric key cache p = let removed = lookup-evict metric key cache in rw p at removed

get-missing :
    {Q : Type 0} (key : String) (or_else : String → Result Q) (cache : Map Q)
    → lookup key cache ≡ none
    → get key or_else cache ≡ keep_query key (or_else key) cache
unfolding get
get-missing key or_else cache h = ground arith

-- After an event about a metric, whatever its type, the next query of the metric is prepared anew:
-- Get returns what orElse gives and keeps it.
pub get-handle_metric_event :
    {Q : Type 0} (event : MetricChangeEvent) (service_id hash : String)
    (or_else : String → Result Q) (cache : Map Q)
    → get (query_key event.metric_id service_id hash) or_else (handle_metric_event event cache)
      ≡ keep_query
          (query_key event.metric_id service_id hash)
          (or_else (query_key event.metric_id service_id hash))
          (handle_metric_event event cache)
unfolding handle_metric_event
get-handle_metric_event event service_id hash or_else cache =
    get-missing (query_key event.metric_id service_id hash) or_else (evict event.metric_id cache) (
      lookup-evicted event.metric_id (query_key event.metric_id service_id hash) cache (
        has_prefix-append event.metric_id
          (str_append "-" (str_append service_id (str_append "-" hash)))))

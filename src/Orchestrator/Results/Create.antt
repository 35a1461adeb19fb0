-- ===== src/Orchestrator/Results/Create.antt =====
-- What storing assessment results leaves behind.
use mathlib.Core.List.{append_assoc, append-nil}
use clouditor.Prelude.{
  ◌≡◌, refl, sym, ap, ◌∙◌, ◌⊎◌, inl, inr, true, Option, none, some, List, [], ◌∷◌, ◌++◌, arith,
  if◌then◌else◌,
}
use clouditor.Status.{Error, ok, err, panic}
use clouditor.Auth.{AuthorizationStrategy, access_read}
use clouditor.Validate.{Rules}
use clouditor.Storage.{Table}
use clouditor.Stream.{Turn, Reply}
use clouditor.Stream.Served.{Served, all_served, stored, refused, heard, serve-Served}
use clouditor.Orchestrator.Results.{
  AssessmentResult, StoreRequest, Service, calls, store_assessment_result, store_assessment_results,
}

-- The calls of hooks for the requests that are answered by success.
abbrev pub reported_calls :
    {H : Type 0} → List H → List StoreRequest → List Reply → List (H × AssessmentResult)
reported_calls hooks (req ∷ reqs) (reply ∷ replies) =
    let rest = reported_calls hooks reqs replies in
    if reply.handled then calls hooks req.result ++ rest else rest
reported_calls hooks _ _ = []

module _ {D H Ctx : Type 0} (authz : AuthorizationStrategy Ctx) (table : Table D AssessmentResult)
    (rules : Rules StoreRequest) (ctx : Option Ctx) where
  -- What has been checked and done when an assessment result has been stored.
  pub record ResultStored (req : StoreRequest) (s t : Service D H) : Type 0 where
    pub valid : rules req ≡ none
    pub access : authz.check_access ctx access_read req.result.cloud_service_id ≡ true
    pub written : table.create req.result s.db ≡ (ok tt, t.db)
    pub hooks : t.hooks ≡ s.hooks
    pub informed : t.informed ≡ s.informed ++ calls s.hooks req.result

  store_assessment_result-ResultStored :
      (req : StoreRequest) (s t : Service D H)
      → store_assessment_result authz table rules ctx (some req) s ≡ (ok tt, t)
      → ResultStored req s t
  unfolding store_assessment_result
  store_assessment_result-ResultStored req s t h = record {
    valid = ground arith;
    access = ground arith;
    written = ground arith;
    hooks = ground arith;
    informed = ground arith;
  }

  store_assessment_result-refused :
      (req : StoreRequest) (s t : Service D H) (e : Error)
      → store_assessment_result authz table rules ctx (some req) s ≡ (err e, t)
      → (t.informed ≡ s.informed) × (t.hooks ≡ s.hooks)
  unfolding store_assessment_result
  store_assessment_result-refused req s t e h = (ground arith, ground arith)

  Served-reported :
      {reqs : List StoreRequest} {replies : List Reply} {s t : Service D H}
      → Served (store_assessment_result authz table rules ctx) reqs s replies t
      → (t.informed ≡ s.informed ++ reported_calls s.hooks reqs replies) × (t.hooks ≡ s.hooks)
  Served-reported (all_served s) = (sym (append-nil s.informed), refl)
  Served-reported (stored {req} {reqs} {res} {replies} {s} {t} {u} one rest) =
      let first = store_assessment_result-ResultStored req s t one in
      let (informed, same) = Served-reported rest in
      (
        informed
            ∙ ap (λ hs. t.informed ++ reported_calls hs reqs replies) first.hooks
            ∙ ap (λ xs. xs ++ reported_calls s.hooks reqs replies) first.informed
            ∙ append_assoc s.informed (calls s.hooks req.result)
                (reported_calls s.hooks reqs replies),
        same ∙ first.hooks,
      )
  Served-reported (refused {req} {reqs} {e} {replies} {s} {t} {u} one rest) =
      let (kept, same_hooks) = store_assessment_result-refused req s t e one in
      let (informed, same) = Served-reported rest in
      (
        informed
            ∙ ap (λ hs. t.informed ++ reported_calls hs reqs replies) same_hooks
            ∙ ap (λ xs. xs ++ reported_calls s.hooks reqs replies) kept,
        same ∙ same_hooks,
      )

  -- A stream of assessment results that does not end in a panic has informed the hooks that were
  -- registered of exactly those results whose reply says that they were stored, in order.
  pub store_assessment_results-informed :
      (turns : List (Turn StoreRequest)) (s : Service D H)
      → let out = store_assessment_results authz table rules ctx turns s in
        (out.0 ≡ panic)
        ⊎ (out.1.1.informed ≡ s.informed ++ reported_calls s.hooks (heard turns) out.1.0)
  unfolding store_assessment_results
  store_assessment_results-informed turns s =
      elim (serve-Served (store_assessment_result authz table rules ctx) turns s) [
        | inl p ↦ inl p
        | inr served ↦ inr (Served-reported served).0
      ]

-- ===== src/Evidence/Stored.antt =====
-- What storing evidences leaves behind.
use mathlib.Core.List.{append_assoc, append-nil}
use clouditor.Prelude.{
  ◌≡◌, refl, sym, ap, ◌∙◌, true, Option, none, some, List, [], ◌∷◌, ◌++◌, arith, if◌then◌else◌,
}
use clouditor.Status.{Error, ok, err}
use clouditor.Auth.{AuthorizationStrategy, access_update}
use clouditor.Validate.{Rules}
use clouditor.Storage.{Table}
use clouditor.Stream.{Reply}
use clouditor.Stream.Served.{Served, all_served, stored, refused}
use clouditor.Evidence.{Evidence, StoreRequest, Service, store_evidence}

-- The requests of those that are answered by success.
abbrev pub accepted : List StoreRequest → List Reply → List Evidence
accepted (req ∷ reqs) (reply ∷ replies) =
    let rest = accepted reqs replies in if reply.handled then req.evidence ∷ rest else rest
accepted _ _ = []

module _ {D H Ctx : Type 0} (authz : AuthorizationStrategy Ctx) (table : Table D Evidence)
    (rules : Rules StoreRequest) (ctx : Option Ctx) where
  -- What has been checked and done when an evidence has been stored.
  pub record Stored (req : StoreRequest) (s t : Service D H) : Type 0 where
    pub valid : rules req ≡ none
    pub access : authz.check_access ctx access_update req.evidence.cloud_service_id ≡ true
    pub written : table.create req.evidence s.db ≡ (ok tt, t.db)
    pub hooks : t.evidence_hooks ≡ s.evidence_hooks
    pub started : t.started ≡ s.started ++ req.evidence ∷ []
    pub informed : t.informed ≡ s.informed

  -- An evidence is stored only for a valid request of a caller with access; it is written to the
  -- database, and a goroutine is started that informs the hooks of it.
  pub store_evidence-Stored :
      (req : StoreRequest) (s t : Service D H)
      → store_evidence authz table rules ctx (some req) s ≡ (ok tt, t)
      → Stored req s t
  unfolding store_evidence
  store_evidence-Stored req s t h = record {
    valid = ground arith;
    access = ground arith;
    written = ground arith;
    hooks = ground arith;
    started = ground arith;
    informed = ground arith;
  }

  -- What the goroutines have to do after a stream that came from `s` and has started those of `evs`.
  pub record Started (evs : List Evidence) (s t : Service D H) : Type 0 where
    pub started : t.started ≡ s.started ++ evs
    pub informed : t.informed ≡ s.informed
    pub hooks : t.evidence_hooks ≡ s.evidence_hooks

  store_evidence-refused :
      (req : StoreRequest) (s t : Service D H) (e : Error)
      → store_evidence authz table rules ctx (some req) s ≡ (err e, t)
      → (t.started ≡ s.started)
        × ((t.informed ≡ s.informed) × (t.evidence_hooks ≡ s.evidence_hooks))
  unfolding store_evidence
  store_evidence-refused req s t e h = (ground arith, (ground arith, ground arith))

  pub Served-Started :
      {reqs : List StoreRequest} {replies : List Reply} {s t : Service D H}
      → Served (store_evidence authz table rules ctx) reqs s replies t
      → Started (accepted reqs replies) s t
  Served-Started (all_served s) = record {
    started = sym (append-nil s.started);
    informed = refl;
    hooks = refl;
  }
  Served-Started (stored {req} {reqs} {res} {replies} {s} {t} {u} one rest) =
      let first = store_evidence-Stored req s t one in
      let others = Served-Started rest in
      record {
        started =
            others.started
            ∙ ap (λ xs. xs ++ accepted reqs replies) first.started
            ∙ append_assoc s.started (req.evidence ∷ []) (accepted reqs replies);
        informed = others.informed ∙ first.informed;
        hooks = others.hooks ∙ first.hooks;
      }
  Served-Started (refused {req} {reqs} {e} {replies} {s} {t} {u} one rest) =
      let (started, (informed, hooks)) = store_evidence-refused req s t e one in
      let others = Served-Started rest in
      record {
        started = others.started ∙ ap (λ xs. xs ++ accepted reqs replies) started;
        informed = others.informed ∙ informed;
        hooks = others.hooks ∙ hooks;
      }

-- ===== src/Evidence/Informed.antt =====
-- What the hooks of service/evidence/evidence_store.go are informed of by the goroutines that
-- StoreEvidence starts. Nothing else reads what they write, so that they run when the stream has ended;
-- no hook is registered meanwhile.
use mathlib.Core.Path.{subst}
use mathlib.Core.List.{append_assoc, append-nil, Perm, perm_middle}
use mathlib.Core.List.Perm
use clouditor.Prelude.{◌≡◌, refl, sym, ap, ◌∙◌, ◌⊎◌, inl, inr, Option, List, [], ◌∷◌, ◌++◌}
use clouditor.Status.{panic}
use clouditor.Auth.{AuthorizationStrategy}
use clouditor.Validate.{Rules}
use clouditor.Storage.{Table}
use clouditor.Stream.{Turn}
use clouditor.Stream.Served.{heard, serve-Served}
use clouditor.Evidence.{
  Evidence, StoreRequest, Service, calls, inform_hooks, store_evidence, store_evidences,
}
use clouditor.Evidence.Stored.{accepted, Served-Started}

-- Every hook informed of every evidence.
abbrev pub all_calls : {H : Type 0} → List H → List Evidence → List (H × Evidence)
all_calls hooks [] = []
all_calls hooks (ev ∷ evs) = calls hooks ev ++ all_calls hooks evs

-- The goroutines that have been started run, one after the other in any order.
pub data Runs {D H : Type 0} : Service D H → Service D H → Type 0 where
  finished : {s : Service D H} → s.started ≡ [] → Runs s s
  runs :
      {s t : Service D H} (ev : Evidence) (before after : List Evidence)
      → s.started ≡ before ++ ev ∷ after
      → Runs (inform_hooks ev (record s { started = before ++ after })).1 t
      → Runs s t

swap : {A : Type 0} (xs ys zs : List A) → Perm (xs ++ (ys ++ zs)) (ys ++ (xs ++ zs))
swap [] ys zs = Perm.refl (ys ++ zs)
swap (x ∷ xs) ys zs =
    Perm.trans (Perm.cons x (swap xs ys zs)) (Perm.symm (perm_middle ys (xs ++ zs)))

all_calls-middle :
    {H : Type 0} (hooks : List H) (ev : Evidence) (before after : List Evidence)
    → Perm
        (calls hooks ev ++ all_calls hooks (before ++ after))
        (all_calls hooks (before ++ ev ∷ after))
all_calls-middle hooks ev [] after = Perm.refl _
all_calls-middle hooks ev (b ∷ before) after =
    Perm.trans (swap (calls hooks ev) (calls hooks b) (all_calls hooks (before ++ after)))
      (Perm.append_left (calls hooks b) (all_calls-middle hooks ev before after))

module _ {D H : Type 0} where
  Runs-informed :
      {s t : Service D H}
      → Runs s t
      → Perm t.informed (s.informed ++ all_calls s.evidence_hooks s.started)
  unfolding inform_hooks
  Runs-informed (finished {s} none_left) =
      subst (λ l. Perm s.informed l)
        (sym (
          ap (λ evs. s.informed ++ all_calls s.evidence_hooks evs) none_left
          ∙ append-nil s.informed))
        (Perm.refl s.informed)
  Runs-informed (runs {s} {t} ev before after h rest) =
      let hooks = s.evidence_hooks in
      subst (λ evs. Perm t.informed (s.informed ++ all_calls hooks evs)) (sym h)
        (Perm.trans
          (subst (λ l. Perm t.informed l)
            (append_assoc s.informed (calls hooks ev) (all_calls hooks (before ++ after)))
            (Runs-informed rest))
          (Perm.append_left s.informed (all_calls-middle hooks ev before after)))

  -- The goroutines can always run to the end.
  Runs-total :
      (evs : List Evidence) (s : Service D H) → s.started ≡ evs → (t : Service D H) × Runs s t
  unfolding inform_hooks
  Runs-total [] s h = (s, finished h)
  Runs-total (ev ∷ evs) s h =
      let (t, rest) = Runs-total evs (inform_hooks ev (record s { started = evs })).1 refl in
      (t, runs ev [] evs h rest)

  module _ {Ctx : Type 0} (authz : AuthorizationStrategy Ctx) (table : Table D Evidence)
      (rules : Rules StoreRequest) (ctx : Option Ctx) where
    -- A stream of evidences that does not end in a panic: once the goroutines that it has started have
    -- run, in whatever order, each hook that was registered has been informed of exactly those
    -- evidences whose reply says that they were stored, each as often as it was.
    pub store_evidences-informed :
        (turns : List (Turn StoreRequest)) (s t : Service D H)
        → s.started ≡ []
        → Runs (store_evidences authz table rules ctx turns s).1.1 t
        → ((store_evidences authz table rules ctx turns s).0 ≡ panic)
          ⊎ Perm t.informed (
              s.informed
              ++ all_calls s.evidence_hooks
                  (accepted (heard turns) (store_evidences authz table rules ctx turns s).1.0))
    unfolding store_evidences
    store_evidences-informed turns s t idle done =
        elim (serve-Served (store_evidence authz table rules ctx) turns s) [
          | inl p ↦ inl p
          | inr served ↦
              let all = Served-Started authz table rules ctx served in
              inr (
                subst (λ l. Perm t.informed l) (cc (all.informed, all.hooks, all.started, idle))
                  (Runs-informed done))
        ]

-- ===== src/Evidence/Access.antt =====
-- Whose evidences a caller sees.
use mathlib.Core.Path.{subst}
use clouditor.Prelude.{
  String, ◌≡◌, refl, sym, ◌∙◌, Bool, true, false, Option, none, some, List, [], ◌∷◌, ◌++◌, map, All,
  All-map, ◌==◌, Bool-cases, inl, inr, arith, if◌then◌else◌,
}
use mathlib.Core.List.{map-append}
use clouditor.Status.{ok}
use clouditor.Auth.{AuthorizationStrategy}
use clouditor.Validate.{Rules}
use clouditor.Query.{Atom, equals, in_list, join_and, satisfies, holds_from, allowed_clauses}
use clouditor.Query.Laws.{
  single, all_hold, all_hold-last, satisfies-singles, allowed_atoms, allowed_clauses-single,
}
use clouditor.Storage.{Table}
use clouditor.Storage.Answers.{Answers, paginate_storage-All}
use clouditor.Page.{Wire, paginate_storage, default_pagination_opts}
use clouditor.Evidence.{
  Evidence, Filter, ListRequest, GetRequest, Service, when_text, filter_clauses, get_conds,
  list_evidences, get_evidence,
}

abbrev when_text_atoms : String → (String → Atom) → List Atom
when_text_atoms s f = if s == "" then [] else f s ∷ []

-- The comparisons that a filter asks for.
abbrev pub filter_atoms : Option Filter → List Atom
filter_atoms none = []
filter_atoms (some f) =
    when_text_atoms f.cloud_service_id (equals "cloud_service_id")
    ++ when_text_atoms f.tool_id (equals "tool_id")

when_text-single :
    (s : String) (f : String → Atom) → when_text s f ≡ map single (when_text_atoms s f)
when_text-single s f = elim (Bool-cases (s == "")) [ inl e ↦ rw e | inr e ↦ rw e ]

filter_clauses-single :
    (filter : Option Filter) → filter_clauses filter ≡ map single (filter_atoms filter)
unfolding filter_clauses
filter_clauses-single none = refl
filter_clauses-single (some f) = simp (map-append, when_text-single)

-- The condition of a listing is met by exactly the evidences that meet every comparison of the
-- filter and belong to a service that the caller may access.
pub list_conds-all_hold :
    (row : Atom → Bool) (filter : Option Filter) (allowed : Bool × List String)
    → satisfies row (join_and (filter_clauses filter ++ allowed_clauses allowed))
      ≡ all_hold row (filter_atoms filter ++ allowed_atoms allowed)
list_conds-all_hold row filter allowed =
    rw
      (
        filter_clauses-single filter,
        allowed_clauses-single allowed,
        sym (map-append single (filter_atoms filter) (allowed_atoms allowed)),
      )
      (satisfies-singles row (filter_atoms filter ++ allowed_atoms allowed))

get_conds-all_hold :
    (row : Atom → Bool) (ids : List String) (id : String)
    → satisfies row (get_conds (false, ids) id) ≡ true
    → row (in_list "cloud_service_id" ids) ≡ true
unfolding satisfies holds_from get_conds
get_conds-all_hold row ids id h = ground arith

module _ {D H Ctx : Type 0} (authz : AuthorizationStrategy Ctx) (table : Table D Evidence)
    (row : Evidence → Atom → Bool) (answers : Answers table row) where
  listed :
      (w : Wire) (rules : Rules ListRequest) (ctx : Option Ctx) (req : ListRequest)
      (s t : Service D H) {rows : List Evidence} {npt : String}
      → list_evidences authz table w rules ctx (some req) s ≡ (ok (rows, npt), t)
      → paginate_storage w req.page
          (table.list
            (join_and
              (filter_clauses req.filter ++ allowed_clauses (authz.allowed_cloud_services ctx)))
            s.db)
          default_pagination_opts
        ≡ ok (rows, npt)
  unfolding list_evidences
  listed w rules ctx req s t h = ground arith

  -- A caller that may access only some services gets from a listing only evidences of those
  -- services, if the database gives only rows that meet the condition it is asked with.
  pub list_evidences-allowed :
      (w : Wire) (rules : Rules ListRequest) (ctx : Option Ctx) (req : ListRequest)
      (s t : Service D H) (ids : List String) (rows : List Evidence) (npt : String)
      → authz.allowed_cloud_services ctx ≡ (false, ids)
      → list_evidences authz table w rules ctx (some req) s ≡ (ok (rows, npt), t)
      → All (λ ev. row ev (in_list "cloud_service_id" ids) ≡ true) rows
  list_evidences-allowed w rules ctx req s t ids rows npt restricted h =
      All-map
        (λ ev met.
          all_hold-last (row ev) (filter_atoms req.filter) (in_list "cloud_service_id" ids)
            (sym (list_conds-all_hold (row ev) req.filter (false, ids)) ∙ (rw restricted at met)))
        rows
        (paginate_storage-All table row answers w req.page
          (join_and
            (filter_clauses req.filter ++ allowed_clauses (authz.allowed_cloud_services ctx)))
          s.db default_pagination_opts rows {npt = npt} (listed w rules ctx req s t h))

  got :
      (rules : Rules GetRequest) (ctx : Option Ctx) (req : GetRequest) (s t : Service D H)
      {ev : Evidence}
      → get_evidence authz table rules ctx (some req) s ≡ (ok ev, t)
      → table.get (get_conds (authz.allowed_cloud_services ctx) req.evidence_id) s.db ≡ ok ev
  unfolding get_evidence
  got rules ctx req s t h = ground arith

  -- A caller that may access only some services gets an evidence by its ID only if it belongs to one
  -- of them, if the database gives only a row that meets the condition it is asked with.
  pub get_evidence-allowed :
      (rules : Rules GetRequest) (ctx : Option Ctx) (req : GetRequest) (s t : Service D H)
      (ids : List String) (ev : Evidence)
      → authz.allowed_cloud_services ctx ≡ (false, ids)
      → get_evidence authz table rules ctx (some req) s ≡ (ok ev, t)
      → row ev (in_list "cloud_service_id" ids) ≡ true
  get_evidence-allowed rules ctx req s t ids ev restricted h =
      get_conds-all_hold (row ev) ids req.evidence_id (
        subst (λ a. satisfies (row ev) (get_conds a req.evidence_id) ≡ true) restricted
          (answers.got (get_conds (authz.allowed_cloud_services ctx) req.evidence_id) s.db ev
            (got rules ctx req s t h)))

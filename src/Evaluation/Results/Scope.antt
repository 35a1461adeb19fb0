-- ===== src/Evaluation/Results/Scope.antt =====
-- Which evaluation results a listing lets through: the meaning of its WHERE condition.
use mathlib.Core.List.{map-append, append_assoc, append-nil}
use clouditor.Prelude.{
  String, ◌≡◌, refl, sym, Bool, true, false, Option, none, some, List, [], ◌∷◌, ◌++◌, map, arith,
}
use clouditor.Query.{
  Atom, equals, in_numbers, has_prefix, is_null, not_past, atom, or, Clause, join_and, holds_from,
  satisfies, when_set, allowed_clauses,
}
use clouditor.Query.Laws.{
  when_atom, allowed_atoms, when_set-single, allowed_clauses-single, single, all_hold,
  satisfies-singles, holds_from-or,
}
use clouditor.Evaluation.Results.{
  Filter, deref_bool, manual_statuses, parents_clauses, filter_clauses, list_query,
}

abbrev parents_atoms : Bool → List Atom
parents_atoms true = is_null "parent_control_id" ∷ []
parents_atoms false = []

-- The comparisons that a filter asks for, the validity of manual results left out.
abbrev pub filter_atoms : Option Filter → List Atom
filter_atoms none = []
filter_atoms (some f) =
    when_atom f.cloud_service_id (equals "cloud_service_id")
    ++ (when_atom f.catalog_id (equals "control_catalog_id")
        ++ (when_atom f.control_id (equals "control_id")
            ++ (when_atom f.sub_controls (has_prefix "control_id")
                ++ parents_atoms (deref_bool f.parents_only))))

abbrev pub wants_manual : Option Filter → Bool
wants_manual none = false
wants_manual (some f) = deref_bool f.valid_manual_only

parents_clauses-single : (b : Bool) → parents_clauses b ≡ map single (parents_atoms b)
parents_clauses-single true = refl
parents_clauses-single false = refl

filter_clauses-single :
    (f : Filter)
    → deref_bool f.valid_manual_only ≡ false
    → filter_clauses f ≡ map single (filter_atoms (some f))
unfolding filter_clauses
filter_clauses-single f e =
    rw e (simp (map-append, when_set-single, parents_clauses-single, append-nil))

list_query-single :
    (filter : Option Filter) (allowed : Bool × List String)
    → wants_manual filter ≡ false
    → list_query filter allowed ≡ map single (filter_atoms filter ++ allowed_atoms allowed)
unfolding list_query
list_query-single none allowed e = allowed_clauses-single allowed
list_query-single (some f) allowed e =
    rw (filter_clauses-single f e, allowed_clauses-single allowed)
      (sym (map-append single (filter_atoms (some f)) (allowed_atoms allowed)))

-- Unless only valid manual results are asked for, the condition of a listing is met by exactly the
-- rows that meet every comparison of the filter and belong to a service that the caller may access.
pub list_query-all_hold :
    (row : Atom → Bool) (filter : Option Filter) (allowed : Bool × List String)
    → wants_manual filter ≡ false
    → satisfies row (join_and (list_query filter allowed))
      ≡ all_hold row (filter_atoms filter ++ allowed_atoms allowed)
list_query-all_hold row filter allowed e =
    rw (list_query-single filter allowed e)
      (satisfies-singles row (filter_atoms filter ++ allowed_atoms allowed))

allowed_after :
    (row : Atom → Bool) (allowed : Bool × List String) (d : Bool)
    → row (not_past "valid_until") ≡ true
    → all_hold row (allowed_atoms allowed) ≡ true
    → holds_from row d true
        (join_and ((atom (not_past "valid_until") ∷ []) ∷ allowed_clauses allowed))
      ≡ true
unfolding join_and holds_from
allowed_after row (true, ids) d h k = rw h (ground arith)
allowed_after row (false, ids) d h k = rw h (ground arith)

list_query-pre :
    (f : Filter) (allowed : Bool × List String)
    → deref_bool f.valid_manual_only ≡ true
    → (pre : List Clause) × (list_query (some f) allowed
        ≡ pre
          ++ ((atom (is_null "valid_until") ∷ or ∷ atom (not_past "valid_until") ∷ [])
              ∷ allowed_clauses allowed))
unfolding list_query filter_clauses
list_query-pre f allowed e = (
  when_set f.cloud_service_id (equals "cloud_service_id")
      ++ (when_set f.catalog_id (equals "control_catalog_id")
          ++ (when_set f.control_id (equals "control_id")
              ++ (when_set f.sub_controls (has_prefix "control_id")
                  ++ (parents_clauses (deref_bool f.parents_only)
                      ++ ((atom (in_numbers "status" manual_statuses) ∷ []) ∷ []))))),
  rw e (simp append_assoc),
)

-- If only valid manual results are asked for, the condition lets through every row whose validity
-- is not over and whose service the caller may access, whatever else the filter says: the clause
-- "valid_until IS NULL OR valid_until >= CURRENT_TIMESTAMP" is joined without brackets.
pub list_query-escape :
    (row : Atom → Bool) (f : Filter) (allowed : Bool × List String)
    → deref_bool f.valid_manual_only ≡ true
    → row (not_past "valid_until") ≡ true
    → all_hold row (allowed_atoms allowed) ≡ true
    → satisfies row (join_and (list_query (some f) allowed)) ≡ true
unfolding satisfies
list_query-escape row f allowed e h k =
    let (pre, split) = list_query-pre f allowed e in
    rw split (
      holds_from-or row pre (allowed_clauses allowed) (is_null "valid_until")
        (not_past "valid_until") false true (λ d. allowed_after row allowed d h k))

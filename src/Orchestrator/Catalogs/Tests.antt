-- ===== src/Orchestrator/Catalogs/Tests.antt =====
-- A folder of two catalogs, the first of which cannot be read.
use clouditor.Prelude.{String, ◌≡◌, ◌≢◌, refl, Bool, true, false, some, none, [], ◌∷◌, ◌==◌, arith}
use clouditor.Status.{Result, ok, err, panic, plain}
use clouditor.Orchestrator.Catalogs.{ControlFields, control, nil, cons, Catalog}
use clouditor.Orchestrator.Catalogs.Loading.{
  Files, get_json_filenames, load_file, with_parents, load_embedded_catalogs,
}
use clouditor.Orchestrator.Catalogs.Errors.{readable, outcome, load_embedded_catalogs-last}

abbrev fields : String → ControlFields
fields id = record {
  id = id;
  category_name = "category";
  category_catalog_id = "catalog";
  name = id;
  description = "";
  parent_control_id = none;
  parent_control_category_name = none;
  parent_control_category_catalog_id = none;
  assurance_level = none;
}

-- The sub-control as it is loaded.
abbrev sub_fields : ControlFields
sub_fields = record (fields "A.1") {
  parent_control_id = some "A";
  parent_control_category_name = some "category";
  parent_control_category_catalog_id = some "catalog";
}

abbrev catalog : ControlFields → Catalog (Unit {0})
catalog sub = record {
  id = "catalog";
  categories =
      (record {
        name = "category";
        catalog_id = "catalog";
        description = "";
        controls = cons (control (fields "A") (cons (control sub nil) nil)) nil;
      })
      ∷ [];
  rest = tt;
}

abbrev content : Bool → Result String
content true = err (plain "permission denied")
content false = ok "[]"

abbrev files : Files (Unit {0})
files = record {
  read_dir = λ folder. ok ("a.json" ∷ "b.json" ∷ "README.md" ∷ []);
  read_file = λ name. content (name == "catalogs/a.json");
  unmarshal = λ b. ok (catalog (fields "A.1") ∷ []);
}

files-safe : (name : String) → load_file files name ≢ panic
unfolding load_file
files-safe name h = ground arith

load_embedded_catalogs-last_example :
    load_embedded_catalogs files "catalogs" true ≡ (ok (catalog sub_fields ∷ []), true)
unfolding outcome load_file readable with_parents
load_embedded_catalogs-last_example =
    load_embedded_catalogs-last files files-safe "catalogs" ("catalogs/a.json" ∷ [])
      "catalogs/b.json" true (unfold get_json_filenames in refl)

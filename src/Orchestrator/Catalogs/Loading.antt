-- ===== src/Orchestrator/Catalogs/Loading.antt =====
-- loadCatalogs and loadEmbeddedCatalogs of service/orchestrator/catalogs.go, and GetJSONFilenames of
-- internal/util/filesystem.go.
use Prim.Native.String.{◌++◌ as str_append}
use clouditor.Prelude.{
  String, Bool, ◌||◌, Option, none, some, List, [], ◌∷◌, ◌++◌, map, ◌==◌, if◌then◌else◌,
}
use clouditor.Status.{Error, Result, ok, err, panic, wrapped}
use clouditor.Exec.{Exec, lift, map_err, ◌>>=◌}
use clouditor.Orchestrator.Catalogs.{ControlFields, control, Controls, nil, cons, Category, Catalog}

-- os.ReadDir with the names of the files, os.ReadFile and json.Unmarshal.
pub record Files (X : Type 0) : Type 0 where
  pub read_dir : String → Result (List String)
  pub read_file : String → Result String
  pub unmarshal : String → Result (List (Catalog X))

-- strings.HasSuffix
unfoldable pub has_suffix : String → String → Bool
has_suffix String.[] suffix = "" == suffix
has_suffix (String.◌∷◌ c s) suffix = String.◌∷◌ c s == suffix || has_suffix s suffix

unfoldable pub json_filenames : String → List String → List String
unfolding has_suffix
json_filenames folder [] = []
json_filenames folder (name ∷ names) =
    let rest = json_filenames folder names in
    if has_suffix name ".json" then str_append folder (str_append "/" name) ∷ rest else rest

-- One turn of the loop: `e` is the variable err, which each turn writes.
unfoldable pub add_file :
    {X : Type 0}
    → Result (List (Catalog X))
    → List (Catalog X)
    → Result (List (Catalog X) × Option Error)
add_file (ok more) found = ok (found ++ more, none)
add_file (err e) found = ok (found, some e)
add_file panic found = panic

module _ {X : Type 0} (files : Files X) where
  unfoldable pub get_json_filenames : String → Result (List String)
  unfolding json_filenames
  get_json_filenames folder = elim (files.read_dir folder) [
    | ok names ↦ ok (json_filenames folder names)
    | err e ↦ err e
    | panic ↦ panic
  ]

  -- What a file holds.
  unfoldable pub load_file : String → Result (List (Catalog X))
  load_file name = elim (files.read_file name) [
    | ok b ↦ files.unmarshal b
    | err e ↦ err e
    | panic ↦ panic
  ]

  -- The catalogs of the files, and the variable err.
  unfoldable pub load_files :
      List String → List (Catalog X) → Option Error → Result (List (Catalog X) × Option Error)
  unfolding add_file load_file
  load_files [] found e = ok (found, e)
  load_files (name ∷ names) found e = elim (add_file (load_file name) found) [
    | ok (found', e') ↦ load_files names found' e'
    | err e' ↦ err e'
    | panic ↦ panic
  ]

-- The loop over the sub-controls of a control of a category.
unfoldable pub set_parent : String → String → ControlFields → Controls → Controls
set_parent catalog_id category_name parent nil = nil
set_parent catalog_id category_name parent (cons (control sub subs) rest) =
    cons
      (control
        (record sub {
          category_name = category_name;
          category_catalog_id = catalog_id;
          parent_control_category_catalog_id = some parent.category_catalog_id;
          parent_control_category_name = some parent.category_name;
          parent_control_id = some parent.id;
        })
        subs)
      (set_parent catalog_id category_name parent rest)

unfoldable pub set_parents : String → String → Controls → Controls
unfolding set_parent
set_parents catalog_id category_name nil = nil
set_parents catalog_id category_name (cons (control fields subs) rest) =
    cons (control fields (set_parent catalog_id category_name fields subs))
      (set_parents catalog_id category_name rest)

unfoldable pub category_with_parents : String → Category → Category
unfolding set_parents
category_with_parents catalog_id c = record c {
  controls = set_parents catalog_id c.name c.controls;
}

unfoldable pub with_parents : {X : Type 0} → Catalog X → Catalog X
unfolding category_with_parents
with_parents catalog = record catalog {
  categories = map (category_with_parents catalog.id) catalog.categories;
}

abbrev pub finished : {X : Type 0} → List (Catalog X) × Option Error → Result (List (Catalog X))
finished (found, none) = ok (map with_parents found)
finished (found, some e) = err e

module _ {X : Type 0} (files : Files X) where
  -- The two results of loadEmbeddedCatalogs. An error of GetJSONFilenames is only written to err.
  unfoldable pub list_files : Result (List String) → Result (List (Catalog X) × Option Error)
  unfolding load_files
  list_files (ok names) = load_files files names [] none
  list_files (err e) = load_files files [] [] (some e)
  list_files panic = panic

  unfoldable pub load_embedded_catalogs : {S : Type 0} → String → Exec S (List (Catalog X))
  unfolding list_files get_json_filenames with_parents
  load_embedded_catalogs catalogs_folder =
      lift (list_files (get_json_filenames files catalogs_folder)) >>= λ found.
      lift (finished found)

-- `save` is Save of the storage on a list of catalogs; its error is logged and returned.
unfoldable pub load_catalogs :
    {D X : Type 0}
    → (List (Catalog X) → Exec D (Unit {0}))
    → Exec D (List (Catalog X))
    → Exec D (Unit {0})
load_catalogs save load_catalogs_func = do
  catalogs ← map_err (λ e. wrapped "could not load catalogs" e) load_catalogs_func
  save catalogs

-- ===== src/Orchestrator/Catalogs/Errors.antt =====
-- Files that cannot be read, in loadEmbeddedCatalogs of service/orchestrator/catalogs.go.
use clouditor.Prelude.{
  String, ◌≡◌, ◌≢◌, refl, sym, ap, ◌∙◌, Option, none, some, List, [], ◌∷◌, ◌++◌, map,
}
use mathlib.Core.List.{append-nil, append_assoc}
use clouditor.Status.{Error, Result, ok, err, panic}
use clouditor.Exec.{lift, ◌>>=◌}
use clouditor.Orchestrator.Catalogs.{Catalog}
use clouditor.Orchestrator.Catalogs.Loading.{
  Files, get_json_filenames, load_file, add_file, load_files, list_files, finished, with_parents,
  load_embedded_catalogs,
}

abbrev found_in : {X : Type 0} → Result (List (Catalog X)) → List (Catalog X)
found_in (ok more) = more
found_in (err e) = []
found_in panic = []

abbrev pub error_of : {X : Type 0} → Result X → Option Error
error_of (ok more) = none
error_of (err e) = some e
error_of panic = none

module _ {X : Type 0} (files : Files X) where
  -- The catalogs of the files that can be read.
  unfoldable pub readable : List String → List (Catalog X)
  readable [] = []
  readable (name ∷ names) = found_in (load_file files name) ++ readable names

  add_file-found :
      (r : Result (List (Catalog X))) (found : List (Catalog X))
      → r ≢ panic
      → add_file r found ≡ ok (found ++ found_in r, error_of r)
  unfolding add_file
  add_file-found (ok more) found safe = refl
  add_file-found (err e) found safe = ap (λ all. ok (all, some e)) (sym (append-nil found))
  add_file-found panic found safe = absurd (safe refl)

  load_files-first :
      (name : String) (names : List String) (found : List (Catalog X)) (e : Option Error)
      → load_file files name ≢ panic
      → load_files files (name ∷ names) found e
        ≡ load_files files names
            (found ++ found_in (load_file files name))
            (error_of (load_file files name))
  unfolding load_files
  load_files-first name names found e safe =
      ap
        (λ r. elim r [
          | ok (found', e') ↦ load_files files names found' e'
          | err e' ↦ err e'
          | panic ↦ panic
        ])
        (add_file-found (load_file files name) found safe)

  load_files-last :
      (safe : (name : String) → load_file files name ≢ panic) (names : List String) (name : String)
      (found : List (Catalog X)) (e : Option Error)
      → load_files files (names ++ name ∷ []) found e
        ≡ ok (found ++ readable (names ++ name ∷ []), error_of (load_file files name))
  unfolding load_files readable
  load_files-last safe [] name found e =
      load_files-first name [] found e (safe name)
      ∙ ap (λ more. ok (found ++ more, error_of (load_file files name)))
          (sym (append-nil (found_in (load_file files name))))
  load_files-last safe (first ∷ names) name found e =
      load_files-first first (names ++ name ∷ []) found e (safe first)
      ∙ load_files-last safe names name (found ++ found_in (load_file files first))
          (error_of (load_file files first))
      ∙ ap (λ more. ok (more, error_of (load_file files name)))
          (append_assoc found (found_in (load_file files first)) (readable (names ++ name ∷ [])))

  -- Which of the two results of loadEmbeddedCatalogs its caller sees.
  unfoldable pub outcome : Result (List (Catalog X)) → List String → Result (List (Catalog X))
  outcome (ok more) names = ok (map with_parents (readable names))
  outcome (err e) names = err e
  outcome panic names = panic

  finished-outcome :
      (r : Result (List (Catalog X))) (names : List String)
      → r ≢ panic
      → finished (readable names, error_of r) ≡ outcome r names
  unfolding outcome
  finished-outcome (ok more) names safe = refl
  finished-outcome (err e) names safe = refl
  finished-outcome panic names safe = absurd (safe refl)

  -- If the folder can be listed and no file makes its reading panic, the last file alone decides: if
  -- it can be read, the catalogs of all the files that can be read are loaded, with the parents of
  -- their sub-controls, whatever the errors of the others are; if not, its error is the outcome.
  pub load_embedded_catalogs-last :
      {S : Type 0} (safe : (name : String) → load_file files name ≢ panic) (folder : String)
      (names : List String) (name : String) (s : S)
      → get_json_filenames files folder ≡ ok (names ++ name ∷ [])
      → load_embedded_catalogs files folder s
        ≡ (outcome (load_file files name) (names ++ name ∷ []), s)
  unfolding load_embedded_catalogs list_files
  load_embedded_catalogs-last safe folder names name s listed =
      ap (λ r. (lift (list_files files r) >>= λ found. lift (finished found)) s) listed
      ∙ ap (λ r. (lift r >>= λ found. lift (finished found)) s)
          (load_files-last safe names name [] none)
      ∙ ap (λ r. (r, s)) (finished-outcome (load_file files name) (names ++ name ∷ []) (safe name))

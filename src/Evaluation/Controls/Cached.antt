-- ===== src/Evaluation/Controls/Cached.antt =====
-- What the cache of controls gives back.
use Prim.Native.String.{◌++◌ as str_append}
use clouditor.Prelude.{
  String, ◌≡◌, refl, ◌∙◌, inl, inr, false, Bool-cases, some, List, [], ◌∷◌, ◌++◌, All, ◌==◌,
  str_eq_refl,
}
use clouditor.Prelude.Maps.{Map, lookup, put, lookup-put}
use clouditor.Status.{Error, Result, ok, err}
use clouditor.Evaluation.Model.{Control, fields}
use clouditor.Evaluation.Controls.{
  CatalogControls, tag_of, put_all, store_controls, cache_controls, get_control,
}

-- The category and the ID of a control, joined by a dash.
abbrev pub joined : Control → String
joined c = str_append (fields c).category_name (str_append "-" (fields c).id)

-- No control of the list has a category and an ID that are joined to this text.
abbrev pub Untagged : String → List Control → Type 0
Untagged t = All (λ d. (joined d == t) ≡ false)

lookup-put_all_other :
    (t : String) (cs : List Control) (m : Map Control)
    → Untagged t cs
    → lookup t (put_all cs m) ≡ lookup t m
unfolding put_all
lookup-put_all_other t [] m h = refl
lookup-put_all_other t (c ∷ cs) m (h, hs) =
    lookup-put_all_other t cs (put (tag_of c) c m) hs ∙ rw (lookup-put (tag_of c) t c m, h)

-- The last control with a tag is the one that is kept.
lookup-put_all :
    (xs ys : List Control) (c : Control) (m : Map Control)
    → Untagged (joined c) ys
    → lookup (tag_of c) (put_all (xs ++ c ∷ ys) m) ≡ some c
unfolding put_all
lookup-put_all [] ys c m h =
    lookup-put_all_other (tag_of c) ys (put (tag_of c) c m) h
    ∙ rw (lookup-put (tag_of c) (tag_of c) c m, str_eq_refl (tag_of c))
lookup-put_all (x ∷ xs) ys c m h = lookup-put_all xs ys c (put (tag_of x) x m) h

store_controls-ok :
    (catalog_id : String) (cs : List Control) (cache cache' : CatalogControls)
    → store_controls catalog_id cs cache ≡ ok cache'
    → cache' ≡ put catalog_id (put_all cs []) cache
unfolding store_controls
store_controls-ok catalog_id [] cache cache' h = cc
store_controls-ok catalog_id (c ∷ cs) cache cache' h = cc

-- After the controls of a catalog have been cached, a control is found under its category and ID, if
-- these are not empty and no later control of the catalog has a category and an ID that give the same
-- text when they are joined by a dash.
pub get_control-cache_controls :
    (listed : String → Result (List Control)) (catalog_id : String) (cache cache' : CatalogControls)
    (xs ys : List Control) (c : Control)
    → listed catalog_id ≡ ok (xs ++ c ∷ ys)
    → Untagged (joined c) ys
    → cache_controls listed catalog_id cache ≡ ok cache'
    → ((fields c).category_name == "") ≡ false
    → ((fields c).id == "") ≡ false
    → get_control cache' catalog_id (fields c).category_name (fields c).id ≡ ok c
unfolding get_control cache_controls
get_control-cache_controls listed catalog_id cache cache' xs ys c list last done category id =
    elim (Bool-cases (catalog_id == "")) [
      | inl e ↦ absurd (absurd_err (rw e at done))
      | inr e ↦
          let stored =
            store_controls-ok catalog_id (xs ++ c ∷ ys) cache cache' (rw (e, list) at done) in
          rw (
            e,
            category,
            id,
            stored,
            lookup-put catalog_id catalog_id (put_all (xs ++ c ∷ ys) []) cache,
            str_eq_refl catalog_id,
            lookup-put_all xs ys c [] last,
          )
    ]
  where
    absurd_err : {A : Type 0} {e : Error} {a : A} → ◌≡◌ {A = Result A} (err e) (ok a) → ⊥
    absurd_err h = cc

-- ===== src/Evaluation/Relevance.antt =====
-- Control.IsRelevantFor of api/orchestrator/orchestrator.go: which controls a target of evaluation
-- has to meet.
use mathlib.Core.Bool.{false≢true}
use clouditor.Prelude.{
  suc, String, ◌≡◌, refl, sym, ◌∙◌, ◌⊎◌, inl, inr, ◌↔◌, Bool, true, false, not, Option, none, some,
  List, [], ◌∷◌, arith, ◌==◌, contains, if◌then◌else◌, str_eq_refl, str_eq→eq, Bool-cases,
}
use clouditor.Prelude.Int.{ℤ, pos, negsuc, ltb_ℤ}
use clouditor.Evaluation.Model.{Control, fields, TargetOfEvaluation, Catalog}

-- The position after one more element; -1 stays.
abbrev shift : ℤ → ℤ
shift (pos n) = pos (suc n)
shift (negsuc n) = negsuc n

-- slices.Index: the first position, or -1
unfoldable pub index : List String → String → ℤ
index [] a = negsuc 0
index (x ∷ xs) a = if x == a then pos 0 else shift (index xs a)

-- `i <= j`
abbrev at_most : ℤ → ℤ → Bool
at_most i j = not (ltb_ℤ j i)

-- The comparison of the two levels' positions.
unfoldable pub compare_levels : List String → Option String → Option String → Bool
unfolding index
compare_levels levels none toe_level = true
compare_levels levels (some a) none = true
compare_levels levels (some a) (some b) = at_most (index levels a) (index levels b)

unfoldable pub is_relevant_for : Control → TargetOfEvaluation → Catalog → Bool
unfolding compare_levels
is_relevant_for c toe catalog = elim catalog.assurance_levels [
  | [] ↦ true
  | level ∷ rest ↦ compare_levels (level ∷ rest) (fields c).assurance_level toe.assurance_level
]

-- In the order of the levels, `a` is not listed, or both are and `a` comes no later than `b`.
pub data NotAfter (a b : String) : List String → Type 0 where
  unknown : {levels : List String} → contains levels a ≡ false → NotAfter a b levels
  reached : {rest : List String} → contains (a ∷ rest) b ≡ true → NotAfter a b (a ∷ rest)
  passed :
      {x : String} {rest : List String}
      → (x == a) ≡ false
      → (x == b) ≡ false
      → NotAfter a b rest
      → NotAfter a b (x ∷ rest)

-- The index is -1 exactly for a level that is not listed.
index-unknown :
    (levels : List String) (a : String) → contains levels a ≡ false → index levels a ≡ negsuc 0
unfolding index
index-unknown [] a h = refl
index-unknown (x ∷ xs) a h = ground (arith, index-unknown xs a)

at_most-shift : (i j : ℤ) → at_most (shift i) (shift j) ≡ at_most i j
at_most-shift (pos i) (pos j) = ground arith
at_most-shift (pos i) (negsuc j) = ground arith
at_most-shift (negsuc i) (pos j) = ground arith
at_most-shift (negsuc i) (negsuc j) = refl

index-cases : (levels : List String) (a : String) → at_most (negsuc 0) (index levels a) ≡ true
unfolding index
index-cases [] a = refl
index-cases (x ∷ xs) a = elim (Bool-cases (x == a)) [
  | inl e ↦ rw e
  | inr e ↦ rw e (rw (at_most-shift (negsuc 0) (index xs a)) (index-cases xs a))
]

index-known :
    (levels : List String) (a : String)
    → contains levels a ≡ true
    → at_most (pos 0) (index levels a) ≡ true
unfolding index
index-known [] a h = absurd (cc)
index-known (x ∷ xs) a h = elim (Bool-cases (x == a)) [
  | inl e ↦ rw e
  | inr e ↦ rw e (at_most-zero (index xs a) (index-known xs a (rw e at h)))
]
  where
    at_most-zero : (i : ℤ) → at_most (pos 0) i ≡ true → at_most (pos 0) (shift i) ≡ true
    at_most-zero (pos i) h = ground arith
    at_most-zero (negsuc i) h = h

shift-after : (i : ℤ) → at_most (pos 0) i ≡ true → at_most (shift i) (pos 0) ≡ false
shift-after (pos i) h = ground arith
shift-after (negsuc i) h = absurd (ground arith)

index-first : (a : String) (rest : List String) → index (a ∷ rest) a ≡ pos 0
unfolding index
index-first a rest = rw (str_eq_refl a)

index-other :
    (x a : String) (rest : List String)
    → (x == a) ≡ false
    → index (x ∷ rest) a ≡ shift (index rest a)
unfolding index
index-other x a rest h = rw h

NotAfter-compare :
    {a b : String} {levels : List String}
    → NotAfter a b levels
    → at_most (index levels a) (index levels b) ≡ true
NotAfter-compare {a} {b} (unknown {levels} h) = rw (index-unknown levels a h) (index-cases levels b)
NotAfter-compare {a} {b} (reached {rest} h) = rw (index-first a rest) (index-known (a ∷ rest) b h)
NotAfter-compare {a} {b} (passed {x} {rest} h k n) =
    rw (index-other x a rest h, index-other x b rest k, at_most-shift (index rest a) (index rest b))
      (NotAfter-compare n)

compare-NotAfter :
    (a b : String) (levels : List String)
    → at_most (index levels a) (index levels b) ≡ true
    → NotAfter a b levels
unfolding index
compare-NotAfter a b [] h = unknown refl
compare-NotAfter a b (x ∷ xs) h = elim (Bool-cases (x == a)) [
  | inl e ↦ elim (Bool-cases (contains (x ∷ xs) b)) [
    | inl known ↦ rw (str_eq→eq x a e) (reached (rw (str_eq→eq x a e) at known))
    | inr absent ↦ absurd (false≢true (rw (e, index-unknown (x ∷ xs) b absent) at h))
  ]
  | inr e ↦ elim (Bool-cases (x == b)) [
    | inl e' ↦ elim (Bool-cases (contains xs a)) [
      | inl known ↦
          absurd (
            false≢true
              (sym (shift-after (index xs a) (index-known xs a known)) ∙ (rw (e, e') at h)))
      | inr absent ↦ unknown (rw e absent)
    ]
    | inr e' ↦
        passed e e'
          (compare-NotAfter a b xs (rw (e, e', at_most-shift (index xs a) (index xs b)) at h))
  ]
]

-- What makes a control relevant for a target of evaluation in a catalog.
pub data Relevant (c : Control) (toe : TargetOfEvaluation) (catalog : Catalog) : Type 0 where
  no_levels : catalog.assurance_levels ≡ [] → Relevant c toe catalog
  control_without : (fields c).assurance_level ≡ none → Relevant c toe catalog
  toe_without : toe.assurance_level ≡ none → Relevant c toe catalog
  level_met :
      (a b : String)
      → (fields c).assurance_level ≡ some a
      → toe.assurance_level ≡ some b
      → NotAfter a b catalog.assurance_levels
      → Relevant c toe catalog

relevant-levels :
    (levels : List String) (c t : Option String)
    → compare_levels levels c t ≡ true
    → (c ≡ none)
      ⊎ ((t ≡ none)
          ⊎ ((a : String) × (b : String) × (c ≡ some a) × (t ≡ some b) × NotAfter a b levels))
unfolding compare_levels
relevant-levels levels none t h = inl refl
relevant-levels levels (some a) none h = inr (inl refl)
relevant-levels levels (some a) (some b) h =
    inr (inr (a, b, refl, refl, compare-NotAfter a b levels h))

is_relevant_for-Relevant :
    (c : Control) (toe : TargetOfEvaluation) (catalog : Catalog) (levels : List String)
    → catalog.assurance_levels ≡ levels
    → is_relevant_for c toe catalog ≡ true
    → Relevant c toe catalog
unfolding is_relevant_for
is_relevant_for-Relevant c toe catalog [] e h = no_levels e
is_relevant_for-Relevant c toe catalog (l ∷ ls) e h =
    elim (relevant-levels (l ∷ ls) (fields c).assurance_level toe.assurance_level
      (rw (e, is_relevant_for) at h)) [
        | inl none_c ↦ control_without none_c
        | inr (inl none_t) ↦ toe_without none_t
        | inr (inr (a, b, ea, eb, n)) ↦ level_met a b ea eb (rw e n)
      ]

levels-relevant :
    (c : Control) (toe : TargetOfEvaluation) (catalog : Catalog) (levels : List String)
    → catalog.assurance_levels ≡ levels
    → compare_levels levels (fields c).assurance_level toe.assurance_level ≡ true
    → is_relevant_for c toe catalog ≡ true
unfolding is_relevant_for
levels-relevant c toe catalog [] e h = rw (e, is_relevant_for)
levels-relevant c toe catalog (l ∷ ls) e h = rw (e, is_relevant_for) h

compare_levels-none :
    (levels : List String) (c : Option String) → compare_levels levels c none ≡ true
unfolding compare_levels
compare_levels-none levels none = refl
compare_levels-none levels (some a) = refl

Relevant-is_relevant_for :
    (c : Control) (toe : TargetOfEvaluation) (catalog : Catalog)
    → Relevant c toe catalog
    → is_relevant_for c toe catalog ≡ true
Relevant-is_relevant_for c toe catalog (no_levels e) =
    unfold is_relevant_for in rw (e, is_relevant_for)
Relevant-is_relevant_for c toe catalog (control_without e) =
    levels-relevant c toe catalog catalog.assurance_levels refl (unfold compare_levels in rw e)
Relevant-is_relevant_for c toe catalog (toe_without e) =
    levels-relevant c toe catalog catalog.assurance_levels refl
      (rw e (compare_levels-none catalog.assurance_levels (fields c).assurance_level))
Relevant-is_relevant_for c toe catalog (level_met a b ea eb n) =
    levels-relevant c toe catalog catalog.assurance_levels refl
      (unfold compare_levels in rw (ea, eb) (NotAfter-compare n))

-- A control is relevant exactly if the catalog has no levels, or the control or the target has none,
-- or the control's level is not listed in the catalog, or both levels are and the control's comes no
-- later than the target's.
pub is_relevant_for_iff :
    (c : Control) (toe : TargetOfEvaluation) (catalog : Catalog)
    → (is_relevant_for c toe catalog ≡ true) ↔ Relevant c toe catalog
is_relevant_for_iff c toe catalog = (
  is_relevant_for-Relevant c toe catalog catalog.assurance_levels refl,
  Relevant-is_relevant_for c toe catalog,
)

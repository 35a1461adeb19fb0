-- ===== src/Evaluation/Run/Group.antt =====
-- What a group of goroutines that returns no error has done.
use mathlib.Core.Path.{subst, subst₂}
use clouditor.Prelude.{◌≡◌, refl, sym, ap, ◌∙◌, List, [], ◌∷◌, ◌++◌}
use clouditor.Status.{Result, ok, err, panic}
use clouditor.Exec.{Exec}
use clouditor.Evaluation.Run.{both, run_all}

-- Every function has returned, each from the state that the one before it left.
pub data Ran {A B S : Type 0} (f : A → Exec S B) : List A → S → List B → S → Type 0 where
  none_left : (s : S) → Ran f [] s [] s
  then :
      {x : A} {xs : List A} {y : B} {ys : List B} {s t u : S}
      → f x s ≡ (ok y, t)
      → Ran f xs t ys u
      → Ran f (x ∷ xs) s (y ∷ ys) u

pub ok-injective : {B : Type 0} {a b : B} → ok a ≡ ok b → a ≡ b
ok-injective h = cc

both-ok :
    {B : Type 0} (r : Result B) (rs : Result (List B)) {ys : List B}
    → both r rs ≡ ok ys
    → (z : B) × (zs : List B) × (r ≡ ok z) × (rs ≡ ok zs) × (ys ≡ z ∷ zs)
both-ok (ok z) (ok zs) h = (z, zs, refl, refl, cc)
both-ok (ok z) (err e) h = absurd (cc)
both-ok (ok z) panic h = absurd (cc)
both-ok (err e) rs h = absurd (cc)
both-ok panic rs h = absurd (cc)

-- A group that returns no error has run every function to a result, in order.
pub run_all-Ran :
    {A B S : Type 0} (f : A → Exec S B) (xs : List A) (s : S) {ys : List B} {t : S}
    → run_all f xs s ≡ (ok ys, t)
    → Ran f xs s ys t
unfolding run_all
run_all-Ran f [] s {ys} {t} h =
    subst₂ (λ zs u. Ran f [] s zs u) (ok-injective (ap (λ p. p.0) h)) (ap (λ p. p.1) h)
      (none_left s)
run_all-Ran f (x ∷ xs) s {ys} {t} h =
    let (z, zs, first, rest, e) = both-ok (f x s).0 (run_all f xs (f x s).1).0 (ap (λ p. p.0) h) in
    subst (λ us. Ran f (x ∷ xs) s us t) (sym e)
      (then (λ i. (first i, (f x s).1)) (run_all-Ran f xs (f x s).1 (λ i. (rest i, (h i).1))))

-- The step of one of the functions.
pub record Step {A B S : Type 0} (f : A → Exec S B) (x : A) (ys : List B) : Type 0 where
  pub before : S
  pub after : S
  pub result : B
  pub ran : f x before ≡ (ok result, after)
  pub xs' : List B
  pub ys' : List B
  pub split : ys ≡ xs' ++ result ∷ ys'

pub run_all-Step :
    {A B S : Type 0} (f : A → Exec S B) (xs : List A) (x : A) (zs : List A) (s : S) {ys : List B}
    {t : S}
    → run_all f (xs ++ x ∷ zs) s ≡ (ok ys, t)
    → Step f x ys
unfolding run_all
run_all-Step f [] x zs s h =
    let (z, us, first, rest, e) = both-ok (f x s).0 (run_all f zs (f x s).1).0 (ap (λ p. p.0) h) in
    record {
      before = s;
      after = (f x s).1;
      result = z;
      ran = λ i. (first i, (f x s).1);
      xs' = [];
      ys' = us;
      split = e;
    }
run_all-Step f (w ∷ ws) x zs s h =
    let (z, us, first, rest, e) =
      both-ok (f w s).0 (run_all f (ws ++ x ∷ zs) (f w s).1).0 (ap (λ p. p.0) h) in
    let step = run_all-Step f ws x zs (f w s).1 (λ i. (rest i, (h i).1)) in
    record {
      before = step.before;
      after = step.after;
      result = step.result;
      ran = step.ran;
      xs' = z ∷ step.xs';
      ys' = step.ys';
      split = e ∙ ap (◌∷◌ z) step.split;
    }

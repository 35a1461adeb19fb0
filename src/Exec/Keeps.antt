-- ===== src/Exec/Keeps.antt =====
-- Calls that keep a property of the state, whatever their outcome is.
use clouditor.Prelude.{Bool, true, false}
use clouditor.Status.{Error, Result, ok, err, panic}
use clouditor.Exec.{Exec, require, attempt, attempted, continue, ◌>>=◌}

pub record Keeps {S A : Type 0} (P : S → Type 0) (call : Exec S A) : Type 0 where
  pub keeps : (s : S) → P s → P (call s).1

module _ {S : Type 0} (P : S → Type 0) where
  pub Keeps-require : (b : Bool) (e : Error) → Keeps P (require b e)
  Keeps-require true e = record { keeps = λ s h. h }
  Keeps-require false e = record { keeps = λ s h. h }

  module _ {A : Type 0} where
    attempted-P : (r : Result A) (s : S) → P s → P (attempted r s).1
    attempted-P (ok a) s h = h
    attempted-P (err e) s h = h
    attempted-P panic s h = h

    pub Keeps-attempt : (call : Exec S A) → Keeps P call → Keeps P (attempt call)
    Keeps-attempt call k = record { keeps = λ s h. attempted-P (call s).0 (call s).1 (k.keeps s h) }

    module _ {B : Type 0} where
      continue-P :
          (r : Result A) (next : A → Exec S B)
          → ((a : A) → Keeps P (next a))
          → (s : S) → P s
          → P (continue r next s).1
      continue-P (ok a) next k s h = (k a).keeps s h
      continue-P (err e) next k s h = h
      continue-P panic next k s h = h

      pub Keeps-bind :
          (call : Exec S A) (next : A → Exec S B)
          → Keeps P call
          → ((a : A) → Keeps P (next a))
          → Keeps P (call >>= next)
      Keeps-bind call next first then = record {
        keeps = λ s h. continue-P (call s).0 next then (call s).1 (first.keeps s h);
      }

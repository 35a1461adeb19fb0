-- ===== src/Exec.antt =====
-- Handlers that change a state and may return an error. What was written before the error stays
-- written, so the state comes back beside the outcome.
pub mod Inversion
pub mod Keeps
use clouditor.Prelude.{Bool, true, false}
use clouditor.Status.{Error, Result, ok, err, panic}

abbrev pub Exec {ℓ κ} : Type ℓ → Type κ → Type (ℓ ⊔ κ)
Exec S A = S → Result A × S

abbrev pub rescue {κ} : {A : Type κ} → Result A → (Error → Error) → Result A
rescue (ok a) f = ok a
rescue (err e) f = err (f e)
rescue panic f = panic

module _ {ℓ κ} {S : Type ℓ} {A : Type κ} where
  abbrev pub pure : A → Exec S A
  pure a s = (ok a, s)

  -- A call that reads the state and leaves it.
  abbrev pub gets : (S → A) → Exec S A
  gets read s = (ok (read s), s)

  -- A call that does not look at the state.
  abbrev pub lift : Result A → Exec S A
  lift outcome s = (outcome, s)

  abbrev pub raise : Error → Exec S A
  raise e = lift (err e)

  -- `if err != nil { return nil, f(err) }`
  abbrev pub map_err : (Error → Error) → Exec S A → Exec S A
  map_err f m s = let (r, s') = m s in (rescue r f, s')

  abbrev pub attempted : Result A → S → Result (Result A) × S
  attempted panic s = (panic, s)
  attempted (ok a) s = (ok (ok a), s)
  attempted (err e) s = (ok (err e), s)

  -- A call whose error the caller looks at and goes on.
  abbrev pub attempt : Exec S A → Exec S (Result A)
  attempt m s = let (r, s') = m s in attempted r s'

abbrev pub modify {ℓ} : {S : Type ℓ} → (S → S) → Exec S (Unit {0})
modify f s = (ok tt, f s)

-- `if !test { return nil, e }`
abbrev pub require {ℓ} : {S : Type ℓ} → Bool → Error → Exec S (Unit {0})
require true e s = (ok tt, s)
require false e s = (err e, s)

module _ {ℓ κ ι} {S : Type ℓ} {A : Type κ} {B : Type ι} where
  abbrev pub continue : Result A → (A → Exec S B) → Exec S B
  continue panic f s = (panic, s)
  continue (err e) f s = (err e, s)
  continue (ok a) f s = f a s

  infixl 10 ◌>>=◌ ◌>>◌
  abbrev pub ◌>>=◌ : Exec S A → (A → Exec S B) → Exec S B
  ◌>>=◌ call next s = let (outcome, after) = call s in continue outcome next after

  abbrev pub ◌>>◌ : Exec S A → Exec S B → Exec S B
  first >> second = first >>= λ _. second

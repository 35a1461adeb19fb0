-- ===== src/Exec/Inversion.antt =====
-- What a call has done that has given a result.
use clouditor.Prelude.{◌≡◌, ◌⊎◌, inl, inr, refl}
use clouditor.Status.{Error, Result, ok, err, panic}
use clouditor.Exec.{Exec, attempt, attempted, continue, ◌>>=◌}

pub ok-injective : {A : Type 0} {a b : A} → ok a ≡ ok b → a ≡ b
ok-injective h = cc

pub Result-cases :
    {A : Type 0} (r : Result A) → ((a : A) × (r ≡ ok a)) ⊎ ((e : Error) × (r ≡ err e)) ⊎ (r ≡ panic)
Result-cases (ok a) = inl (a, refl)
Result-cases (err e) = inr (inl (e, refl))
Result-cases panic = inr (inr refl)

-- The outcome of a call, and the state after it.
pub record Gives {S A : Type 0} (call : Exec S A) (s : S) (a : A) (t : S) : Type 0 where
  pub result : (call s).0 ≡ ok a
  pub state : (call s).1 ≡ t

-- The two parts of a call that has given a result.
pub record Both {S A B : Type 0} (call : Exec S A) (next : A → Exec S B) (s : S) (b : B) (t : S)
    : Type 0 where
  pub a : A
  pub first : (call s).0 ≡ ok a
  pub then : Gives (next a) (call s).1 b t

module _ {S A B : Type 0} where
  continue-Both :
      (call : Exec S A) (next : A → Exec S B) (s : S) (b : B) (t : S) (r : Result A)
      → (call s).0 ≡ r
      → (continue r next (call s).1).0 ≡ ok b
      → (continue r next (call s).1).1 ≡ t
      → Both call next s b t
  continue-Both call next s b t (ok a) e h k = record {
    a = a;
    first = e;
    then = record { result = h; state = k };
  }
  continue-Both call next s b t (err f) e h k = absurd (cc)
  continue-Both call next s b t panic e h k = absurd (cc)

  pub Gives-bind :
      (call : Exec S A) (next : A → Exec S B) (s : S) (b : B) (t : S)
      → Gives (call >>= next) s b t
      → Both call next s b t
  Gives-bind call next s b t h = continue-Both call next s b t (call s).0 refl h.result h.state

module _ {S A : Type 0} where
  attempted-result : (r q : Result A) (s : S) → (attempted r s).0 ≡ ok q → r ≡ q
  attempted-result (ok a) q s h = ok-injective h
  attempted-result (err e) q s h = ok-injective h
  attempted-result panic q s h = absurd (cc)

  attempted-state : (r : Result A) (s : S) → (attempted r s).1 ≡ s
  attempted-state (ok a) s = refl
  attempted-state (err e) s = refl
  attempted-state panic s = refl

  pub result-attempt :
      (call : Exec S A) (s : S) (q : Result A) → (attempt call s).0 ≡ ok q → (call s).0 ≡ q
  result-attempt call s q h = attempted-result (call s).0 q (call s).1 h

  pub state-attempt : (call : Exec S A) (s : S) → (attempt call s).1 ≡ (call s).1
  state-attempt call s = attempted-state (call s).0 (call s).1

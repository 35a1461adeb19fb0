-- ===== src/Stream/Served.antt =====
-- What a stream has done when its loop ends without a panic.
use clouditor.Prelude.{◌≡◌, refl, ◌⊎◌, Bool-cases, inl, inr, Option, some, List, [], ◌∷◌}
use clouditor.Status.{Error, Result, ok, err, panic, is_eof}
use clouditor.Exec.{Exec}
use clouditor.Stream.{Reply, reply_ok, reply_error, Turn, Outcome, answer, react, serve}

-- The requests were handled one after the other, each from the state that the one before it left,
-- and each got the reply that its outcome calls for.
pub data Served {S Req Res : Type 0} (handle : Option Req → Exec S Res)
    : List Req → S → List Reply → S → Type 0 where
  all_served : (s : S) → Served handle [] s [] s
  stored :
      {req : Req} {reqs : List Req} {res : Res} {replies : List Reply} {s t u : S}
      → handle (some req) s ≡ (ok res, t)
      → Served handle reqs t replies u
      → Served handle (req ∷ reqs) s (reply_ok ∷ replies) u
  refused :
      {req : Req} {reqs : List Req} {e : Error} {replies : List Reply} {s t u : S}
      → handle (some req) s ≡ (err e, t)
      → Served handle reqs t replies u
      → Served handle (req ∷ reqs) s (reply_error e ∷ replies) u

-- The requests that the loop takes in: those that are received up to the first reply that Send does
-- not take.
abbrev pub heard : {Req : Type 0} → List (Turn Req) → List Req
heard [] = []
heard ((ok req, ok u) ∷ turns) = req ∷ heard turns
heard ((ok req, _) ∷ turns) = req ∷ []
heard ((err e, send) ∷ turns) = []
heard ((panic, send) ∷ turns) = []

module _ {S Req Res : Type 0} (handle : Option Req → Exec S Res) where
  -- The loop has ended in a panic, or it has served all these requests.
  abbrev pub Fair : List Req → S → Outcome S → Type 0
  Fair reqs s out = (out.0 ≡ panic) ⊎ Served handle reqs s out.1.0 out.1.1

  answer-Fair :
      (req : Req) (send : Result (Unit {0})) (turns : List (Turn Req)) (s t : S) (reply : Reply)
      (rest : Outcome S)
      → ((reqs : List Req) (replies : List Reply) (u : S)
          → Served handle reqs t replies u
          → Served handle (req ∷ reqs) s (reply ∷ replies) u)
      → Fair (heard turns) t rest
      → Fair (heard ((ok req, send) ∷ turns)) s (answer reply send t rest)
  unfolding answer
  answer-Fair req (ok u) turns s t reply rest one (inl p) = inl p
  answer-Fair req (ok u) turns s t reply rest one (inr served) =
      inr (one (heard turns) rest.1.0 rest.1.1 served)
  answer-Fair req (err e) turns s t reply rest one h = elim (Bool-cases (is_eof e)) [
    | inl eof' ↦ rw eof' (inr (one [] [] t (all_served t)))
    | inr other ↦ rw other (inr (one [] [] t (all_served t)))
  ]
  answer-Fair req panic turns s t reply rest one h = inl refl

  react-Fair :
      (req : Req) (send : Result (Unit {0})) (turns : List (Turn Req)) (s t : S)
      (outcome : Result Res) (rest : Outcome S)
      → handle (some req) s ≡ (outcome, t)
      → Fair (heard turns) t rest
      → Fair (heard ((ok req, send) ∷ turns)) s (react outcome send t rest)
  unfolding react
  react-Fair req send turns s t (ok res) rest e h =
      answer-Fair req send turns s t reply_ok rest (λ reqs replies u served. stored e served) h
  react-Fair req send turns s t (err e') rest e h =
      answer-Fair req send turns s t (reply_error e') rest
        (λ reqs replies u served. refused e served) h
  react-Fair req send turns s t panic rest e h = inl refl

  -- A loop that does not end in a panic has handled every request that it received, up to the first
  -- reply that Send does not take: in order, each from the state that the one before it left, and
  -- each with the reply that its outcome calls for. An error of the handler does not end it.
  pub serve-Served : (turns : List (Turn Req)) (s : S) → Fair (heard turns) s (serve handle turns s)
  unfolding serve
  serve-Served [] s = inr (all_served s)
  serve-Served ((err e, send) ∷ turns) s = elim (Bool-cases (is_eof e)) [
    | inl eof' ↦ rw eof' (inr (all_served s))
    | inr other ↦ rw other (inr (all_served s))
  ]
  serve-Served ((panic, send) ∷ turns) s = inl refl
  serve-Served ((ok req, send) ∷ turns) s =
      react-Fair req send turns s (handle (some req) s).1 (handle (some req) s).0
        (serve handle turns (handle (some req) s).1) refl
        (serve-Served turns (handle (some req) s).1)

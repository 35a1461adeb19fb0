-- ===== src/Stream.antt =====
-- The loops over a bidirectional stream: StoreEvidences of service/evidence/evidence_store.go,
-- StoreAssessmentResults of service/orchestrator/assessment_results.go and AssessEvidences of
-- service/assessment/assessment.go. Each one receives a request, handles it, sends a reply, and goes
-- on after an error of the handler.
pub mod Served
use clouditor.Prelude.{Bool, true, false, Option, none, some, List, [], ◌∷◌, ◌++◌, if◌then◌else◌}
use clouditor.Status.{Error, Result, ok, err, panic, is_eof, status, unknown}
use clouditor.Exec.{Exec}

-- A reply: whether the request was handled, and the error whose text it carries.
pub record Reply : Type 0 where
  pub handled : Bool
  pub error : Option Error

abbrev pub reply_ok : Reply
reply_ok = record { handled = true; error = none }

abbrev pub reply_error : Error → Reply
reply_error e = record { handled = false; error = some e }

-- What one turn of the loop meets: what Recv returns, and what Send returns for the reply.
abbrev pub Turn : Type 0 → Type 0
Turn Req = Result Req × Result (Unit {0})

-- The outcome of a loop, and the replies that it has given to Send, with the state that it left.
abbrev pub Outcome : Type 0 → Type 0
Outcome S = Result (Unit {0}) × (List Reply × S)

-- A reply is given to Send, and the loop goes on or ends by what Send returns.
unfoldable pub answer : {S : Type 0} → Reply → Result (Unit {0}) → S → Outcome S → Outcome S
answer reply (ok u) t (final, (replies, u')) = (final, (reply ∷ replies, u'))
answer reply (err e) t rest =
    if is_eof e
    then (ok tt, (reply ∷ [], t))
    else (err (status unknown "cannot send response to the client"), (reply ∷ [], t))
answer reply panic t rest = (panic, (reply ∷ [], t))

-- The reply that an outcome of the handler calls for.
unfoldable pub react : {S Res : Type 0} → Result Res → Result (Unit {0}) → S → Outcome S → Outcome S
unfolding answer
react (ok res) send t rest = answer reply_ok send t rest
react (err e) send t rest = answer (reply_error e) send t rest
react panic send t rest = (panic, ([], t))

module _ {S Req Res : Type 0} (handle : Option Req → Exec S Res) where
  -- The loop. A script of turns that is used up is the end of the stream.
  unfoldable pub serve : List (Turn Req) → S → Outcome S
  unfolding react
  serve [] s = (ok tt, ([], s))
  serve ((err e, send) ∷ turns) s =
      if is_eof e
      then (ok tt, ([], s))
      else (err (status unknown "cannot receive stream request"), ([], s))
  serve ((panic, send) ∷ turns) s = (panic, ([], s))
  serve ((ok req, send) ∷ turns) s =
      let (outcome, t) = handle (some req) s in react outcome send t (serve turns t)

-- ===== src/Channels/Tests.antt =====
-- The theorems on api/streams.go at a channel whose first message is put back.
use mathlib.Core.List.{Perm}
use clouditor.Prelude.{inl, String, ◌≡◌, refl, true, some, [], ◌∷◌, ◌++◌, arith}
use clouditor.Prelude.Maps.{lookup}
use clouditor.Status.{Result, err, panic, plain}
use clouditor.Channels.{StreamChannel, get_stream, close_all}
use clouditor.Channels.Restart.{close_all-get_stream}
use clouditor.Channels.Loops.{Runtime, fresh, Step, accepts, fetches, fails, Steps, done, next}
use clouditor.Channels.Loops.Multisets.{fetched, view, Move, step-Move}
use clouditor.Channels.Loops.Exactly.{Steps-accepted}
use clouditor.Channels.Loops.Drain.{Steps-sent}

abbrev queued : Runtime String
queued = record fresh { queue = "first" ∷ []; accepted = "first" ∷ [] }

abbrev sending : Runtime String
sending = record fresh { loops = some "first" ∷ []; accepted = "first" ∷ [] }

abbrev failed : Runtime String
failed = record fresh { loops = []; accepted = "first" ∷ []; dead = true; returning = "first" ∷ [] }

to_sending : Step queued sending
to_sending = fetches "first" [] [] [] refl refl

to_failed : Step sending failed
to_failed = fails "first" [] [] refl

all_steps : Steps fresh failed
all_steps =
    next refl (accepts "first" (omega arith)) (next refl to_sending (next refl to_failed done))

step-Move_example : Move (view sending) (view failed)
step-Move_example = step-Move to_failed

Steps-accepted_example :
    Perm failed.accepted
      ((failed.queue ++ (fetched failed.loops ++ failed.returning)) ++ failed.sent)
Steps-accepted_example = Steps-accepted failed all_steps

Steps-sent_example : (t : Runtime String) × (Steps failed t × Perm ("first" ∷ []) t.sent)
Steps-sent_example = Steps-sent failed all_steps refl refl (inl refl)

abbrev lost : StreamChannel String
lost = record {
  stream = some "old";
  target = "localhost:9090";
  component = "Assessment";
  dead = true;
}

abbrev unavailable : String → Result String
unavailable target = err (plain "could not connect")

close_all-get_stream_example :
    close_all
      (get_stream "localhost:9090" "Assessment"
        (some unavailable)
        (("localhost:9090", lost) ∷ [])).1
    ≡ panic
unfolding lookup
close_all-get_stream_example =
    close_all-get_stream "localhost:9090" "Assessment" unavailable (("localhost:9090", lost) ∷ [])
      lost (plain "could not connect") refl refl refl

-- ===== src/Channels/Loops/Exactly.antt =====
-- No message of a StreamChannelOf in api/streams.go is lost or sent twice, whatever goroutines run.
use mathlib.Core.List.{Perm}
use mathlib.Mathlib.Data.Multiset.Defs.{coe-eq-coe}
use mathlib.Mathlib.Data.Multiset.ZeroCons.{cons}
use mathlib.Mathlib.Data.Multiset.AddSub.{add, cons-add, add-cons}
use clouditor.Prelude.{◌≡◌, refl, sym, ap, ◌∙◌, ◌++◌}
use clouditor.Channels.Loops.{Runtime, Steps, done, next, fresh}
use clouditor.Channels.Loops.Multisets.{
  fetched, Promise, Move, keep, take_in, deliver, view, step-Move,
}

module _ {M : Type 0} where
  Balanced : Promise M → Type 0
  Balanced p = p.accepted ≡ add p.pending p.sent

  Move-Balanced : {p q : Promise M} → Move p q → Balanced p → Balanced q
  unfolding Balanced
  Move-Balanced keep h = h
  Move-Balanced (take_in {p} m) h = ap (cons m) h ∙ sym (cons-add m p.pending p.sent)
  Move-Balanced (deliver {p} m rest k) h =
      h ∙ ap (λ x. add x p.sent) k ∙ cons-add m rest p.sent ∙ sym (add-cons m rest p.sent)

  Steps-Balanced : {s t : Runtime M} → Steps s t → Balanced (view s) → Balanced (view t)
  Steps-Balanced done h = h
  Steps-Balanced (next alive step rest) h = Steps-Balanced rest (Move-Balanced (step-Move step) h)

  -- In every state that the channel gets into, the messages that Send has taken are, each as often,
  -- those that are pending and those that are sent.
  pub Steps-accepted :
      (s : Runtime M)
      → Steps fresh s
      → Perm s.accepted ((s.queue ++ (fetched s.loops ++ s.returning)) ++ s.sent)
  unfolding Balanced view
  Steps-accepted s steps = coe-eq-coe.0 (Steps-Balanced steps refl)

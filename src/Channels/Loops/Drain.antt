-- ===== src/Channels/Loops/Drain.antt =====
-- A StreamChannelOf in api/streams.go that has a stream or is known to be dead can come to have sent all
-- its messages: some goroutine can go on, or GetStream can revive the channel.
use mathlib.Core.List.{Perm}
use mathlib.Core.Path.{subst}
use clouditor.Prelude.{
  false, ℕ, zero, suc, ◌<◌, ◌≡◌, refl, ◌∙◌, true, none, [], ◌++◌, ◌⊎◌, inl, inr, arith,
}
use clouditor.Channels.Loops.{Runtime, looks_up, finds_dead, restarts, Steps, done, next, fresh}
use clouditor.Channels.Loops.Multisets.{fetched}
use clouditor.Channels.Loops.Exactly.{Steps-accepted}
use clouditor.Channels.Loops.Progress.{
  nonempty, Drained, Alive, Able, Steps-Alive, weight, progress,
}

module _ {M : Type 0} where
  then : {s t u : Runtime M} → Steps s t → Steps t u → Steps s u
  then done rest = rest
  then (next runs step steps) rest = next runs step (then steps rest)

  drain :
      (n : ℕ) (s : Runtime M)
      → Able s
      → weight s < n
      → (t : Runtime M) × (Steps s t × (Drained t × (t.accepted ≡ s.accepted)))
  drain zero s able h = absurd (omega arith)
  drain (suc n) s able h = elim (progress s able) [
    | inl drained ↦ (s, (done, (drained, refl)))
    | inr p ↦
        let (u, (more, (drained, same))) = drain n p.after p.able (omega (arith, p.less, h)) in
        (u, (then p.steps more, (drained, same ∙ p.accepted)))
  ]

  -- A channel with a stream, or a dead one that a call of GetStream then gives one.
  Revived : Runtime M → Type 0
  Revived s = (t : Runtime M) × (Steps s t × (Able t × (t.accepted ≡ s.accepted)))

  revive :
      (s : Runtime M)
      → s.panicked ≡ false
      → s.mapped ≡ true
      → (s.stream ≡ true) ⊎ (s.dead ≡ true)
      → Alive s
      → Revived s
  unfolding Alive Revived
  revive s runs mapped (inl stream) alive =
      (s, (done, (record { runs = runs; mapped = mapped; stream = stream; alive = alive }, refl)))
  revive s runs mapped (inr dead) alive = (
    _,
    (
      next runs (looks_up mapped) (
          next runs (finds_dead s.looking_up refl dead)
            (next runs (restarts s.restarting refl) done)),
      (
        record {
          runs = runs;
          mapped = mapped;
          stream = refl;
          alive = λ e. absurd (nonempty none s.loops [] e);
        },
        refl,
      ),
    ),
  )

  Drained-sent : (t : Runtime M) → Steps fresh t → Drained t → Perm t.accepted t.sent
  unfolding Drained
  Drained-sent t steps (queue, (loops, returning)) =
      let all_sent : t.queue ++ (fetched t.loops ++ t.returning) ≡ [] =
        rw (queue, loops, returning) refl in
      subst (λ l. Perm t.accepted (l ++ t.sent)) all_sent (Steps-accepted t steps)

  -- In every state that a channel gets into, if no goroutine has panicked, the map of channels still has
  -- the channel, and it has a stream or is known to be dead, further steps can send every message that
  -- Send has taken, each as often as Send has taken it.
  pub Steps-sent :
      (s : Runtime M)
      → Steps fresh s
      → s.panicked ≡ false
      → s.mapped ≡ true
      → (s.stream ≡ true) ⊎ (s.dead ≡ true)
      → (t : Runtime M) × (Steps s t × Perm s.accepted t.sent)
  unfolding Alive Revived
  Steps-sent s steps runs mapped connected =
      let (r, (first, (able, kept))) =
        revive s runs mapped connected (Steps-Alive steps (λ e. absurd (cc))) in
      let (t, (more, (drained, same))) = drain (suc (weight r)) r able (omega arith) in
      let path = then first more in
      (
        t,
        (path, subst (λ l. Perm l t.sent) (same ∙ kept) (Drained-sent t (then steps path) drained)),
      )

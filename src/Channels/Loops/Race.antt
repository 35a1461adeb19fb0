-- ===== src/Channels/Loops/Race.antt =====
-- Two calls of GetStream in api/streams.go that find the same channel dead: they start a send loop each,
-- or one restarts the channel and the other leaves it without a stream.
use clouditor.Prelude.{◌≡◌, refl, ap, true, false, none, some, List, [], ◌∷◌, ◌++◌}
use clouditor.Channels.Loops.{
  Runtime, fetches, looks_up, finds_dead, restarts, restart_fails, panics, Steps, done, next,
}

module _ {M : Type 0} where
  -- From a dead channel without a loop and with two messages in its buffer, the channel can get into
  -- a state in which two loops send a message each.
  pub Steps-two_loops :
      (s : Runtime M) (m n : M) (q : List M)
      → s.panicked ≡ false
      → s.mapped ≡ true
      → s.dead ≡ true
      → s.loops ≡ []
      → s.queue ≡ m ∷ n ∷ q
      → (t : Runtime M) × (Steps s t × (t.loops ≡ some m ∷ some n ∷ []))
  Steps-two_loops s m n q runs mapped dead idle queue = (
    _,
    (
      next runs (looks_up mapped) (
          next runs (looks_up mapped) (
            next runs (finds_dead _ refl dead) (
              next runs (finds_dead _ refl dead) (
                next runs (restarts _ refl) (
                  next runs (restarts _ refl) (
                    next runs
                      (fetches m (n ∷ q) [] (none ∷ []) queue
                        (ap (λ l. (l ++ none ∷ []) ++ none ∷ []) idle))
                      (next runs (fetches n q (some m ∷ []) [] refl refl) done))))))),
      refl,
    ),
  )

  -- From a dead channel without a loop and with a message in its buffer, the channel can get into a
  -- state in which a loop has the message, no call of GetStream restarts the channel, since it is not
  -- dead, and the loop has no stream to send on, so that the process can panic next.
  pub Steps-no_stream :
      (s : Runtime M) (m : M) (q : List M)
      → s.panicked ≡ false
      → s.mapped ≡ true
      → s.dead ≡ true
      → s.loops ≡ []
      → s.queue ≡ m ∷ q
      → (t : Runtime M) × (Steps s t
          × ((t.loops ≡ some m ∷ [])
              × ((t.dead ≡ false) × ((t.stream ≡ false) × (t.panicked ≡ true)))))
  Steps-no_stream s m q runs mapped dead idle queue = (
    _,
    (
      next runs (looks_up mapped) (
          next runs (looks_up mapped) (
            next runs (finds_dead _ refl dead) (
              next runs (finds_dead _ refl dead) (
                next runs (restarts _ refl) (
                  next runs (restart_fails _ refl) (
                    next runs (fetches m q [] [] queue (ap (λ l. l ++ none ∷ []) idle))
                      (next runs (panics refl) done))))))),
      (refl, (refl, (refl, refl))),
    ),
  )

-- ===== src/Channels/Loops.antt =====
-- The goroutines of a StreamChannelOf in api/streams.go: sendLoop, the goroutines that put a message
-- back, Send, and the calls of GetStream for the channel's target. A step of one goroutine is a step of
-- the relation; the goroutines interleave in any order, until one of them panics, which ends the process.
pub mod Multisets
pub mod Exactly
pub mod Race
pub mod Progress
pub mod Drain
use clouditor.Prelude.{
  ℕ, ◌≡◌, ◌<◌, Bool, true, false, Option, none, some, List, [], ◌∷◌, ◌++◌, length, suc,
}

-- make(chan MsgType, 1000)
abbrev pub capacity : ℕ
capacity = 1000

pub record Runtime (M : Type 0) : Type 0 where
  -- the channel's buffer
  pub queue : List M
  pub dead : Bool
  -- the send loops that run, each with the message that it is sending, if it has one
  pub loops : List (Option M)
  -- the messages of the goroutines that put one back
  pub returning : List M
  -- whether `c.stream` is not nil
  pub stream : Bool
  -- whether the map of channels has the channel under its target
  pub mapped : Bool
  -- the calls of GetStream that have read the channel from the map and have not read `c.dead`
  pub looking_up : ℕ
  -- the calls of GetStream that have found the channel dead and are not done
  pub restarting : ℕ
  pub panicked : Bool
  -- what SendMsg has taken, and what Send has been called with and taken, the last one first
  pub sent : List M
  pub accepted : List M

-- The channel that addStream makes, with the send loop that it starts.
abbrev pub fresh : {M : Type 0} → Runtime M
fresh = record {
  queue = [];
  dead = false;
  loops = none ∷ [];
  returning = [];
  stream = true;
  mapped = true;
  looking_up = 0;
  restarting = 0;
  panicked = false;
  sent = [];
  accepted = [];
}

pub data Step {M : Type 0} : Runtime M → Runtime M → Type 0 where
  -- Send
  accepts :
      {s : Runtime M} (m : M)
      → length s.queue < capacity
      → Step s (record s { queue = s.queue ++ m ∷ []; accepted = m ∷ s.accepted })
  -- `for m := range c.channel`
  fetches :
      {s : Runtime M} (m : M) (q : List M) (before after : List (Option M))
      → s.queue ≡ m ∷ q
      → s.loops ≡ before ++ none ∷ after
      → Step s (record s { queue = q; loops = before ++ some m ∷ after })
  -- SendMsg returns no error
  delivers :
      {s : Runtime M} (m : M) (before after : List (Option M))
      → s.loops ≡ before ++ some m ∷ after
      → Step s (record s { loops = before ++ none ∷ after; sent = m ∷ s.sent })
  -- SendMsg returns an error: the loop ends
  fails :
      {s : Runtime M} (m : M) (before after : List (Option M))
      → s.loops ≡ before ++ some m ∷ after
      → Step s (record s { dead = true; loops = before ++ after; returning = m ∷ s.returning })
  -- `c.channel <- m`
  puts_back :
      {s : Runtime M} (m : M) (before after : List M)
      → s.returning ≡ before ++ m ∷ after
      → length s.queue < capacity
      → Step s (record s { queue = s.queue ++ m ∷ []; returning = before ++ after })
  -- GetStream reads the map, and then `c.dead`
  looks_up : {s : Runtime M} → s.mapped ≡ true → Step s (record s { looking_up = suc s.looking_up })
  finds_alive :
      {s : Runtime M} (n : ℕ)
      → s.looking_up ≡ suc n
      → s.dead ≡ false
      → Step s (record s { looking_up = n })
  finds_dead :
      {s : Runtime M} (n : ℕ)
      → s.looking_up ≡ suc n
      → s.dead ≡ true
      → Step s (record s { looking_up = n; restarting = suc s.restarting })
  -- restartStream without an initializer, and with one that fails, whose stream is nil
  restart_refused :
      {s : Runtime M} (n : ℕ) → s.restarting ≡ suc n → Step s (record s { restarting = n })
  restart_fails :
      {s : Runtime M} (n : ℕ)
      → s.restarting ≡ suc n
      → Step s (record s { restarting = n; stream = false })
  -- restartStream with a stream
  restarts :
      {s : Runtime M} (n : ℕ)
      → s.restarting ≡ suc n
      → Step s
          (record s { restarting = n; stream = true; dead = false; loops = s.loops ++ none ∷ [] })
  -- addStream of another call of GetStream that has found no channel for the target
  overwritten : {s : Runtime M} → Step s (record s { mapped = false })
  -- SendMsg, CloseSend or RecvMsg of a loop, on a nil stream
  panics : {s : Runtime M} → s.stream ≡ false → Step s (record s { panicked = true })

pub data Steps {M : Type 0} : Runtime M → Runtime M → Type 0 where
  done : {s : Runtime M} → Steps s s
  next : {s t u : Runtime M} → s.panicked ≡ false → Step s t → Steps t u → Steps s u

-- ===== src/Channels.antt =====
-- The stream channels of api/streams.go: StreamsOf with GetStream, addStream, restartStream and
-- CloseAll. A stream is of a type S of the gRPC library, and a message of a type M; `none` is the
-- nil stream that a failed initialization leaves behind. The goroutines that send are in
-- Channels/Loops.
pub mod Restart
pub mod Loops
mod Tests
use clouditor.Prelude.{String, Bool, true, false, Option, none, some, List, [], ◌∷◌, if◌then◌else◌}
use clouditor.Prelude.Maps.{Map, lookup, put}
use clouditor.Status.{Error, Result, ok, err, panic, plain, wrapped}
use clouditor.Exec.{Exec}

-- StreamChannelOf, without the messages in its channel.
pub record StreamChannel (S : Type 0) : Type 0 where
  pub stream : Option S
  pub target : String
  pub component : String
  pub dead : Bool

-- InitFuncOf; `none` is a nil function.
abbrev pub InitFunc : Type 0 → Type 0
InitFunc S = Option (String → Result S)

abbrev pub Streams : Type 0 → Type 0
Streams S = Map (StreamChannel S)

module _ {S : Type 0} where
  unfoldable pub added : String → String → Result S → Exec (Streams S) (StreamChannel S)
  added target component (ok stream) channels =
      let c : StreamChannel S = record {
        stream = some stream;
        target = target;
        component = component;
        dead = false;
      } in
      (ok c, put target c channels)
  added target component (err e) channels = (err (wrapped "could not init stream" e), channels)
  added target component panic channels = (panic, channels)

  unfoldable pub add_stream : String → String → InitFunc S → Exec (Streams S) (StreamChannel S)
  unfolding added
  add_stream target component none channels =
      (err (plain "missing stream initializer function"), channels)
  add_stream target component (some init) channels = added target component (init target) channels

  -- `c.stream, err = init(…)` writes the stream also when it fails. `key` is the entry of the map
  -- that points to the channel.
  unfoldable pub restarted :
      String → StreamChannel S → Result S → Exec (Streams S) (StreamChannel S)
  restarted key c (ok stream) channels =
      let d = record c { stream = some stream; dead = false } in (ok d, put key d channels)
  restarted key c (err e) channels =
      (err (wrapped "could not init stream" e), put key (record c { stream = none }) channels)
  restarted key c panic channels = (panic, channels)

  unfoldable pub restart_stream :
      String → StreamChannel S → InitFunc S → Exec (Streams S) (StreamChannel S)
  unfolding restarted
  restart_stream key c none channels = (err (plain "missing stream initializer function"), channels)
  restart_stream key c (some init) channels = restarted key c (init c.target) channels

  -- The outcome with the error wrapped.
  abbrev pub wrap : {A : Type 0} → String → Result A × Streams S → Result A × Streams S
  wrap text (ok a, channels) = (ok a, channels)
  wrap text (err e, channels) = (err (wrapped text e), channels)
  wrap text (panic, channels) = (panic, channels)

  -- An entry of the map: a dead channel is restarted.
  unfoldable pub of_entry :
      String → StreamChannel S → InitFunc S → Exec (Streams S) (StreamChannel S)
  of_entry key c init channels =
      if c.dead
      then wrap "could not restart stream" (restart_stream key c init channels)
      else (ok c, channels)

  unfoldable pub found_or_added :
      Option (StreamChannel S) → String → String → InitFunc S → Exec (Streams S) (StreamChannel S)
  found_or_added none target component init channels =
      wrap "could not add stream" (add_stream target component init channels)
  found_or_added (some c) target component init channels = of_entry target c init channels

  unfoldable pub get_stream : String → String → InitFunc S → Exec (Streams S) (StreamChannel S)
  unfolding found_or_added
  get_stream target component init channels =
      found_or_added (lookup target channels) target component init channels

  -- `channel.stream.CloseSend()` on every channel; its error is ignored, and a nil stream panics.
  unfoldable pub close_all : Streams S → Result (Unit {0})
  close_all [] = ok tt
  close_all ((target, c) ∷ rest) =
      let others = close_all rest in elim c.stream [ none ↦ panic | some stream ↦ others ]

-- ===== src/Connection.antt =====
-- RPCConnection of api/connection.go. The connection of gRPC is of a type C; grpc.Dial, its state and
-- the calls over it are parameters. A connection is used by one caller at a time.
pub mod Authorizer
pub mod Reconnect
mod Tests
use clouditor.Prelude.{String, Bool, true, false, not, Option, none, some, if◌then◌else◌}
use clouditor.Status.{Error, Result, ok, err, panic, wrapped}
use clouditor.Exec.{Exec, ◌>>◌}

pub record RpcConnection (C : Type 0) : Type 0 where
  pub target : String
  pub cc : Option C

-- grpc.Dial with the options of the connection, and whether a connection has been shut down.
pub record Grpc (C : Type 0) : Type 0 where
  pub dial : String → Result C
  pub is_shutdown : C → Bool
  -- errors.Is(err, io.EOF) || errors.Is(err, io.ErrUnexpectedEOF)
  pub is_eof : Error → Bool

unfoldable pub force_reconnect : {C : Type 0} → RpcConnection C → RpcConnection C
force_reconnect conn = record conn { cc = none }

module _ {C : Type 0} (grpc : Grpc C) where
  -- A failed Dial leaves no connection.
  unfoldable pub dialed : Result C → Exec (RpcConnection C) (Unit {0})
  dialed (ok c) conn = (ok tt, record conn { cc = some c })
  dialed (err e) conn =
      (err (wrapped "could not connect to gPRC target" e), record conn { cc = none })
  dialed panic conn = (panic, conn)

  unfoldable pub is_connected : Option C → Bool
  is_connected none = false
  is_connected (some c) = not (grpc.is_shutdown c)

  unfoldable pub init : Exec (RpcConnection C) (Unit {0})
  unfolding is_connected dialed
  init conn = if is_connected conn.cc then (ok tt, conn) else dialed (grpc.dial conn.target) conn

  module _ {B : Type 0} where
    -- An end of the stream drops the connection.
    unfoldable pub forwarded : Result B → Exec (RpcConnection C) B
    unfolding force_reconnect
    forwarded (ok b) conn = (ok b, conn)
    forwarded (err e) conn = (err e, if grpc.is_eof e then force_reconnect conn else conn)
    forwarded panic conn = (panic, conn)

    unfoldable pub over : (C → Result B) → Option C → Exec (RpcConnection C) B
    unfolding forwarded
    over call none conn = (panic, conn)
    over call (some c) conn = forwarded (call c) conn

    -- Invoke and NewStream, whose calls over the connection are `call`.
    unfoldable pub invoke : (C → Result B) → Exec (RpcConnection C) B
    unfolding init over
    invoke call = init >> λ conn. over call conn.cc conn

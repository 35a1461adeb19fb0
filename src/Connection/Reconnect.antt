-- ===== src/Connection/Reconnect.antt =====
-- Calls over a connection of api/connection.go, and what they leave behind.
use mathlib.Core.Path.{subst}
use clouditor.Prelude.{◌≡◌, refl, ap, Bool, true, false, Option, none, some, if◌then◌else◌, arith}
use clouditor.Status.{Error, Result, ok, err, panic}
use clouditor.Exec.{◌>>◌}
use clouditor.Connection.{
  RpcConnection, Grpc, force_reconnect, dialed, is_connected, init, forwarded, over, invoke,
}

module _ {C : Type 0} (grpc : Grpc C) where
  -- The connection without its connection of gRPC.
  abbrev dropped : RpcConnection C → RpcConnection C
  dropped conn = record conn { cc = none }

  module _ {A : Type 0} (call : C → Result A) (e : Error) (eof : grpc.is_eof e ≡ true) where
    forwarded-dropped :
        (r : Result A) (conn after : RpcConnection C)
        → forwarded grpc r conn ≡ (err e, after)
        → dropped conn ≡ after
    unfolding forwarded force_reconnect
    forwarded-dropped (ok b) conn after h = absurd (cc (ap (λ p. p.0) h))
    forwarded-dropped (err f) conn after h = ground arith
    forwarded-dropped panic conn after h = absurd (cc (ap (λ p. p.0) h))

    over-dropped :
        (c : Option C) (conn after : RpcConnection C)
        → over grpc call c conn ≡ (err e, after)
        → dropped conn ≡ after
    unfolding over
    over-dropped none conn after h = absurd (cc (ap (λ p. p.0) h))
    over-dropped (some c) conn after h = forwarded-dropped (call c) conn after h

    dialed-dropped :
        (r : Result C) (conn after : RpcConnection C)
        → (dialed grpc r >> λ conn. over grpc call conn.cc conn) conn ≡ (err e, after)
        → dropped conn ≡ after
    unfolding dialed
    dialed-dropped (ok c) conn after h = over-dropped (some c) (record conn { cc = some c }) after h
    dialed-dropped (err f) conn after h = ap (λ p. p.1) h
    dialed-dropped panic conn after h = absurd (cc (ap (λ p. p.0) h))

    invoke-dropped :
        (connected : Bool) (conn after : RpcConnection C)
        → ((λ conn. if connected then (ok tt, conn) else dialed grpc (grpc.dial conn.target) conn)
              >> λ conn. over grpc call conn.cc conn)
            conn
          ≡ (err e, after)
        → dropped conn ≡ after
    invoke-dropped true conn after h = over-dropped conn.cc conn after h
    invoke-dropped false conn after h = dialed-dropped (grpc.dial conn.target) conn after h

  -- After a call that has ended with an end of the stream, the next call, of whatever kind, dials the
  -- target again and goes over the new connection, if it can be dialed.
  pub invoke-invoke :
      {A B : Type 0} (call : C → Result A) (next : C → Result B) (conn after : RpcConnection C)
      (e : Error) (c : C)
      → invoke grpc call conn ≡ (err e, after)
      → grpc.is_eof e ≡ true
      → grpc.dial conn.target ≡ ok c
      → invoke grpc next after ≡ forwarded grpc (next c) (record conn { cc = some c })
  unfolding invoke init is_connected dialed over
  invoke-invoke call next conn after e c h eof dials =
      subst
        (λ conn'. invoke grpc next conn' ≡ forwarded grpc (next c) (record conn { cc = some c }))
        (invoke-dropped call e eof (is_connected grpc conn.cc) conn after h) (rw dials refl)

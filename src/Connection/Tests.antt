-- ===== src/Connection/Tests.antt =====
-- Connections that are numbered by their targets.
use clouditor.Prelude.{String, ◌≡◌, refl, false, none, some}
use clouditor.Status.{ok, err, eof, is_eof}
use clouditor.Connection.{RpcConnection, Grpc, forwarded, invoke}
use clouditor.Connection.Reconnect.{invoke-invoke}

abbrev grpc : Grpc String
grpc = record { dial = λ target. ok target; is_shutdown = λ c. false; is_eof = is_eof }

abbrev broken : RpcConnection String
broken = record { target = "localhost:9090"; cc = some "old" }

-- The first call ends with an end of the stream, and the next one answers.
invoke-invoke_example :
    invoke grpc (λ c. ok c) (record { target = "localhost:9090"; cc = none })
    ≡ (ok "localhost:9090", record { target = "localhost:9090"; cc = some "localhost:9090" })
unfolding forwarded is_eof
invoke-invoke_example =
    invoke-invoke grpc {A = String} (λ c. err eof) (λ c. ok c) broken
      (record { target = "localhost:9090"; cc = none }) eof "localhost:9090" (unfold invoke in refl)
      refl refl

-- ===== src/Validate.antt =====
-- Validate of api/validate.go, with the early return that every handler makes of it. The rules of
-- the messages are protovalidate's, a parameter; `none` is a nil request.
use clouditor.Prelude.{Option, none, some}
use clouditor.Status.{Error, Result, ok, err, status, invalid_argument}

abbrev pub Rules {ℓ} : Type ℓ → Type ℓ
Rules Req = Req → Option Error

unfoldable pub validate {ℓ} : {Req : Type ℓ} → Rules Req → Option Req → Result Req
validate rules none = err (status invalid_argument "empty request")
validate rules (some req) = elim (rules req) [
  | none ↦ ok req
  | some e ↦ err (status invalid_argument "invalid request")
]

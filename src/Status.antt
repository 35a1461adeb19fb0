-- ===== src/Status.antt =====
-- Go's error values as the services build and test them (api/errors.go, persistence/persistence.go,
-- service/authorization.go) and the outcome of a Go call. Of a formatted message the constant text
-- is kept; what a verb prints is left out.
use clouditor.Prelude.{String, Bool, true, false}

-- The gRPC codes that the services return.
pub data Code : Type 0 where
  invalid_argument permission_denied not_found internal already_exists : Code
  failed_precondition aborted unauthenticated unknown : Code

pub data Error : Type 0 where
  -- errors.New(text), and the errors of the standard library
  plain : String → Error
  -- the errors of package persistence
  record_not_found constraint_failed unique_constraint_failed : Error
  -- io.EOF
  eof : Error
  -- fmt.Errorf("text: %w", err)
  wrapped : String → Error → Error
  -- status.Errorf(code, text)
  status : Code → String → Error

-- What a call gives back: its value, its error, or a panic.
pub data Result {ℓ} (A : Type ℓ) : Type ℓ where
  ok : A → Result A
  err : Error → Result A
  panic : Result A

-- errors.Is(err, persistence.ErrRecordNotFound): the chain of wrapped errors is searched, and what
-- status.Errorf printed into its message is not part of the chain.
unfoldable pub is_record_not_found : Error → Bool
is_record_not_found record_not_found = true
is_record_not_found (wrapped text e) = is_record_not_found e
is_record_not_found _ = false

-- errors.Is(err, persistence.ErrConstraintFailed)
unfoldable pub is_constraint_failed : Error → Bool
is_constraint_failed constraint_failed = true
is_constraint_failed (wrapped text e) = is_constraint_failed e
is_constraint_failed _ = false

-- errors.Is(err, persistence.ErrUniqueConstraintFailed)
unfoldable pub is_unique_constraint_failed : Error → Bool
is_unique_constraint_failed unique_constraint_failed = true
is_unique_constraint_failed (wrapped text e) = is_unique_constraint_failed e
is_unique_constraint_failed _ = false

-- errors.Is(err, io.EOF)
unfoldable pub is_eof : Error → Bool
is_eof eof = true
is_eof (wrapped text e) = is_eof e
is_eof _ = false

-- service.ErrPermissionDenied
abbrev pub err_permission_denied : Error
err_permission_denied = status permission_denied "access denied"

infixl 5 ◌>>=◌
abbrev pub ◌>>=◌ {ℓ κ} : {A : Type ℓ} {B : Type κ} → Result A → (A → Result B) → Result B
panic >>= go_on = panic
err e >>= go_on = err e
ok value >>= go_on = go_on value

-- A caller's treatment of an error that a call returned.
abbrev pub on_error {ℓ} : {A : Type ℓ} → Result A → (Error → Result A) → Result A
on_error (ok a) f = ok a
on_error (err e) f = f e
on_error panic f = panic

-- ===== src/Prelude/Results.antt =====
-- Go's `error` values and `(value, error)` results.
use Prim.Native.Nat.{ℕ}
use mathlib.Core.Path.{◌≡◌, refl}
use mathlib.Core.Bool.{Bool, true, false}
use mathlib.Core.Logic.{◌⊎◌, inl, inr}
use server_anytls.Prelude.Tests.{Bytes}

pub data Error : Type 0 where
  -- `io.ErrClosedPipe`, `net.ErrClosed`, `io.EOF`, `io.ErrUnexpectedEOF`, `os.ErrDeadlineExceeded`
  closed_pipe net_closed eof unexpected_eof deadline_exceeded : Error
  -- an error of the connection below, by a code
  conn_failed : ℕ → Error
  -- `fmt.Errorf` and `errors.New`, by the text
  message : Bytes → Error
  -- `os.ErrNotExist`
  not_exist : Error
  -- `fmt.Errorf` with `%w`
  wrapped : (text : Bytes) (cause : Error) → Error
  -- `configError` of internal/app/server/errors.go
  config_error : (field : Bytes) (cause : Error) → Error

pub data Result {ℓ} (A : Type ℓ) : Type ℓ where
  ok : A → Result A
  err : Error → Result A

infixl 5 ◌>>=◌
abbrev pub ◌>>=◌ {ℓ κ} : {A : Type ℓ} {B : Type κ} → Result A → (A → Result B) → Result B
ok a >>= f = f a
err e >>= f = err e

-- `errors.Is(err, net.ErrClosed)`
abbrev pub is_net_closed : Error → Bool
is_net_closed net_closed = true
is_net_closed (wrapped text cause) = is_net_closed cause
is_net_closed (config_error field cause) = is_net_closed cause
is_net_closed _ = false

pub Result-cases {ℓ} :
    {A : Type ℓ} (r : Result A) → ((a : A) × (r ≡ ok a)) ⊎ ((e : Error) × (r ≡ err e))
Result-cases (ok a) = inl (a, refl)
Result-cases (err e) = inr (e, refl)

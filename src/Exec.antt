-- ===== src/Exec.antt =====
-- Exceptions of the services (app/core/exceptions.py, and those of the libraries that the code
-- catches or lets through), and code that reads and writes a state and may raise. What was
-- written before an exception stays written; undoing it is the transaction's work.
use price_monitoring_service.Prelude.{ℕ, String}

-- `AppError` and its subclasses carry the detail text; the others are the exceptions of the
-- standard library and of httpx, SQLAlchemy and aiosmtplib, by their class.
pub data Exception : Type 0 where
  app_error not_found conflict : String → Exception
  value_error key_error type_error arithmetic_error : Exception
  transport_error smtp_error integrity_error data_error pending_rollback_error : Exception
  http_status_error : ℕ → Exception
  -- FastAPI's `HTTPException`, with its status code and detail
  http_exception : ℕ → String → Exception

pub data Result {ℓ} (A : Type ℓ) : Type ℓ where
  ok : A → Result A
  err : Exception → Result A

abbrev pub Exec {ℓ} : Type ℓ → Type ℓ → Type ℓ
Exec S A = S → Result A × S

module _ {ℓ} {S A : Type ℓ} where
  abbrev pub pure : A → Exec S A
  pure a s = (ok a, s)

  abbrev pub raise : Exception → Exec S A
  raise e s = (err e, s)

  abbrev pub lift : Result A → Exec S A
  lift r s = (r, s)

  abbrev pub gets : (S → A) → Exec S A
  gets f s = (ok (f s), s)

  -- what `try` and `except Exception` do with the outcome of the block
  abbrev pub recover : (Exception → Exec S A) → Result A × S → Result A × S
  recover handler (ok a, s) = (ok a, s)
  recover handler (err e, s) = handler e s

abbrev pub modify : {S : Type 0} → (S → S) → Exec S (Unit {0})
modify f s = (ok tt, f s)

-- what a block does with the outcome of its first action
abbrev pub resume {ℓ} : {S A B : Type ℓ} → (A → Exec S B) → Result A × S → Result B × S
resume f (ok a, s) = f a s
resume f (err e, s) = (err e, s)

infixl 5 ◌>>=◌ ◌>>◌
abbrev pub ◌>>=◌ {ℓ} : {S A B : Type ℓ} → Exec S A → (A → Exec S B) → Exec S B
◌>>=◌ m f s = resume f (m s)

abbrev pub ◌>>◌ {ℓ} : {S A B : Type ℓ} → Exec S A → Exec S B → Exec S B
◌>>◌ m k s = resume (λ _. k) (m s)

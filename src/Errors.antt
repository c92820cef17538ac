-- ===== src/Errors.antt =====
-- core/errors.py: the exception hierarchy, and results that carry an exception.
use Prim.Native.String.{String}
use knowledgeos.Prelude.{Bool, true, false, ◌≡◌, refl, if◌then◌else◌, ℕ, Option, none}
use knowledgeos.Text.{Text}

-- The subclasses of `AppError`.
pub data Kind : Type 0 where
  app_error validation authentication authorization not_found conflict payload_too_large : Kind
  unsupported_media rate_limit provider provider_timeout dependency tenant_isolation : Kind

unfoldable pub status_code : Kind → ℕ
status_code Kind.app_error = 500
status_code Kind.validation = 422
status_code Kind.authentication = 401
status_code Kind.authorization = 403
status_code Kind.not_found = 404
status_code Kind.conflict = 409
status_code Kind.payload_too_large = 413
status_code Kind.unsupported_media = 415
status_code Kind.rate_limit = 429
status_code Kind.provider = 502
status_code Kind.provider_timeout = 504
status_code Kind.dependency = 503
status_code Kind.tenant_isolation = 500

-- The class attribute `error`.
unfoldable pub error_name : Kind → String
error_name Kind.app_error = "internal_error"
error_name Kind.validation = "validation_error"
error_name Kind.authentication = "authentication_error"
error_name Kind.authorization = "authorization_error"
error_name Kind.not_found = "not_found"
error_name Kind.conflict = "conflict"
error_name Kind.payload_too_large = "payload_too_large"
error_name Kind.unsupported_media = "unsupported_media_type"
error_name Kind.rate_limit = "rate_limited"
error_name Kind.provider = "provider_error"
error_name Kind.provider_timeout = "provider_timeout"
error_name Kind.dependency = "dependency_unavailable"
error_name Kind.tenant_isolation = "internal_error"

-- The message: a literal, or an f-string with its number or its text.
pub data Detail : Type 0 where
  literal : String → Detail
  with_number : String → ℕ → String → Detail
  with_numbers : String → ℕ → String → ℕ → String → Detail
  with_text : String → Text → String → Detail
  with_texts : String → Text → String → Text → String → Detail

pub record AppError : Type 0 where
  pub kind : Kind
  pub detail : Detail
  pub retry_after : Option ℕ

abbrev pub plain : Kind → String → AppError
plain k text = record { kind = k; detail = literal text; retry_after = none }

pub data Result {ℓ} (A : Type ℓ) : Type ℓ where
  ok : A → Result A
  err : AppError → Result A

-- What passes a test that raises otherwise.
pub passed :
    {A : Type 0} (b : Bool) (r : Result A) (e : AppError) (a : A)
    → (if b then r else err e) ≡ ok a
    → (b ≡ true) × (r ≡ ok a)
passed true r e a h = (refl, h)
passed false r e a h = cc h

-- What is not stopped by a test that raises.
pub not_stopped :
    {A : Type 0} (b : Bool) (r : Result A) (e : AppError) (a : A)
    → (if b then err e else r) ≡ ok a
    → (b ≡ false) × (r ≡ ok a)
not_stopped true r e a h = cc h
not_stopped false r e a h = (refl, h)

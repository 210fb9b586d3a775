-- ===== src/Errors.antt =====
-- apps/api/app/core/errors.py and the exception handlers of apps/api/app/main.py. A message with
-- values put into it keeps its fixed text.
use Prim.Native.String.{String}
use text.Mathlib.Text.{◌==◌ as string_eq}
use crypto_intelligence_plat.Base.{
  Bool, Option, false, if◌then◌else◌, none, refl, some, true, ℕ, ◌≡◌, ◌≢◌,
}

-- The subclasses of `AppError`.
pub data ErrorClass : Type 0 where
  app validation auth forbidden not_found conflict rate_limit : ErrorClass
  provider provider_retryable provider_timeout provider_permanent ai_provider : ErrorClass

abbrev pub status_code : ErrorClass → ℕ
status_code app = 500
status_code validation = 422
status_code auth = 401
status_code forbidden = 403
status_code not_found = 404
status_code conflict = 409
status_code rate_limit = 429
status_code provider = 502
status_code provider_retryable = 502
status_code provider_timeout = 502
status_code provider_permanent = 400
status_code ai_provider = 502

-- The class attribute `code`.
abbrev pub class_code : ErrorClass → String
class_code app = "internal_error"
class_code validation = "validation_error"
class_code auth = "unauthorized"
class_code forbidden = "forbidden"
class_code not_found = "not_found"
class_code conflict = "conflict"
class_code rate_limit = "rate_limited"
class_code provider = "provider_unavailable"
class_code provider_retryable = "provider_retryable"
class_code provider_timeout = "provider_timeout"
class_code provider_permanent = "provider_permanent"
class_code ai_provider = "ai_unavailable"

-- `issubclass(c, ProviderError)`
abbrev pub is_provider_error : ErrorClass → Bool
is_provider_error provider = true
is_provider_error provider_retryable = true
is_provider_error provider_timeout = true
is_provider_error provider_permanent = true
is_provider_error _ = false

abbrev pub is_ai_provider : ErrorClass → Bool
is_ai_provider ai_provider = true
is_ai_provider _ = false

-- `retry_after` is the header that `RateLimitError` sets.
pub record AppError : Type 0 where
  pub class_of : ErrorClass
  pub message : String
  pub error_code : String
  pub retry_after : Option ℕ

abbrev code_or : Option String → ErrorClass → String
code_or none c = class_code c
code_or (some s) c = if string_eq s "" then class_code c else s

-- `AppError.__init__`: the message defaults to the class's code, and a code overrides it afterwards.
abbrev pub make_error : ErrorClass → String → Option String → Option ℕ → AppError
make_error c message code retry = record {
  class_of = c;
  message = if string_eq message "" then class_code c else message;
  error_code = code_or code c;
  retry_after = retry;
}

-- What Python code raises: an `AppError`, or one of the other exceptions that the program names.
pub data Exn : Type 0 where
  app_error : AppError → Exn
  token_error : String → Exn
  init_data_error : Exn
  value_error : Exn
  integrity_error : Exn
  multiple_results : Exn
  runtime_error : Exn
  decoding_error : Exn

abbrev pub validation_error : String → Exn
validation_error m = app_error (make_error validation m none none)

abbrev pub auth_error : String → Exn
auth_error m = app_error (make_error auth m none none)

abbrev pub not_found_error : String → Exn
not_found_error m = app_error (make_error not_found m none none)

abbrev pub conflict_error : String → Exn
conflict_error m = app_error (make_error conflict m none none)

abbrev pub rate_limit_error : String → Option ℕ → Exn
rate_limit_error m retry = app_error (make_error rate_limit m none retry)

abbrev pub provider_error : ErrorClass → String → Exn
provider_error c m = app_error (make_error c m none none)

abbrev pub ai_provider_error : String → Exn
ai_provider_error m = app_error (make_error ai_provider m none none)

-- `except ProviderError`
abbrev pub catches_provider : Exn → Bool
catches_provider (app_error e) = is_provider_error e.class_of
catches_provider _ = false

-- `except AiProviderError`
abbrev pub catches_ai : Exn → Bool
catches_ai (app_error e) = is_ai_provider e.class_of
catches_ai _ = false

pub record Response : Type 0 where
  pub status : ℕ
  pub body_code : String
  pub body_message : String
  pub retry_header : Option ℕ

-- `app_error_handler` and `unhandled_handler`
unfoldable pub respond : Exn → Response
respond (app_error e) = record {
  status = status_code e.class_of;
  body_code = e.error_code;
  body_message = e.message;
  retry_header = e.retry_after;
}
respond _ = record {
  status = 500;
  body_code = "internal_error";
  body_message = "internal error";
  retry_header = none;
}

-- Nothing but an `AppError` shows a message of its own to the client.
pub respond-internal :
    (e : Exn) → ((a : AppError) → e ≢ app_error a) → respond e ≡ respond value_error
unfolding respond
respond-internal (app_error a) h = absurd (h a refl)
respond-internal _ h = refl

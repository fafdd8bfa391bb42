-- ===== src/Llm/Errors.antt =====
-- wacp/crates/wacp-llm/src/error.rs: the classification of errors.
use wacp_platform.Prelude.{
  ℕ, Bool, true, false, String, Option, none, some, ◌==◌, nat_eq, if◌then◌else◌,
}

pub data ErrorOrigin : Type 0 where
  structural_origin provider_origin transport_origin compute_origin : ErrorOrigin

pub data ErrorPersistence : Type 0 where
  transient permanent unknown : ErrorPersistence

pub record LlmError : Type 0 where
  pub origin : ErrorOrigin
  pub persistence : ErrorPersistence
  pub code : Option String
  pub message : String
  pub status : Option ℕ
  pub retryable : Bool

-- `persistence == ErrorPersistence::Transient`.
abbrev pub is_transient : ErrorPersistence → Bool
is_transient transient = true
is_transient permanent = false
is_transient unknown = false

unfoldable pub classify_status : ℕ → ErrorOrigin × ErrorPersistence
classify_status status =
    if status == 400
    then (structural_origin, permanent)
    else if status == 401
    then (provider_origin, permanent)
    else if status == 403
    then (provider_origin, permanent)
    else if status == 404
    then (provider_origin, permanent)
    else if status == 408
    then (transport_origin, transient)
    else if status == 429
    then (provider_origin, transient)
    else if status == 500
    then (provider_origin, transient)
    else if status == 502
    then (transport_origin, transient)
    else if status == 503
    then (provider_origin, transient)
    else (provider_origin, unknown)

unfoldable pub from_status : ℕ → String → LlmError
unfolding classify_status
from_status status message = record {
  origin = (classify_status status).0;
  persistence = (classify_status status).1;
  code = none;
  message = message;
  status = some status;
  retryable = is_transient (classify_status status).1;
}

unfoldable pub transport : String → Bool → LlmError
transport message is_temporary = record {
  origin = transport_origin;
  persistence = if is_temporary then transient else permanent;
  code = none;
  message = message;
  status = none;
  retryable = is_temporary;
}

unfoldable pub structural : String → LlmError
structural message = record {
  origin = structural_origin;
  persistence = permanent;
  code = none;
  message = message;
  status = none;
  retryable = false;
}

unfoldable pub compute : String → LlmError
compute message = record {
  origin = compute_origin;
  persistence = permanent;
  code = none;
  message = message;
  status = none;
  retryable = false;
}

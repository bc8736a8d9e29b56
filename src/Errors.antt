-- ===== src/Errors.antt =====
-- mixapi/errors.py: the public errors. `message` is text for a reader and is left out; `status_code`
-- is the HTTP status.
use mixapi.Shared.{ℕ, String}

pub record MixApiError : Type 0 where
  pub type : String
  pub code : String
  pub status_code : ℕ

abbrev pub authentication_failed : String → MixApiError
authentication_failed c = record { type = "authentication_failed"; code = c; status_code = 401 }

abbrev pub permission_denied : String → MixApiError
permission_denied c = record { type = "permission_denied"; code = c; status_code = 403 }

abbrev pub validation_error : String → MixApiError
validation_error c = record { type = "validation_error"; code = c; status_code = 400 }

abbrev pub conflict : String → MixApiError
conflict c = record { type = "conflict"; code = c; status_code = 409 }

abbrev pub capability_unsupported : String → MixApiError
capability_unsupported c = record { type = "capability_unsupported"; code = c; status_code = 400 }

abbrev pub structured_output_error : String → MixApiError
structured_output_error c = record { type = "structured_output_error"; code = c; status_code = 422 }

abbrev pub quota_exceeded : String → MixApiError
quota_exceeded c = record { type = "quota_exceeded"; code = c; status_code = 429 }

abbrev pub budget_exceeded : String → MixApiError
budget_exceeded c = record { type = "budget_exceeded"; code = c; status_code = 402 }

abbrev pub provider_unavailable : String → MixApiError
provider_unavailable c = record { type = "provider_unavailable"; code = c; status_code = 503 }

abbrev pub control_plane_unavailable : MixApiError
control_plane_unavailable = record {
  type = "control_plane_unavailable";
  code = "control_plane_unavailable";
  status_code = 503;
}

abbrev pub configuration_unavailable : MixApiError
configuration_unavailable = record {
  type = "configuration_unavailable";
  code = "configuration_unavailable";
  status_code = 503;
}

abbrev pub provider_rate_limited : String → MixApiError
provider_rate_limited c = record { type = "provider_rate_limited"; code = c; status_code = 429 }

abbrev pub upstream_timeout : String → MixApiError
upstream_timeout c = record { type = "upstream_timeout"; code = c; status_code = 504 }

abbrev pub not_found : String → MixApiError
not_found c = record { type = "not_found"; code = c; status_code = 404 }

-- ===== src/Callback/Builders.antt =====
-- src/callback.rs: the builders of options, and what a response says of its error.
use grindvakt.Prelude.{ℕ, String, Bool, true, List, [], ◌∷◌, Option, none, some, is_some}
use grindvakt.Result.{ok, err}
use grindvakt.OauthError.{OauthErrorCode, from_str}
use grindvakt.Jwt.{
  JwsAlgorithm, rs256, rs384, rs512, ps256, ps384, ps512, es256, es384, es512, eddsa,
}
use grindvakt.Callback.{AuthorizationResponse, AuthorizationResponseOptions, ResponseMode}
use grindvakt.Callback.Jarm.{JarmOptions}

pub with_response_mode : ResponseMode → AuthorizationResponseOptions → AuthorizationResponseOptions
with_response_mode mode opts = record opts { mode = some mode }

pub accepting_unverified_jarm : AuthorizationResponseOptions → AuthorizationResponseOptions
accepting_unverified_jarm opts = record opts { accept_unverified_jarm = true }

pub with_expected_typ : String → JarmOptions → JarmOptions
with_expected_typ typ opts = record opts { expected_typ = typ }

pub with_dedicated_keys : JarmOptions → JarmOptions
with_dedicated_keys opts = record opts { allow_missing_typ = true }

pub allow_untyped_shared_keys : JarmOptions → JarmOptions
allow_untyped_shared_keys opts = record opts { allow_missing_typ = true }

pub with_leeway : ℕ → JarmOptions → JarmOptions
with_leeway seconds opts = record opts { leeway = some seconds }

abbrev pub jarm_asymmetric_algorithms : List JwsAlgorithm
jarm_asymmetric_algorithms =
    rs256 ∷ rs384 ∷ rs512 ∷ ps256 ∷ ps384 ∷ ps512 ∷ es256 ∷ es384 ∷ es512 ∷ eddsa ∷ []

pub error_code : AuthorizationResponse → Option OauthErrorCode
error_code r = elim r.error [
  | none ↦ none
  | some e ↦ elim (from_str e) [ ok code ↦ some code | err x ↦ none ]
]

pub is_error : AuthorizationResponse → Bool
is_error r = is_some r.error

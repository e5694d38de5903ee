-- ===== src/Rp/IdToken/Options.antt =====
-- src/rp.rs: options for the verification of an ID token.
use grindvakt.Prelude.{ℕ, String, List, Bool, true, false, Option, none, some}

abbrev pub default_leeway : ℕ
default_leeway = 60

abbrev pub max_id_token_leeway : ℕ
max_id_token_leeway = 300

-- `IdTokenOptions`
pub record IdTokenOptions : Type 0 where
  pub leeway : Option ℕ
  pub max_age : Option ℕ
  pub acr_values : Option (List String)
  pub access_token : Option String
  pub require_at_hash : Bool
  pub authorization_code : Option String
  pub require_c_hash : Bool
  pub allow_unchecked_hashes : Bool

-- `IdTokenOptions::new`
abbrev pub id_token_options : IdTokenOptions
id_token_options = record {
  leeway = none;
  max_age = none;
  acr_values = none;
  access_token = none;
  require_at_hash = false;
  authorization_code = none;
  require_c_hash = false;
  allow_unchecked_hashes = false;
}

-- The builders. `allow_unchecked_hashes` is also a field.
abbrev pub with_leeway : ℕ → IdTokenOptions → IdTokenOptions
with_leeway seconds o = record o { leeway = some seconds }

abbrev pub with_max_age : ℕ → IdTokenOptions → IdTokenOptions
with_max_age seconds o = record o { max_age = some seconds }

abbrev pub with_acr_values : List String → IdTokenOptions → IdTokenOptions
with_acr_values values o = record o { acr_values = some values }

abbrev pub with_access_token : String → IdTokenOptions → IdTokenOptions
with_access_token token o = record o { access_token = some token }

abbrev pub with_required_at_hash : IdTokenOptions → IdTokenOptions
with_required_at_hash o = record o { require_at_hash = true }

abbrev pub with_authorization_code : String → IdTokenOptions → IdTokenOptions
with_authorization_code code o = record o { authorization_code = some code }

abbrev pub with_required_c_hash : IdTokenOptions → IdTokenOptions
with_required_c_hash o = record o { require_c_hash = true }

abbrev pub allowing_unchecked_hashes : IdTokenOptions → IdTokenOptions
allowing_unchecked_hashes o = record o { allow_unchecked_hashes = true }

-- the options of `verify_id_token`
abbrev pub unchecked_options : IdTokenOptions
unchecked_options = allowing_unchecked_hashes id_token_options

-- ===== src/Rp/Userinfo/Options.antt =====
-- src/rp.rs: options for signed UserInfo.
use grindvakt.Prelude.{ℕ, String, Bool, true, false, Option, none, some}

abbrev pub default_userinfo_jwt_max_age : ℕ
default_userinfo_jwt_max_age = 300

pub data UserinfoTrust : Type 0 where
  by_typ : String → UserinfoTrust
  by_dedicated_keys by_shared_keys : UserinfoTrust

-- `UserinfoJwtOptions`
pub record UserinfoJwtOptions : Type 0 where
  pub require_exp : Bool
  pub max_age : Option ℕ
  pub allow_missing_kid : Bool
  pub trust : UserinfoTrust

abbrev pub with_trust : UserinfoTrust → UserinfoJwtOptions
with_trust trust = record {
  require_exp = false;
  max_age = some default_userinfo_jwt_max_age;
  allow_missing_kid = false;
  trust = trust;
}

abbrev pub typed : String → UserinfoJwtOptions
typed typ = with_trust (by_typ typ)

abbrev pub dedicated_keys : UserinfoJwtOptions
dedicated_keys = with_trust by_dedicated_keys

abbrev pub untyped_shared_key_compat : UserinfoJwtOptions
untyped_shared_key_compat = with_trust by_shared_keys

-- the builder of that name, which is also a field
abbrev pub allowing_missing_kid : UserinfoJwtOptions → UserinfoJwtOptions
allowing_missing_kid o = record o { allow_missing_kid = true }

abbrev pub with_require_exp : UserinfoJwtOptions → UserinfoJwtOptions
with_require_exp o = record o { require_exp = true }

abbrev pub with_max_age : ℕ → UserinfoJwtOptions → UserinfoJwtOptions
with_max_age seconds o = record o { max_age = some seconds }

abbrev pub without_max_age : UserinfoJwtOptions → UserinfoJwtOptions
without_max_age o = record o { max_age = none }

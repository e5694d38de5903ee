-- ===== src/Login.antt =====
-- src/provider.rs and src/rp.rs together: a login from the code to the verified ID token.
pub mod IdToken
pub mod Issue
pub mod Code
pub mod Complete
pub mod Response
pub mod Fixture
mod Examples
use grindvakt.Prelude.{ℕ, ◌≤◌, ◌<◌, String, ◌≡◌, List, [], ◌∷◌, true, none, some}
use grindvakt.Result.{ok}
use grindvakt.Jwt.{Claims, alg_name, single, seconds}
use grindvakt.Provider.Defs.{Provider}
use grindvakt.Provider.Defs.Services.{Services}
use grindvakt.Rp.Library.{RpLibrary, Header, Validation}
use grindvakt.Rp.Kids.{several, IsNamed}

-- The relying party's libraries know the provider's signatures under the keys: both sides hash
-- alike, equal bytes compare as equal, a signed token has a header with the provider's algorithm
-- and, where there are several keys, the name of one of them, and its claims are returned where
-- issuer, audience and algorithm are those expected and the time lies in its lifetime.
pub record IsPeer {J V K S W : Type 0} (p : Provider) (s : Services J V) (l : RpLibrary K S W)
    (keys : K) : Type 0 where
  pub hashing : l.hashing ≡ s.hashing
  pub compares : (bytes : List ℕ) → l.constant_time_eq bytes bytes ≡ true
  pub parsed : l.parse_alg (alg_name p.signing_alg) ≡ some p.signing_alg
  pub header :
      (random : ℕ) (c : Claims) (token : String)
      → s.sign random c ≡ ok token
      → (h : Header) × (l.decode_header token ≡ some h)
        × (h.alg ≡ alg_name p.signing_alg)
        × IsNamed (l.kids keys) h.kid
  pub verifies :
      (random : ℕ) (c : Claims) (token : String) (v : Validation) (iat exp : ℕ) (w : W)
      → s.sign random c ≡ ok token
      → c.iss ≡ some v.issuer
      → c.aud ≡ some (single v.audience)
      → v.allowed_algorithms ≡ p.signing_alg ∷ []
      → v.max_age ≡ none
      → v.typ ≡ none
      → v.require_kid ≡ several (l.kids keys)
      → c.iat ≡ some (seconds iat)
      → c.exp ≡ some (seconds exp)
      → iat ≤ (l.clock w).0
      → (l.clock w).0 < exp
      → (l.decode_with_jwkset keys token v w).0 ≡ ok c

-- ===== src/Request/Examples.antt =====
-- Values of src/request.rs.
use grindvakt.Prelude.{String, ◌≡◌, ◌↔◌, refl, true, ◌||◌, List, [], ◌∷◌, none, some, has}
use grindvakt.Request.{AuthorizationRequest, response_type_eq, from_pairs}
use grindvakt.Request.ResponseType.{IsWellFormed, members, response_type_eq_iff}
use grindvakt.Request.Parsing.{Represents, from_pairs-Represents}

response_type_eq_iff_example : (response_type_eq "code token" "token code" ≡ true) ↔ (
    IsWellFormed "code token"
    × IsWellFormed "token code"
    × ((x : String) → has x (members "code token") ≡ has x (members "token code")))
response_type_eq_iff_example = response_type_eq_iff "code token" "token code"

abbrev parsed : AuthorizationRequest
parsed = record {
  client_id = "c";
  redirect_uri = "https://c/cb";
  response_type = "token";
  scope = "";
  state = some "x";
  nonce = none;
  code_challenge = none;
  code_challenge_method = none;
  response_mode = none;
  prompt = some "none login";
  acr_values = none;
  claims = none;
  request_object = none;
  resources = "https://api" ∷ [];
  extra = ("display", "page") ∷ [];
}

abbrev parameters : List (String × String)
parameters =
    ("client_id", "c")
    ∷ ("response_type", "token")
    ∷ ("resource", "https://api")
    ∷ ("redirect_uri", "https://c/cb")
    ∷ ("state", "x")
    ∷ ("prompt", "none login")
    ∷ ("display", "page")
    ∷ []

from_pairs-Represents_example : Represents (λ t. none) parameters parsed
unfolding from_pairs grindvakt.Dict.get grindvakt.Dict.insert grindvakt.Request.bad_state
    grindvakt.OauthError.is_valid_state grindvakt.Prelude.Text.all_chars grindvakt.Dict.filter_keys
from_pairs-Represents_example = from_pairs-Represents (λ t. none) parameters parsed refl

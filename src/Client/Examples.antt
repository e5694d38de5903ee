-- ===== src/Client/Examples.antt =====
-- Runs of the client store of src/client.rs.
use grindvakt.Prelude.{◌≡◌, refl, List, [], ◌∷◌, none, arith}
use grindvakt.Client.{Client}
use grindvakt.Client.Expiry.{Operation, look, keep_for, answers, expected, answers-expected}

abbrev dynamic : Client (Unit {0})
dynamic = record {
  client_id = "c";
  client_secret = none;
  redirect_uris = [];
  response_types = [];
  grant_types = [];
  token_endpoint_auth_method = "none";
  jwks = none;
  scope = none;
  subject_type = "public";
  client_name = none;
}

abbrev history : List (Operation (Unit {0}))
history = keep_for 10 dynamic 5 ∷ look 14 "c" ∷ look 15 "c" ∷ []

answers-expected_example : answers history [] ≡ expected history (λ k now. none)
unfolding grindvakt.Dict.get
answers-expected_example =
    answers-expected history 10 [] (λ k now. none) (omega arith, (omega arith, (omega arith, tt)))
      (record { is_map = tt; same = λ k n le. refl })

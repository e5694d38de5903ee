-- ===== src/Provider/Registered.antt =====
-- The one client of the examples, and a codec that serializes its registration alone.
use grindvakt.Prelude.{
  String, ◌≡◌, refl, ap₂, Bool, true, false, ◌&&◌, List, [], ◌∷◌, Option, none, some, ◌==◌,
  opt_str_eq, opt_str_eq-eq, eq_of_test, and-eq-true,
}
use grindvakt.Json.{Json}
use grindvakt.Client.{Client}
use grindvakt.Provider.Defs.Services.{Registration}

abbrev pub client : Client (Unit {0})
client = record {
  client_id = "c";
  client_secret = some "s";
  redirect_uris = "https://c/cb" ∷ [];
  response_types = "code" ∷ [];
  grant_types = "authorization_code" ∷ "refresh_token" ∷ "client_credentials" ∷ [];
  token_endpoint_auth_method = "client_secret_post";
  jwks = none;
  scope = some "email api";
  subject_type = "public";
  client_name = none;
}

abbrev same_list : List String → List String → Bool
same_list [] [] = true
same_list (a ∷ as_) (b ∷ bs) = a == b && same_list as_ bs
same_list _ _ = false

same_list-eq : (a b : List String) → same_list a b ≡ true → a ≡ b
same_list-eq [] [] h = refl
same_list-eq [] (b ∷ bs) h = cc
same_list-eq (a ∷ as_) [] h = cc
same_list-eq (a ∷ as_) (b ∷ bs) h =
    let (first, rest) = and-eq-true (a == b) (same_list as_ bs) h in
    ap₂ (λ x y. x ∷ y) (eq_of_test first) (same_list-eq as_ bs rest)

abbrev is_absent : {A : Type 0} → Option A → Bool
is_absent none = true
is_absent (some a) = false

is_absent-eq : {A : Type 0} (o : Option A) → is_absent o ≡ true → o ≡ none
is_absent-eq none h = refl
is_absent-eq (some a) h = cc

-- whether it is the registration of the client
abbrev pub is_registration : Registration (Unit {0}) → Bool
is_registration (c, extensions) =
    c.client_id == client.client_id
    && (opt_str_eq c.client_secret client.client_secret
        && (same_list c.redirect_uris client.redirect_uris
            && (same_list c.response_types client.response_types
                && (same_list c.grant_types client.grant_types
                    && (c.token_endpoint_auth_method == client.token_endpoint_auth_method
                        && (is_absent c.jwks
                            && (opt_str_eq c.scope client.scope
                                && (c.subject_type == client.subject_type
                                    && (opt_str_eq c.client_name client.client_name
                                        && (is_absent extensions))))))))))

abbrev pub same_text : Json → Json → Bool
same_text (Json.string a) (Json.string b) = a == b
same_text _ _ = false

pub is_registration-eq :
    (r : Registration (Unit {0})) → is_registration r ≡ true → r ≡ (client, none)
is_registration-eq (c, extensions) h =
    let (id, h₁) = and-eq-true _ _ h in
    let (secret, h₂) = and-eq-true _ _ h₁ in
    let (redirects, h₃) = and-eq-true _ _ h₂ in
    let (responses, h₄) = and-eq-true _ _ h₃ in
    let (grants, h₅) = and-eq-true _ _ h₄ in
    let (method, h₆) = and-eq-true _ _ h₅ in
    let (jwks, h₇) = and-eq-true _ _ h₆ in
    let (scope, h₈) = and-eq-true _ _ h₇ in
    let (subject, h₉) = and-eq-true _ _ h₈ in
    let (name, none_left) = and-eq-true _ _ h₉ in
    λ i. (
      record {
        client_id = eq_of_test id i;
        client_secret = opt_str_eq-eq c.client_secret client.client_secret secret i;
        redirect_uris = same_list-eq c.redirect_uris client.redirect_uris redirects i;
        response_types = same_list-eq c.response_types client.response_types responses i;
        grant_types = same_list-eq c.grant_types client.grant_types grants i;
        token_endpoint_auth_method = eq_of_test method i;
        jwks = is_absent-eq c.jwks jwks i;
        scope = opt_str_eq-eq c.scope client.scope scope i;
        subject_type = eq_of_test subject i;
        client_name = opt_str_eq-eq c.client_name client.client_name name i;
      },
      is_absent-eq extensions none_left i,
    )

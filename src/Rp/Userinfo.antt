-- ===== src/Rp/Userinfo.antt =====
-- src/rp.rs: UserInfo as the relying party fetches and checks it.
pub mod Options
pub mod Signed
pub mod Bound
pub mod Attributes
use grindvakt.Prelude.{
  ℕ, String, List, [], ◌∷◌, Bool, false, not, ◌&&◌, ◌||◌, Option, none, some, is_some, leb, nat_eq,
  length, opt_str_eq, if◌then◌else◌,
}
use grindvakt.Prelude.Text.{
  is_empty, any_char, is_whitespace, split_once, eq_ignore_ascii_case, ◌<>◌, show,
}
use grindvakt.Prelude.Slices.{trim, is_ascii_whitespace}
use grindvakt.Dict
use grindvakt.Dict.{Dict}
use grindvakt.Json.{Json}
use grindvakt.Json.Access.{get_str, and_then, as_str, as_object}
use grindvakt.Result.{Result, ok, ok_or, fail_if, ◌>>=◌, ◌>>◌}
use grindvakt.Exec
use grindvakt.Exec.{Exec, lift, pure}
use grindvakt.Error.{Error, bad_request, authn, json}
use grindvakt.Http.Fetch.{HttpFetchResponse, header}
use grindvakt.Rp.Library.{RpLibrary}
use grindvakt.Rp.Upstream
use grindvakt.Rp.Upstream.{upstream_error, max_error_json_bytes}
use grindvakt.Rp.Discover.{expect_200}
use grindvakt.Rp.Endpoints.{validate_issuer, validate_service_endpoint_for_issuer}

pub data UserinfoMethod : Type 0 where
  post get : UserinfoMethod

-- `resp.content_type.as_deref().or(resp.header("content-type"))`
unfoldable pub content_type_of : HttpFetchResponse → Option String
content_type_of r = elim r.content_type [ some ct ↦ some ct | none ↦ header r "content-type" ]

-- the text before the first `;`, trimmed
abbrev pub media_type : String → String
media_type ct = elim (split_once b';' ct) [ none ↦ trim ct | some (first, rest) ↦ trim first ]

unfoldable pub is_jwt : Option String → Bool
is_jwt none = false
is_jwt (some ct) = eq_ignore_ascii_case (media_type ct) "application/jwt"

-- whether an access token cannot stand in a header
abbrev pub is_bad_token : String → Bool
is_bad_token token =
    is_empty token
    || any_char (λ c. leb c 0x1f || nat_eq c 0x7f || is_whitespace c || leb 0x80 c) token

abbrev first_byte_is_brace : List ℕ → Bool
first_byte_is_brace [] = false
first_byte_is_brace (b ∷ bs) =
    let rest = first_byte_is_brace bs in if is_ascii_whitespace b then rest else nat_eq b b'{'

abbrev looks_like_object : List ℕ → Bool
looks_like_object body = leb (length body) max_error_json_bytes && first_byte_is_brace body

abbrev reports_error : Option (Dict Json) → Bool
reports_error none = false
reports_error (some obj) =
    is_some (and_then (Dict.get "error" obj) as_str) && not (is_some (Dict.get "sub" obj))

module _ {K S W : Type 0} (l : RpLibrary K S W) where
  -- An answer of status 200 whose body is that of an error.
  abbrev is_disguised_error : HttpFetchResponse → Bool
  is_disguised_error r =
      looks_like_object r.body && reports_error (and_then (l.from_slice r.body) as_object)

  abbrev send : UserinfoMethod → String → List (String × String) → Exec W Error HttpFetchResponse
  send post endpoint headers = l.post_form endpoint [] headers
  send get endpoint headers = l.get_with_headers endpoint headers

  unfoldable pub fetch_userinfo_response :
      String → String → String → UserinfoMethod → Exec W Error HttpFetchResponse
  fetch_userinfo_response endpoint access_token issuer method =
      Exec.◌>>=◌ (lift (validate_issuer l.urls issuer)) λ _.
        Exec.◌>>=◌
          (lift (validate_service_endpoint_for_issuer l.urls "userinfo_endpoint" endpoint issuer))
          λ _.
            Exec.◌>>=◌
              (lift (
                fail_if (is_bad_token access_token) (
                  bad_request
                    "access_token contains characters not allowed in an Authorization header")))
              λ _.
                Exec.◌>>=◌
                  (send method endpoint (("authorization", "Bearer " <> access_token) ∷ []))
                  λ r.
                    Exec.◌>>=◌
                      (lift (expect_200 l Upstream.auth ("userinfo returned " <> show r.status) r))
                      λ _.
                        Exec.◌>>=◌
                          (lift (
                            fail_if (is_disguised_error r) (
                              upstream_error l.utf8_lossy l.from_slice Upstream.auth
                                ("userinfo returned an error with status " <> show r.status) r)))
                          λ _. pure r

  unfoldable pub userinfo_json_claims : HttpFetchResponse → String → Result Error Json
  userinfo_json_claims r expected_sub =
      fail_if (is_jwt (content_type_of r)) (
        authn
          "userinfo is a signed JWT (application/jwt); use rp::fetch_userinfo_response and rp::userinfo_signed_claims")
      >> (ok_or (l.from_slice r.body) (json "userinfo") >>= λ claims.
          fail_if (not (opt_str_eq (get_str "sub" claims) (some expected_sub)))
            (authn "userinfo sub does not match the validated id_token subject")
          >> ok claims)

  unfoldable pub fetch_userinfo : String → String → String → String → Exec W Error Json
  fetch_userinfo endpoint access_token expected_sub issuer =
      Exec.◌>>=◌ (fetch_userinfo_response endpoint access_token issuer post)
        λ r. lift (userinfo_json_claims r expected_sub)

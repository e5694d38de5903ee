-- ===== src/Rp/Authorize/Unambiguous.antt =====
-- src/rp.rs: what an authorization URL is made of.
use grindvakt.Prelude.{
  String, ◌≡◌, refl, sym, ap, subst, ◌∙◌, List, [], ◌∷◌, ◌++◌, Bool, true, false, not, ◌&&◌, Option,
  none, some, is_some, any, has, All, IsDistinct, arith, ◌==◌, if◌then◌else◌, Bool-cases, inl, inr,
}
use grindvakt.Prelude.Distinct.{
  IsUnseen, IsUnseen-cons, IsDistinct-append, All-append, IsUnseen-test,
}
use grindvakt.Prelude.Text.{split_whitespace}
use grindvakt.Pkce.{is_valid_s256_challenge}
use grindvakt.Result.{
  ok, two_guards, >>=-eq-ok, map_err-eq-ok, step->>, fail_if->>, fail_if-eq-ok, ok_injective,
}
use grindvakt.Url.{Url}
use grindvakt.Rp.Library.{RpLibrary}
use grindvakt.Rp.Config.{ProviderInfo, RpClient, validate}
use grindvakt.Rp.Endpoints.{
  reserved, check_query, validate_issuer, validate_service_endpoint_for_issuer,
  validate_authorization_endpoint_query, validate_redirect_uri_syntax,
}
use grindvakt.Rp.Authorize.{
  check_extras, names_of, validate_authorization_extras, check_client, own_params, url_with,
  authorization_url, is_public, is_bad_challenge,
}

-- Names that are distinct, not reserved and not among those seen.
abbrev pub IsFresh : List String → List String → Type 0
IsFresh seen names =
    IsDistinct names × All (λ x. has x reserved ≡ false) names × IsUnseen seen names

names_lem :
    (is_resource : Bool) (name : String) (seen rest : List String)
    → has name reserved ≡ false
    → (not is_resource && has name seen) ≡ false
    → IsFresh (if is_resource then seen else name ∷ seen) rest
    → IsFresh seen (if is_resource then rest else name ∷ rest)
names_lem true name seen rest free new fresh = fresh
names_lem false name seen rest free new (distinct, all_free, unseen) =
    let (once, others) = IsUnseen-cons name seen rest unseen in
    ((once, distinct), (free, all_free), (new, others))

check_query-IsFresh :
    (seen : List String) (pairs : List (String × String))
    → check_query seen pairs ≡ ok tt
    → IsFresh seen (names_of pairs)
unfolding check_query
check_query-IsFresh seen [] h = (tt, tt, tt)
check_query-IsFresh seen ((name, value) ∷ pairs) h =
    let next = if name == "resource" then seen else name ∷ seen in
    let (free, new, rest) = two_guards _ _ _ _ (check_query next pairs) h in
    names_lem (name == "resource") name seen (names_of pairs) free new
      (check_query-IsFresh next pairs rest)

check_extras-IsFresh :
    (seen : List String) (extra : List (String × String))
    → check_extras seen extra ≡ ok tt
    → IsFresh seen (names_of extra)
unfolding check_extras
check_extras-IsFresh seen [] h = (tt, tt, tt)
check_extras-IsFresh seen ((name, value) ∷ extra) h =
    let next = if name == "resource" then seen else name ∷ seen in
    let (free, new, rest) = two_guards _ _ _ _ (check_extras next extra) h in
    names_lem (name == "resource") name seen (names_of extra) free new
      (check_extras-IsFresh next extra rest)

names_of-append : (a b : List (String × String)) → names_of (a ++ b) ≡ names_of a ++ names_of b
names_of-append [] b = refl
names_of-append ((name, value) ∷ a) b = elim (Bool-cases (name == "resource")) [
  | inl e ↦ rw e (names_of-append a b)
  | inr n ↦ rw n (ap (λ t. name ∷ t) (names_of-append a b))
]

module _ {K S W : Type 0} (l : RpLibrary K S W) where
  -- The parameters that the library sets have the reserved names, each at most once.
  own_params-IsDistinct :
      (client : RpClient S) (state nonce : String) (code_challenge : Option String)
      → IsDistinct (names_of (own_params l client state nonce code_challenge))
        × All
            (λ x. has x reserved ≡ true)
            (names_of (own_params l client state nonce code_challenge))
  unfolding own_params
  own_params-IsDistinct client state nonce none = (
    (refl, (refl, (refl, (refl, (refl, (refl, tt)))))),
    (refl, (refl, (refl, (refl, (refl, (refl, tt)))))),
  )
  own_params-IsDistinct client state nonce (some challenge) = (
    (refl, (refl, (refl, (refl, (refl, (refl, (refl, (refl, tt)))))))),
    (refl, (refl, (refl, (refl, (refl, (refl, (refl, (refl, tt)))))))),
  )

  -- Where all checks pass, the parameters of the endpoint, of the library and of the caller are
  -- apart.
  params-IsDistinct :
      (query own extra : List (String × String))
      → IsFresh [] (names_of query)
      → IsDistinct (names_of own)
      → All (λ x. has x reserved ≡ true) (names_of own)
      → IsFresh (names_of query) (names_of extra)
      → IsDistinct (names_of (query ++ (own ++ extra)))
  params-IsDistinct query own extra (q, q_free, _) o o_reserved (e, e_free, e_new) =
      let q_names = names_of query in
      let o_names = names_of own in
      let e_names = names_of extra in
      let later : IsDistinct (o_names ++ e_names) =
        IsDistinct-append o_names e_names o e
          (IsUnseen-test (λ x. has x reserved) false o_names e_names o_reserved e_free) in
      let unseen : IsUnseen q_names (o_names ++ e_names) =
        All-append (λ x. has x q_names ≡ false) o_names e_names
          (IsUnseen-test (λ x. has x reserved) true q_names o_names q_free o_reserved) e_new in
      subst IsDistinct
        (sym (
          names_of-append query (own ++ extra)
          ∙ ap (λ t. q_names ++ t) (names_of-append own extra)))
        (IsDistinct-append q_names (o_names ++ e_names) q later unseen)

  -- A challenge that is there is valid, and a public client has one.
  abbrev pub IsProtected : RpClient S → Option String → Type 0
  IsProtected client none = is_public client.auth ≡ false
  IsProtected client (some challenge) = is_valid_s256_challenge l.encoding challenge ≡ true

  protected_lem :
      (client : RpClient S) (code_challenge : Option String)
      → (is_public client.auth && not (is_some code_challenge)) ≡ false
      → is_bad_challenge (is_valid_s256_challenge l.encoding) code_challenge ≡ false
      → IsProtected client code_challenge
  protected_lem client none a b = ground (arith, a)
  protected_lem client (some challenge) a b = ground (arith, b)

  abbrev pub asks_openid : RpClient S → Bool
  asks_openid client = any (λ scope. scope == "openid") (split_whitespace client.scope)

  check_client_lem :
      (provider : ProviderInfo) (client : RpClient S) (code_challenge : Option String)
      → check_client l provider client code_challenge ≡ ok tt
      → (validate l.urls provider ≡ ok tt)
        × (asks_openid client ≡ true)
        × IsProtected client code_challenge
  unfolding check_client
  check_client_lem provider client code_challenge h =
      let (a, h₁) = (step->> (validate l.urls provider) _).0 h in
      let (_, h₂) = (step->> (validate_redirect_uri_syntax l.urls client.redirect_uri) _).0 h₁ in
      let (b, h₃) = (fail_if->> (not (asks_openid client)) _ _).0 h₂ in
      let (c, h₄) = (fail_if->> (is_public client.auth && not (is_some code_challenge)) _ _).0 h₃ in
      (
        a,
        ground (arith, b),
        protected_lem client code_challenge c (
            fail_if-eq-ok (is_bad_challenge (is_valid_s256_challenge l.encoding) code_challenge) _
              h₄),
      )

  validate-query :
      (provider : ProviderInfo)
      → validate l.urls provider ≡ ok tt
      → validate_authorization_endpoint_query l.urls provider.authorization_endpoint ≡ ok tt
  unfolding validate
  validate-query provider h =
      let (_, h₁) = (step->> (validate_issuer l.urls provider.issuer) _).0 h in
      let (_, h₂) =
        (step->>
            (validate_service_endpoint_for_issuer l.urls "authorization_endpoint"
              provider.authorization_endpoint provider.issuer)
            _).0
          h₁ in
      ((step->> (validate_authorization_endpoint_query l.urls provider.authorization_endpoint) _).0
        h₂).0

  query-IsFresh :
      (endpoint : String)
      → validate_authorization_endpoint_query l.urls endpoint ≡ ok tt
      → (parsed : Url) × (l.urls.parse endpoint ≡ ok parsed)
        × IsFresh [] (names_of parsed.query_pairs)
  unfolding validate_authorization_endpoint_query
  query-IsFresh endpoint h =
      let (parsed, p, rest) = >>=-eq-ok _ _ h in
      (parsed, map_err-eq-ok _ _ p, check_query-IsFresh [] parsed.query_pairs rest)

  extras-IsFresh :
      (endpoint : String) (parsed : Url) (extra : List (String × String))
      → l.urls.parse endpoint ≡ ok parsed
      → validate_authorization_extras l.urls endpoint extra ≡ ok tt
      → IsFresh (names_of parsed.query_pairs) (names_of extra)
  unfolding validate_authorization_extras
  extras-IsFresh endpoint parsed extra p h =
      let (other, q, rest) = >>=-eq-ok _ _ h in
      let same : other ≡ parsed = ok_injective (sym (map_err-eq-ok _ _ q) ∙ p) in
      subst (λ (u : Url). IsFresh (names_of u.query_pairs) (names_of extra)) same
        (check_extras-IsFresh (names_of other.query_pairs) extra rest)

  -- Where an authorization URL is built, it is the endpoint with the parameters of the library
  -- and of the caller added, no name but resource stands twice among those and the parameters
  -- that the endpoint already has, the scope asks for openid, any challenge is a valid one,
  -- and a public client has one.
  pub authorization_url-IsDistinct :
      (provider : ProviderInfo) (client : RpClient S) (state nonce : String)
      (code_challenge : Option String) (extra : List (String × String)) {url : String}
      → authorization_url l provider client state nonce code_challenge extra ≡ ok url
      → (parsed : Url) × (l.urls.parse provider.authorization_endpoint ≡ ok parsed)
        × IsDistinct (
            names_of
              (parsed.query_pairs ++ (own_params l client state nonce code_challenge ++ extra)))
        × (url_with l provider.authorization_endpoint
              (own_params l client state nonce code_challenge ++ extra)
            ≡ url)
        × (asks_openid client ≡ true)
        × IsProtected client code_challenge
  unfolding authorization_url
  authorization_url-IsDistinct provider client state nonce code_challenge extra h =
      let (a, h₁) = (step->> (check_client l provider client code_challenge) _).0 h in
      let (b, made) =
        (step->> (validate_authorization_extras l.urls provider.authorization_endpoint extra) _).0
          h₁ in
      let (valid, openid, protected) = check_client_lem provider client code_challenge a in
      let (parsed, p, query) =
        query-IsFresh provider.authorization_endpoint (validate-query provider valid) in
      let (own, own_reserved) = own_params-IsDistinct client state nonce code_challenge in
      (
        parsed,
        p,
        params-IsDistinct parsed.query_pairs (own_params l client state nonce code_challenge) extra
            query own own_reserved
            (extras-IsFresh provider.authorization_endpoint parsed extra p b),
        ok_injective made,
        openid,
        protected,
      )

-- ===== src/Lib.antt =====
-- Verification of grindvakt, a library for OpenID Connect providers and relying parties in Rust.
--
-- The program. A provider (src/provider.rs) validates authorization requests (src/request.rs)
-- against registered clients (src/client.rs), issues codes and tokens that carry their state in
-- sealed form (src/tokens.rs), and exchanges them at the token endpoint, where clients authenticate
-- and where each code, refresh token and client assertion is used once by a token-use store. PKCE
-- (src/pkce.rs) and proofs of possession (src/dpop.rs) bind codes and tokens to their holders, errors
-- go on the wire through src/oauth_error.rs, and src/jwt.rs, src/metadata.rs, src/http.rs and
-- src/error.rs hold what these share. A relying party (src/rp.rs) reads the callback of a login
-- (src/callback.rs), finds providers (src/discovery.rs) and checks their entity statements, trust
-- chains and metadata policies (src/federation.rs).
--
-- The files.
-- - Prelude and its children: lists, text, machine words, bytes, and the lemmas on them. Result and
--   Exec: fallible code, and fallible code that changes a world; Dict: maps.
-- - OauthError, Error, Http, Json, Metadata, Jwt: the files of these names. `as_str`, `from_str`,
--   `wire_description`, `to_redirect_with_params`, `escape_upstream_text`, `oidc_token_hash` are the
--   functions of these names.
-- - Pkce, Request, Client: src/pkce.rs, src/request.rs, src/client.rs. `from_pairs`,
--   `validate_response_type`, `validate_prompt`, `validate_response_mode`; the store's `get`, `put`,
--   `put_with_ttl` take the time of the clock.
-- - TokenUse: `InMemoryTokenUseStore` of src/provider.rs, with `consume`.
-- - Tokens: src/tokens.rs. `codec` is `TokenCodec::new`, `open_token` is `open`. Tokens/Sealing,
--   Tokens/Kinds and Tokens/Rotation hold the proofs.
-- - Dpop: src/dpop.rs. `validate_and_record`, `validate_proof_inner`, `issue_nonce`,
--   `validate_nonce`.
-- - Provider: the rest of src/provider.rs. Provider/Defs: `Provider::new` as `provider`, and what a
--   provider is given (Provider/Defs/Services): the stores behind their traits, the clock, the
--   randomness and the libraries. Provider/Validate: `validate_authorization_request`, with
--   `check_request` for what follows the lookup. Provider/Mint and Provider/Issue: `build_id_token`,
--   `mint_authorization_response` and the `authorization_redirect` family. Provider/Clients:
--   `authenticate_client_map`, `check_secret`, `verify_private_key_jwt`. Provider/Grants: the handlers
--   of the three grants and `handle_token_request`. Provider/Userinfo: `userinfo`.
-- - Url: what is read of a URL. Rp: src/rp.rs. Rp/Library: what it is given. Rp/Endpoints:
--   `validate_endpoint`, `validate_issuer` and the checks like them; Rp/Config:
--   `ProviderInfo::validate` as `validate`; Rp/Authorize: `authorization_url`,
--   `signed_request_object`; Rp/Discover: `discover_response`, `fetch_jwks_response`; Rp/Exchange:
--   `exchange_code`, `apply_client_auth`; Rp/IdToken: `verify_id_token_with`, `check_token_hash`;
--   Rp/Userinfo: `fetch_userinfo_response`, `userinfo_signed_claims`, `claims_to_attributes`;
--   Rp/Upstream: `upstream_error`; Rp/Kids: `ensure_kid_names_key`.
-- - Keys: src/keys.rs. Keys/Token: the keys of a PKCS#11 token; Keys/Der: octet strings.
-- - Callback: src/callback.rs. Callback/Fields: `Fields::validate` as `validate`; Callback/Parse:
--   `parse_pairs` and the entry points; Callback/Jarm: `verify_jarm`; Callback/Builders: the options.
-- - Federation: src/federation.rs. Federation/Statement, Federation/Chain, Federation/Resolve,
--   Federation/Collection and Federation/Policy: `verify_typed`, `validate_trust_chain`,
--   `resolve_via_trust_anchors`, `parse_collection`, `apply_policy`.
-- - Discovery: src/discovery.rs, with `promote_hint`.
-- - Login: a login across src/provider.rs, src/callback.rs and src/rp.rs. Login/Response: the parameters
--   of the response as the relying party reads them, with the URL encoding between the two left out;
--   Login/Code and Login/Complete: from the minted code to the ID token that the relying party
--   verifies. The record `IsPeer` says that the relying party's libraries know the
--   provider's signatures, `IsWorking` that sealing and signing succeed.
-- The modules below a component hold its proofs, the modules named Examples its test data and runs.
--
-- The model. A handler that reads or changes a store, the clock or the randomness is a function
-- from a world to a result and the world after it; a change made before an error stays. The
-- records Services, TokenCrypto, Encoding, Hashing, Backend, UrlLibrary, Jose, RpLibrary,
-- KeyLibrary, TokenLibrary and Federation.Library stand for code outside the repository:
-- cryptography, JOSE with its key sets, base64, URL, percent and JSON codecs, Redis.
-- `Services.sign` and `Services.verify_with_jwks` are the functions of src/jwt.rs that wrap JOSE.
-- What a theorem relies on there is among its hypotheses. Services also hold the stores of a
-- provider; Provider/Grants/Spent states of which services the token-use store is the one in
-- memory. A map is an association list. Numbers of type u64 are native numbers with the
-- wrap-around or saturation of the operation written out; an i64 is its bit pattern. Loops are
-- structural recursion; the decimal printing of a number runs on more steps than it has digits,
-- and the hexadecimal one on six, which covers every scalar value. The clock is read before a
-- token is opened also where opening it fails, and once for a proof of possession. The texts of
-- errors of libraries are not carried along.
--
-- Not modelled: src/mac.rs and src/util.rs, which are calls of external libraries and of the system;
-- the Redis store, which is a script on a server; poisoned locks; logging; the serialization of
-- documents.
pub mod Prelude
pub mod Result
pub mod Exec
pub mod Dict
pub mod Http
pub mod OauthError
pub mod Pkce
pub mod Json
pub mod Request
pub mod Client
pub mod TokenUse
pub mod Error
pub mod Tokens
pub mod Jwt
pub mod Keys
pub mod Metadata
pub mod Dpop
pub mod Provider
pub mod Login
pub mod Url
pub mod Rp
pub mod Federation
pub mod Discovery
pub mod Callback

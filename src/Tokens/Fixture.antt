-- ===== src/Tokens/Fixture.antt =====
-- A cipher and a format for the codes of src/tokens.rs: the data of the examples.
use grindvakt.Prelude.{
  String, ◌≡◌, refl, Bool, true, false, ◌&&◌, List, [], ◌∷◌, Option, none, some, arith, eq_iff,
  ◌==◌, if◌then◌else◌, nat_eq, opt_str_eq, opt_str_eq-eq, sym, is_some, not,
}
use grindvakt.Result.{ok, err}
use grindvakt.Tokens.{AuthCodePayload, Envelope, Serde, TokenCrypto, typ_code}
use grindvakt.Tokens.Sealing.{IsAuthentic, ReadsBack}

-- The payloads that the format knows: all fields but one are fixed.
abbrev pub payload : String → AuthCodePayload
payload sub = record {
  client_id = "c";
  redirect_uri = "https://c/cb";
  scope = "openid";
  sub = sub;
  nonce = some "n";
  code_challenge = none;
  code_challenge_method = none;
  claims = [];
  auth_time = 90;
  exp = 700;
  acr = none;
}

abbrev is_nil : {A : Type 0} → List A → Bool
is_nil [] = true
is_nil (x ∷ xs) = false

abbrev is_known : Envelope AuthCodePayload → Bool
is_known e =
    e.typ == typ_code
    && e.p.client_id == "c"
    && e.p.redirect_uri == "https://c/cb"
    && e.p.scope == "openid"
    && opt_str_eq e.p.nonce (some "n")
    && not (is_some e.p.code_challenge)
    && not (is_some e.p.code_challenge_method)
    && is_nil e.p.claims
    && nat_eq e.p.auth_time 90
    && nat_eq e.p.exp 700
    && not (is_some e.p.acr)

abbrev pub format : Serde AuthCodePayload
format = record {
  to_vec = λ e. if is_known e then some e.p.sub else none;
  from_slice = λ t. some (record { typ = typ_code; p = payload t });
}

abbrev no_format : {T : Type 0} → Serde T
no_format = record { to_vec = λ e. none; from_slice = λ t. none }

-- One key, under which one text has a token.
abbrev pub cipher : TokenCrypto
cipher = record {
  hkdf = λ salt info secret. secret;
  encrypt = λ random key text. if key == "k" && text == "u" then ok "t" else err "encrypt";
  decrypt = λ key token. if key == "k" && token == "t" then ok "u" else err "decrypt";
  code_serde = format;
  access_serde = no_format;
  refresh_serde = no_format;
}

pub cipher-IsAuthentic : IsAuthentic cipher
cipher-IsAuthentic = record {
  decrypts = λ r k m t h. ground (arith, h, eq_iff k "k", eq_iff m "u", eq_iff t "t");
  refuses = λ r k m t k' m' h h'. ground (arith, h, h', eq_iff k "k", eq_iff k' "k");
}

nil_of : {A : Type 0} (xs : List A) → is_nil xs ≡ true → [] ≡ xs
nil_of [] h = refl
nil_of (x ∷ xs) h = cc

none_of : {A : Type 0} (o : Option A) → not (is_some o) ≡ true → none ≡ o
none_of none h = refl
none_of (some a) h = cc

known_fields :
    (e : Envelope AuthCodePayload)
    → is_known e ≡ true
    → (typ_code ≡ e.typ)
      × ("c" ≡ e.p.client_id)
      × ("https://c/cb" ≡ e.p.redirect_uri)
      × ("openid" ≡ e.p.scope)
      × (some "n" ≡ e.p.nonce)
      × (none ≡ e.p.code_challenge)
      × (none ≡ e.p.code_challenge_method)
      × ([] ≡ e.p.claims)
      × (90 ≡ e.p.auth_time)
      × (700 ≡ e.p.exp)
      × (none ≡ e.p.acr)
known_fields e h = (
  ground (arith, h, eq_iff e.typ typ_code),
  ground (arith, h, eq_iff e.p.client_id "c"),
  ground (arith, h, eq_iff e.p.redirect_uri "https://c/cb"),
  ground (arith, h, eq_iff e.p.scope "openid"),
  sym (opt_str_eq-eq e.p.nonce (some "n") (ground (arith, h))),
  none_of e.p.code_challenge (ground (arith, h)),
  none_of e.p.code_challenge_method (ground (arith, h)),
  nil_of e.p.claims (ground (arith, h)),
  ground (arith, h),
  ground (arith, h),
  none_of e.p.acr (ground (arith, h)),
)

pub format-ReadsBack : ReadsBack format
format-ReadsBack e b h =
    let k : is_known e ≡ true = ground (arith, h) in
    let f = known_fields e k in
    let s : b ≡ e.p.sub = ground (arith, h, k) in
    λ i. some (record {
      typ = f.0 i;
      p = record {
        client_id = f.1 i;
        redirect_uri = f.2 i;
        scope = f.3 i;
        sub = s i;
        nonce = f.4 i;
        code_challenge = f.5 i;
        code_challenge_method = f.6 i;
        claims = f.7 i;
        auth_time = f.8 i;
        exp = f.9 i;
        acr = f.10 i;
      };
    })

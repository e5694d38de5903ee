-- ===== src/Provider/Mint/Reserved.antt =====
-- src/provider.rs: what is signed into an ID token.
use grindvakt.Prelude.{
  ℕ, String, ◌≡◌, ◌≢◌, refl, sym, ap, ◌∙◌, Bool, true, false, [], ◌∷◌, Option, none, some, ◌==◌,
  arith, eq_iff, if◌then◌else◌,
}
use grindvakt.Prelude.Words.{add_u64}
use grindvakt.Dict
use grindvakt.Dict.{Dict, get-insert}
use grindvakt.Json.{Json}
use grindvakt.Result.{ok, ok_injective}
use grindvakt.Exec.{Returns, after, after_lift}
use grindvakt.Jwt.{Claims, single, seconds}
use grindvakt.Provider.Defs.{Provider}
use grindvakt.Provider.Defs.Services.{Services, drawn}
use grindvakt.Provider.Claims.{is_reserved_id_token_claim}
use grindvakt.Provider.Mint.{
  IdTokenInput, insert_some, insert_unreserved, token_hash, extra_of, id_token_claims,
  build_id_token,
}

abbrev or_else : Option Json → Option Json → Option Json
or_else none b = b
or_else (some a) b = some a

-- a text, or nothing, as a claim
abbrev pub text_claim : Option String → Option Json
text_claim none = none
text_claim (some v) = some (Json.string v)

get-insert_some :
    (j k : String) (o : Option String) (m : Dict Json)
    → Dict.get k (insert_some j o m)
      ≡ (if j == k then or_else (text_claim o) (Dict.get k m) else Dict.get k m)
unfolding insert_some
get-insert_some j k none m = ground arith
get-insert_some j k (some v) m = get-insert j k (Json.string v) m

get-step :
    (j : String) (v : Json) (m : Dict Json) (k : String)
    → Dict.get k (if is_reserved_id_token_claim j then m else Dict.insert j v m) ≡ (
        if is_reserved_id_token_claim j
        then Dict.get k m
        else if j == k
        then some v
        else Dict.get k m)
get-step j v m k = ground (arith, get-insert j k v m)

reserved-congr :
    (j k : String)
    → is_reserved_id_token_claim j ≡ true
    → (j == k) ≡ true
    → is_reserved_id_token_claim k ≡ true
reserved-congr j k h e = ap is_reserved_id_token_claim (sym ((eq_iff j k).0 e)) ∙ h

reserved_names :
    (is_reserved_id_token_claim "nonce" ≡ true)
    × (is_reserved_id_token_claim "acr" ≡ true)
    × (is_reserved_id_token_claim "auth_time" ≡ true)
    × (is_reserved_id_token_claim "c_hash" ≡ true)
    × (is_reserved_id_token_claim "at_hash" ≡ true)
unfolding is_reserved_id_token_claim
reserved_names = (refl, refl, refl, refl, refl)

get-insert_unreserved :
    (claims m : Dict Json) (k : String)
    → Dict.IsMap claims
    → Dict.get k (insert_unreserved claims m) ≡ (
        if is_reserved_id_token_claim k
        then Dict.get k m
        else or_else (Dict.get k claims) (Dict.get k m))
unfolding insert_unreserved Dict.get
get-insert_unreserved [] m k h = ground arith
get-insert_unreserved ((j, v) ∷ claims) m k h =
    get-insert_unreserved claims (if is_reserved_id_token_claim j then m else Dict.insert j v m) k
      h.1
    ∙ rw (get-step j v m k) (
        ground (
          arith,
          λ (e : (j == k) ≡ true). ap is_reserved_id_token_claim ((eq_iff j k).0 e),
          λ (e : (j == k) ≡ true). Dict.get-eq-none k claims (rw (sym ((eq_iff j k).0 e)) (h.0)),
        ))

-- What an ID token holds under a name: the values of the protocol, nothing under the other
-- reserved names, and else the released claim.
abbrev pub expected : IdTokenInput → Option String → Option String → String → Option Json
expected i c_hash at_hash k =
    if "at_hash" == k
    then text_claim at_hash
    else if "c_hash" == k
    then text_claim c_hash
    else if "auth_time" == k
    then some (Json.number i.auth_time)
    else if "acr" == k
    then text_claim i.acr
    else if "nonce" == k
    then text_claim i.nonce
    else if is_reserved_id_token_claim k
    then none
    else Dict.get k i.claims

apart : (i j k : String) → i ≢ j → (i == k) ≡ true → (j == k) ≡ false
apart i j k n h = ground (arith, n, eq_iff i k, eq_iff j k)

abbrev Implies : Bool → Bool → Type 0
Implies a b = a ≡ true → b ≡ true

abbrev Excludes : Bool → Bool → Type 0
Excludes a b = a ≡ true → b ≡ false

-- The lookup through the insertions, by the tests on the name.
chain :
    (n a t c b r : Bool) (vn va vc vb g : Option Json) (vt : Json)
    → Implies n r × Implies a r × Implies t r × Implies c r × Implies b r
    → Excludes b c × Excludes b t × Excludes b a × Excludes b n
    → Excludes c t × Excludes c a × Excludes c n
    → Excludes a n
    → (let e = if n then or_else vn none else none in
        let d = if a then or_else va e else e in
        let f = if t then some vt else d in
        let h = if c then or_else vc f else f in
        let x = if b then or_else vb h else h in if r then x else or_else g x)
      ≡ (if b
          then vb
          else if c
          then vc
          else if t
          then some vt
          else if a
          then va
          else if n
          then vn
          else if r
          then none
          else g)
chain n a t c b r vn va vc vb g vt i x y z = ground (arith, i, x, y, z)

module _ {J W : Type 0} (p : Provider) (s : Services J W) where
  get-extra_of :
      (i : IdTokenInput) (c_hash at_hash : Option String) (k : String)
      → Dict.IsMap i.claims
      → Dict.get k (extra_of p s i c_hash at_hash) ≡ expected i c_hash at_hash k
  unfolding extra_of Dict.get
  get-extra_of i c_hash at_hash k h =
      let n = insert_some "nonce" i.nonce [] in
      let a = insert_some "acr" i.acr n in
      let t = Dict.insert "auth_time" (Json.number i.auth_time) a in
      let c = insert_some "c_hash" c_hash t in
      let b = insert_some "at_hash" at_hash c in
      get-insert_unreserved i.claims b k h
      ∙ rw
          (
            get-insert_some "at_hash" k at_hash c,
            get-insert_some "c_hash" k c_hash t,
            get-insert "auth_time" k (Json.number i.auth_time) a,
            get-insert_some "acr" k i.acr n,
            get-insert_some "nonce" k i.nonce [],
          )
          (chain ("nonce" == k) ("acr" == k) ("auth_time" == k) ("c_hash" == k) ("at_hash" == k)
            (is_reserved_id_token_claim k) (text_claim i.nonce) (text_claim i.acr)
            (text_claim c_hash) (text_claim at_hash) (Dict.get k i.claims) (Json.number i.auth_time)
            (
              reserved-congr "nonce" k reserved_names.0,
              reserved-congr "acr" k reserved_names.1,
              reserved-congr "auth_time" k reserved_names.2,
              reserved-congr "c_hash" k reserved_names.3,
              reserved-congr "at_hash" k reserved_names.4,
            )
            (
              apart "at_hash" "c_hash" k (λ e. cc),
              apart "at_hash" "auth_time" k (λ e. cc),
              apart "at_hash" "acr" k (λ e. cc),
              apart "at_hash" "nonce" k (λ e. cc),
            )
            (
              apart "c_hash" "auth_time" k (λ e. cc),
              apart "c_hash" "acr" k (λ e. cc),
              apart "c_hash" "nonce" k (λ e. cc),
            )
            (apart "acr" "nonce" k (λ e. cc)))

  -- What a signed ID token says.
  pub record IsSigned (i : IdTokenInput) (w : W) (token : String) : Type 0 where
    pub random : ℕ
    pub c_hash : Option String
    pub at_hash : Option String
    pub claims : Claims
    pub signed : s.sign random claims ≡ ok token
    pub code_hash : token_hash p s i.code ≡ ok c_hash
    pub token_hash : token_hash p s i.access_token ≡ ok at_hash
    pub issuer : claims.iss ≡ some p.metadata.issuer
    pub subject : claims.sub ≡ some i.sub
    pub audience : claims.aud ≡ some (single i.client_id)
    pub lifetime :
        (claims.iat ≡ some (seconds (s.clock w).0))
        × (claims.exp ≡ some (seconds (add_u64 (s.clock w).0 p.lifetimes.id_token_ttl)))
    pub entries : (k : String) → Dict.get k claims.extra ≡ expected i c_hash at_hash k

  -- A built ID token is the signature of claims with the provider as issuer, the given subject
  -- and the client as audience, that end after the lifetime; for released claims whose names
  -- are distinct, every further name holds exactly the nonce, the acr, the authentication time
  -- and the two token hashes under their names, nothing under the other reserved names, and
  -- the released claim under all others.
  pub build_id_token-IsSigned :
      (i : IdTokenInput) (w : W) {token : String} {w' : W}
      → Dict.IsMap i.claims
      → Returns (build_id_token p s i) w token w'
      → IsSigned i w token
  unfolding build_id_token drawn id_token_claims
  build_id_token-IsSigned i w m h = after _ _ _ h λ now w₁ n h₁. after_lift _ _ _ h₁ λ c_hash c h₂.
      after_lift _ _ _ h₂ λ at_hash a h₃. record {
        random = (s.draw w₁).0;
        c_hash = c_hash;
        at_hash = at_hash;
        claims = id_token_claims p s i now c_hash at_hash;
        signed = λ x. (h₃ x).0;
        code_hash = c;
        token_hash = a;
        issuer = refl;
        subject = refl;
        audience = refl;
        lifetime = (
          ap (λ t. some (seconds t)) (sym (ok_injective (λ x. (n x).0))),
          ap (λ t. some (seconds (add_u64 t p.lifetimes.id_token_ttl)))
              (sym (ok_injective (λ x. (n x).0))),
        );
        entries = λ k. get-extra_of i c_hash at_hash k m;
      }

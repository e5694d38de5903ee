-- ===== src/Request/Modes.antt =====
-- src/request.rs: the response mode and the prompt of an authorization request.
use grindvakt.Prelude.{
  ℕ, ◌+◌, String, ◌≡◌, refl, ◌↔◌, Bool, true, false, not, ◌&&◌, ◌||◌, List, [], ◌∷◌, Option, none,
  some, arith, ◌==◌, has, length, Option-cases, any, inl, inr,
}
use grindvakt.Result.{ok}
use grindvakt.Request.{
  AuthorizationRequest, wants, wants_id_token, wants_access_token, fragment_mode, use_fragment,
  check_mode, validate_response_mode, prompt_values, prompt_has, has_prompt, count_prompt,
  check_prompt, validate_prompt, validate_response_type, response_type_eq, is_oidc,
  supported_response_types,
}

-- A request whose response mode is accepted and that asks for an ID token or an access token in
-- the response itself gets the response in the fragment.
pub token-use_fragment :
    (r : AuthorizationRequest)
    → validate_response_mode r ≡ ok tt
    → (wants_id_token r || wants_access_token r) ≡ true
    → use_fragment r ≡ true
unfolding validate_response_mode use_fragment wants
token-use_fragment r h w = elim (Option-cases r.response_mode) [
  | inl e ↦ rw (e, fragment_mode) w
  | inr (mode, e) ↦
      let k : check_mode r (some mode) ≡ ok tt = rw e at h in
      rw (e, fragment_mode) (ground (arith, k, w))
]

count_prompt-eq :
    (r : AuthorizationRequest) (n : ℕ) (b : Bool) (ws : List String)
    → count_prompt r n b ws ≡ (n + length ws, b || has "none" ws)
unfolding count_prompt
count_prompt-eq r n b [] = ground arith
count_prompt-eq r n b (w ∷ ws) = ground (arith, count_prompt-eq r (n + 1) (b || w == "none") ws)

abbrev pub prompt_count : AuthorizationRequest → Option String → ℕ
prompt_count r none = 0
prompt_count r (some prompt) = length (prompt_values r prompt)

check_prompt_iff :
    (r : AuthorizationRequest) (p : Option String)
    → (check_prompt r p ≡ ok tt) ↔ (prompt_has r "none" p ≡ true → prompt_count r p ≡ 1)
unfolding check_prompt prompt_has
check_prompt_iff r none = (λ h e. cc, λ h. refl)
check_prompt_iff r (some prompt) =
    let ws = prompt_values r prompt in rw (count_prompt-eq r 0 false ws) (ground arith)

-- The prompt is accepted exactly if none is not among its values or is the only one.
pub validate_prompt_iff :
    (r : AuthorizationRequest)
    → (validate_prompt r ≡ ok tt) ↔ (has_prompt r "none" ≡ true → prompt_count r r.prompt ≡ 1)
unfolding validate_prompt has_prompt
validate_prompt_iff r = check_prompt_iff r r.prompt

pub validate_response_type_iff :
    (r : AuthorizationRequest)
    → (validate_response_type r ≡ ok tt) ↔ (
        (any (response_type_eq r.response_type) supported_response_types ≡ true)
        × ((wants_id_token r && not (is_oidc r)) ≡ false))
unfolding validate_response_type
validate_response_type_iff r = ground arith

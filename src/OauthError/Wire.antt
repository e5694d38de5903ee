-- ===== src/OauthError/Wire.antt =====
-- src/oauth_error.rs: what an error may put on the wire.
use Prim.Native.Char.{code}
use grindvakt.Prelude.{
  ℕ, zero, suc, ◌≤◌, String, ◌≡◌, refl, ap, ◌↔◌, true, Option, none, some, arith, and-eq-true,
  Bool-cases, inl, inr,
}
use grindvakt.Prelude.Text.{char_count, all_chars}
use grindvakt.OauthError.{
  is_wire_char, wire_char, wire_chars, wire_description, max_wire_description_chars, is_valid_state,
  OauthError, valid_only, wire_state,
}

wire_char-allowed : (c : Prim.Native.Char.Char) → is_wire_char (code (wire_char c)) ≡ true
unfolding wire_char
wire_char-allowed c = elim (Bool-cases (is_wire_char (code c))) [
  | inl e ↦ rw e e
  | inr e ↦ rw e refl
]

wire_chars-allowed : (n : ℕ) (s : String) → all_chars is_wire_char (wire_chars n s) ≡ true
unfolding wire_chars all_chars
wire_chars-allowed zero s = refl
wire_chars-allowed (suc n) String.[] = refl
wire_chars-allowed (suc n) (String.◌∷◌ c s) = rw (wire_char-allowed c) (wire_chars-allowed n s)

char_count-wire_chars : (n : ℕ) (s : String) → char_count (wire_chars n s) ≤ n
unfolding wire_chars
char_count-wire_chars zero s = omega arith
char_count-wire_chars (suc n) String.[] = omega arith
char_count-wire_chars (suc n) (String.◌∷◌ c s) = omega (arith, char_count-wire_chars n s)

wire_chars_of_clean :
    (n : ℕ) (s : String) → char_count s ≤ n → all_chars is_wire_char s ≡ true → wire_chars n s ≡ s
unfolding wire_chars all_chars
wire_chars_of_clean zero String.[] h k = refl
wire_chars_of_clean zero (String.◌∷◌ c s) h k = absurd (omega arith)
wire_chars_of_clean (suc n) String.[] h k = refl
wire_chars_of_clean (suc n) (String.◌∷◌ c s) h k =
    let (p, q) = and-eq-true (is_wire_char (code c)) (all_chars is_wire_char s) k in
    rw p (ap (String.◌∷◌ c) (wire_chars_of_clean n s (omega arith) q))

-- A description on the wire has only characters that RFC 6749 allows and at most 256 of them,
-- and is the description itself exactly if that was so before.
pub wire_description_lem :
    (d : String)
    → (all_chars is_wire_char (wire_description d) ≡ true)
      × (char_count (wire_description d) ≤ max_wire_description_chars)
      × ((wire_description d ≡ d)
          ↔ ((all_chars is_wire_char d ≡ true) × (char_count d ≤ max_wire_description_chars)))
unfolding wire_description
wire_description_lem d =
    let n = max_wire_description_chars in
    (
      wire_chars-allowed n d,
      char_count-wire_chars n d,
      (
        λ e. (rw e at (wire_chars-allowed n d), rw e at (char_count-wire_chars n d)),
        λ (a, l). wire_chars_of_clean n d l a,
      ),
    )

wire_state_of :
    (o : Option String) (s : String)
    → (valid_only o ≡ some s) ↔ ((o ≡ some s) × (is_valid_state s ≡ true))
unfolding valid_only
wire_state_of none s = ground arith
wire_state_of (some t) s = elim (Bool-cases (is_valid_state t)) [
  | inl v ↦ rw v (λ h. (h, cc (v, h)), λ h. h.0)
  | inr v ↦ rw v (λ h. cc, λ h. cc (v, h.0, h.1))
]

-- A state goes on the wire exactly if it is the error's state and may be echoed.
pub wire_state_iff :
    (e : OauthError) (s : String)
    → (wire_state e ≡ some s) ↔ ((e.state ≡ some s) × (is_valid_state s ≡ true))
unfolding wire_state
wire_state_iff e s = wire_state_of e.state s

-- ===== src/Error/Shown.antt =====
-- src/error.rs: escaped text is short and shows all that it holds.
use Prim.Native.Char.{Char, code}
use Prim.Native.String.{String, [], ◌∷◌}
use grindvakt.Prelude.{
  ℕ, zero, suc, ◌+◌, ◌/◌, ◌%◌, ◌≤◌, Bool, true, false, ◌||◌, if◌then◌else◌, leb, ltb, ◌≡◌, refl, ap,
  ◌∙◌, arith, Bool-cases, inl, inr,
}
use grindvakt.Prelude.Text.{char_count, is_control, any_char, ◌<>◌}
use grindvakt.Error.Escape.{
  is_invisible_format, is_hidden, hex_digit, hex_from, escape_unicode, piece, escape_from,
  escape_upstream_text,
}
use text.Mathlib.TextLemmas.{nil-append, cons-append}

char_count-append : (s t : String) → char_count (s <> t) ≡ char_count s + char_count t
char_count-append [] t = ap char_count (nil-append t) ∙ omega arith
char_count-append (c ∷ s) t =
    ap char_count (cons-append c s t) ∙ omega (arith, char_count-append s t)

any_char-append :
    (p : ℕ → Bool) (s t : String) → any_char p (s <> t) ≡ (any_char p s || any_char p t)
unfolding any_char
any_char-append p [] t = ap (any_char p) (nil-append t)
any_char-append p (c ∷ s) t =
    ap (any_char p) (cons-append c s t) ∙ ground (arith, any_char-append p s t)

step-le :
    (max_chars count : ℕ) (x more : String)
    → count ≤ max_chars
    → (count + char_count x ≤ max_chars → count + char_count x + char_count more ≤ max_chars + 1)
    → count + char_count (if ltb max_chars (count + char_count x) then "…" else x <> more)
      ≤ max_chars + 1
step-le max_chars count x more h k = elim (Bool-cases (ltb max_chars (count + char_count x))) [
  | inl e ↦ rw e (omega (arith, h))
  | inr n ↦ rw n (rw (char_count-append x more) (omega (arith, k (ground (arith, n)))))
]

escape_from-le :
    (max_chars count : ℕ) (s : String)
    → count ≤ max_chars
    → count + char_count (escape_from max_chars count s) ≤ max_chars + 1
unfolding escape_from
escape_from-le max_chars count [] h = omega (arith, h)
escape_from-le max_chars count (c ∷ s) h =
    step-le max_chars count (piece c) (escape_from max_chars (count + char_count (piece c)) s) h
      (escape_from-le max_chars (count + char_count (piece c)) s)

hex_digit-shown : (n : ℕ) → any_char is_hidden (hex_digit n) ≡ false
unfolding hex_digit any_char is_control is_invisible_format
hex_digit-shown zero = refl
hex_digit-shown (suc zero) = refl
hex_digit-shown (suc (suc zero)) = refl
hex_digit-shown (suc (suc (suc zero))) = refl
hex_digit-shown (suc (suc (suc (suc zero)))) = refl
hex_digit-shown (suc (suc (suc (suc (suc zero))))) = refl
hex_digit-shown (suc (suc (suc (suc (suc (suc zero)))))) = refl
hex_digit-shown (suc (suc (suc (suc (suc (suc (suc zero))))))) = refl
hex_digit-shown (suc (suc (suc (suc (suc (suc (suc (suc zero)))))))) = refl
hex_digit-shown (suc (suc (suc (suc (suc (suc (suc (suc (suc zero))))))))) = refl
hex_digit-shown (suc (suc (suc (suc (suc (suc (suc (suc (suc (suc zero)))))))))) = refl
hex_digit-shown (suc (suc (suc (suc (suc (suc (suc (suc (suc (suc (suc zero))))))))))) = refl
hex_digit-shown (suc (suc (suc (suc (suc (suc (suc (suc (suc (suc (suc (suc zero)))))))))))) = refl
hex_digit-shown (suc (suc (suc (suc (suc (suc (suc (suc (suc (suc (suc (suc (suc zero))))))))))))) =
    refl
hex_digit-shown
      (suc (suc (suc (suc (suc (suc (suc (suc (suc (suc (suc (suc (suc (suc zero)))))))))))))) =
    refl
hex_digit-shown
      (suc (suc (suc (suc (suc (suc (suc (suc (suc (suc (suc (suc (suc (suc (suc n))))))))))))))) =
    refl

both_shown : {a b : Bool} → a ≡ false → b ≡ false → (a || b) ≡ false
both_shown h k = ground (arith, h, k)

-- the texts that the escaping adds
brace-shown :
    (any_char is_hidden "\\u{" ≡ false)
    × (any_char is_hidden "}" ≡ false)
    × (any_char is_hidden "…" ≡ false)
    × (any_char is_hidden "" ≡ false)
unfolding any_char is_control is_invisible_format
brace-shown = (refl, refl, refl, refl)

shown-step :
    (b : Bool) (x more : String)
    → any_char is_hidden x ≡ false
    → any_char is_hidden more ≡ false
    → any_char is_hidden (if b then "…" else x <> more) ≡ false
shown-step true x more h k = brace-shown.2
shown-step false x more h k = any_char-append is_hidden x more ∙ both_shown h k

hex_from-shown :
    (fuel n : ℕ) (s : String)
    → any_char is_hidden s ≡ false
    → any_char is_hidden (hex_from fuel n s) ≡ false
unfolding hex_from
hex_from-shown zero n s h = h
hex_from-shown (suc fuel) n s h =
    let more = (n % 16) in
    elim (Bool-cases (leb n 15)) [
      | inl e ↦ rw e (any_char-append is_hidden (hex_digit n) s ∙ both_shown (hex_digit-shown n) h)
      | inr k ↦ rw k (
          hex_from-shown fuel (n / 16) (hex_digit more <> s)
            (any_char-append is_hidden (hex_digit more) s ∙ both_shown (hex_digit-shown more) h))
    ]

escape_unicode-shown : (c : ℕ) → any_char is_hidden (escape_unicode c) ≡ false
unfolding escape_unicode
escape_unicode-shown c =
    any_char-append is_hidden "\\u{" (hex_from 6 c "}")
    ∙ both_shown brace-shown.0 (hex_from-shown 6 c "}" brace-shown.1)

piece-shown : (c : Char) → any_char is_hidden (piece c) ≡ false
unfolding piece any_char
piece-shown c = elim (Bool-cases (is_hidden (code c))) [
  | inl e ↦ rw e (escape_unicode-shown (code c))
  | inr n ↦ rw n (ground (arith, n))
]

escape_from-shown :
    (max_chars count : ℕ) (s : String) → any_char is_hidden (escape_from max_chars count s) ≡ false
unfolding escape_from
escape_from-shown max_chars count [] = brace-shown.3
escape_from-shown max_chars count (c ∷ s) =
    shown-step (ltb max_chars (count + char_count (piece c))) (piece c)
      (escape_from max_chars (count + char_count (piece c)) s) (piece-shown c)
      (escape_from-shown max_chars (count + char_count (piece c)) s)

-- Escaped text has at most one character more than the limit, and no control character and no
-- invisible format character.
pub escape_lem :
    (s : String) (max_chars : ℕ)
    → (char_count (escape_upstream_text s max_chars) ≤ max_chars + 1)
      × (any_char is_hidden (escape_upstream_text s max_chars) ≡ false)
unfolding escape_upstream_text
escape_lem s max_chars =
    (omega (arith, escape_from-le max_chars 0 s (omega arith)), escape_from-shown max_chars 0 s)

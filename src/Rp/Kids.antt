-- ===== src/Rp/Kids.antt =====
-- src/rp.rs: the key identifier of a token.
use grindvakt.Prelude.{
  String, ◌≡◌, refl, List, Bool, true, false, not, ◌&&◌, Option, none, some, is_some, any, length,
  ltb, opt_str_eq, arith,
}
use grindvakt.Prelude.Text.{◌<>◌}
use grindvakt.Result.{Result, ok, fail_if}
use grindvakt.Error.{Error, authn}

-- `kids` are the identifiers of the keys of the set.
unfoldable pub ensure_kid_names_key :
    List (Option String) → Option String → String → Result Error (Unit {0})
ensure_kid_names_key kids none what = ok tt
ensure_kid_names_key kids (some kid) what =
    fail_if (not (any (λ k. opt_str_eq k (some kid)) kids))
      (authn (what <> " kid does not name a key in the JWK Set"))

-- `jwks.keys.len() > 1`
abbrev pub several : List (Option String) → Bool
several kids = ltb 1 (length kids)

-- A key is named where there are several, and a name is that of a key.
abbrev pub IsNamed : List (Option String) → Option String → Type 0
IsNamed kids none = several kids ≡ false
IsNamed kids (some kid) = any (λ k. opt_str_eq k (some kid)) kids ≡ true

pub kid-IsNamed :
    (kids : List (Option String)) (kid : Option String) (what : String)
    → (several kids && not (is_some kid)) ≡ false
    → ensure_kid_names_key kids kid what ≡ ok tt
    → IsNamed kids kid
unfolding ensure_kid_names_key
kid-IsNamed kids none what n h = ground (arith, n)
kid-IsNamed kids (some kid) what n h = ground (arith, h)

pub IsNamed-kid :
    (kids : List (Option String)) (kid : Option String) (what : String)
    → IsNamed kids kid
    → ((several kids && not (is_some kid)) ≡ false) × (ensure_kid_names_key kids kid what ≡ ok tt)
unfolding ensure_kid_names_key
IsNamed-kid kids none what n = (ground (arith, n), refl)
IsNamed-kid kids (some kid) what n = (ground arith, ground (arith, n))

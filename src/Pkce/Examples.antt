-- ===== src/Pkce/Examples.antt =====
-- Values of src/pkce.rs.
use grindvakt.Prelude.{String, ◌≡◌, ◌↔◌, ◌⊎◌, true, none, unwrap_or}
use grindvakt.Pkce.{Encoding, is_valid_verifier, is_valid_s256_challenge, s256_challenge, verify}
use grindvakt.Pkce.Verify.{verify_iff}

abbrev encoding : Encoding
encoding = record { encode = λ bs. "text"; decode = λ t. none; sha256 = λ bs. bs }

verify_iff_example : (verify encoding "v" "v" none ≡ true) ↔ (
    (is_valid_verifier "v" ≡ true)
    × (((◌≡◌ {A = String} (unwrap_or "plain" none) "S256")
          × (is_valid_s256_challenge encoding "v" ≡ true)
          × (s256_challenge encoding "v" ≡ "v"))
        ⊎ ((◌≡◌ {A = String} (unwrap_or "plain" none) "plain") × (◌≡◌ {A = String} "v" "v"))))
verify_iff_example = verify_iff encoding "v" "v" none

-- ===== src/Tokens/Examples.antt =====
-- Runs of sealing and opening in src/tokens.rs.
use grindvakt.Prelude.{◌≡◌, refl, [], ◌∷◌, if◌then◌else◌, leb}
use grindvakt.Error.{authn}
use grindvakt.Result.{ok, err}
use grindvakt.Tokens.{TokenCodec, seal, seal_code, open_code}
use grindvakt.Tokens.Sealing.{open_code-seal_code}
use grindvakt.Tokens
use grindvakt.Tokens.{with_previous_secrets, derive_key}
use grindvakt.Tokens.Rotation.{open_code-with_previous_secrets}
use grindvakt.Tokens.Kinds.{KeepsTags, Kind, kind_of_opened}
use grindvakt.Tokens.Fixture.{payload, format-ReadsBack, cipher, cipher-IsAuthentic}

abbrev two_keys : TokenCodec
two_keys = record { primary = "k"; previous = "old" ∷ [] }

open_code-seal_code_example :
    open_code cipher two_keys 600 "t"
    ≡ (if leb 700 600 then err (authn "authorization code expired") else ok (payload "u"))
unfolding seal_code seal
open_code-seal_code_example =
    open_code-seal_code cipher cipher-IsAuthentic two_keys two_keys 0 600 (payload "u") {t = "t"}
      format-ReadsBack refl refl

-- The formats of the other kinds write nothing.
tags : KeepsTags cipher
tags = record {
  code_access = λ e b e' h k. cc;
  code_refresh = λ e b e' h k. cc;
  access_code = λ e b e' h k. cc;
  access_refresh = λ e b e' h k. cc;
  refresh_code = λ e b e' h k. cc;
  refresh_access = λ e b e' h k. cc;
}

kind_of_opened_example : Kind.code ≡ Kind.code
unfolding seal_code seal
kind_of_opened_example =
    kind_of_opened cipher cipher-IsAuthentic tags two_keys two_keys 600 Kind.code Kind.code "t" refl
      (0, payload "u", refl) (payload "u", open_code-seal_code_example)

open_code-with_previous_secrets_example :
    (open_code cipher
        (with_previous_secrets cipher ("" ∷ "k" ∷ []) (Tokens.codec cipher "new"))
        600
        "t"
      ≡ (if leb 700 600 then err (authn "authorization code expired") else ok (payload "u")))
    × ((with_previous_secrets cipher ("" ∷ "k" ∷ []) (Tokens.codec cipher "new")).primary
        ≡ derive_key cipher "new")
unfolding seal_code seal Tokens.codec
open_code-with_previous_secrets_example =
    open_code-with_previous_secrets cipher cipher-IsAuthentic "k" "new" ("" ∷ "k" ∷ []) 0 600
      (payload "u") {t = "t"} format-ReadsBack refl refl refl

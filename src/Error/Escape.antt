-- ===== src/Error/Escape.antt =====
-- src/error.rs: escaping text that comes from elsewhere before it is put into a message.
use Prim.Native.Char.{Char, code}
use Prim.Native.String.{String, [], ◌∷◌}
use grindvakt.Prelude.{ℕ, zero, suc, ◌+◌, ◌/◌, ◌%◌, Bool, ◌||◌, if◌then◌else◌, leb, ltb, nat_eq}
use grindvakt.Prelude.Text.{char_count, is_control, within, ◌<>◌}

unfoldable pub is_invisible_format : ℕ → Bool
is_invisible_format c =
    nat_eq c 0x61c
    || within 0x200e 0x200f c
    || within 0x2028 0x2029 c
    || within 0x202a 0x202e c
    || within 0x2066 0x2069 c
    || nat_eq c 0xad
    || within 0x600 0x605 c
    || nat_eq c 0x6dd
    || nat_eq c 0x70f
    || within 0x890 0x891 c
    || nat_eq c 0x8e2
    || within 0x180b 0x180f c
    || within 0x200b 0x200d c
    || within 0x2060 0x2064 c
    || nat_eq c 0x2065
    || within 0x206a 0x206f c
    || nat_eq c 0xfeff
    || within 0xfff0 0xfffb c
    || nat_eq c 0x110bd
    || nat_eq c 0x110cd
    || within 0x13430 0x1343f c
    || within 0x1bca0 0x1bca3 c
    || within 0x1d173 0x1d17a c
    || nat_eq c 0x34f
    || within 0x115f 0x1160 c
    || within 0x17b4 0x17b5 c
    || nat_eq c 0x3164
    || nat_eq c 0xffa0
    || within 0xfe00 0xfe0f c
    || within 0xe0000 0xe0fff c

unfoldable pub hex_digit : ℕ → String
hex_digit zero = "0"
hex_digit (suc zero) = "1"
hex_digit (suc (suc zero)) = "2"
hex_digit (suc (suc (suc zero))) = "3"
hex_digit (suc (suc (suc (suc zero)))) = "4"
hex_digit (suc (suc (suc (suc (suc zero))))) = "5"
hex_digit (suc (suc (suc (suc (suc (suc zero)))))) = "6"
hex_digit (suc (suc (suc (suc (suc (suc (suc zero))))))) = "7"
hex_digit (suc (suc (suc (suc (suc (suc (suc (suc zero)))))))) = "8"
hex_digit (suc (suc (suc (suc (suc (suc (suc (suc (suc zero))))))))) = "9"
hex_digit (suc (suc (suc (suc (suc (suc (suc (suc (suc (suc zero)))))))))) = "a"
hex_digit (suc (suc (suc (suc (suc (suc (suc (suc (suc (suc (suc zero))))))))))) = "b"
hex_digit (suc (suc (suc (suc (suc (suc (suc (suc (suc (suc (suc (suc zero)))))))))))) = "c"
hex_digit (suc (suc (suc (suc (suc (suc (suc (suc (suc (suc (suc (suc (suc zero))))))))))))) = "d"
hex_digit (suc (suc (suc (suc (suc (suc (suc (suc (suc (suc (suc (suc (suc (suc zero)))))))))))))) =
    "e"
hex_digit _ = "f"

-- The hexadecimal digits of `n` in front of `s`, at most `fuel` of them: a scalar value has six.
unfoldable pub hex_from : ℕ → ℕ → String → String
hex_from zero n s = s
hex_from (suc fuel) n s =
    let more = hex_from fuel (n / 16) (hex_digit (n % 16) <> s) in
    if leb n 15 then hex_digit n <> s else more

-- `c.escape_unicode()`
unfoldable pub escape_unicode : ℕ → String
unfolding hex_digit hex_from
escape_unicode c = "\\u{" <> hex_from 6 c "}"

abbrev pub is_hidden : ℕ → Bool
is_hidden c = is_control c || is_invisible_format c

unfoldable pub piece : Char → String
unfolding escape_unicode
piece c = if is_hidden (code c) then escape_unicode (code c) else c ∷ []

-- The loop of `escape_upstream_text`, with the characters written so far.
unfoldable pub escape_from : ℕ → ℕ → String → String
unfolding piece
escape_from max_chars count [] = ""
escape_from max_chars count (c ∷ s) =
    let more = escape_from max_chars (count + char_count (piece c)) s in
    if ltb max_chars (count + char_count (piece c)) then "…" else piece c <> more

unfoldable pub escape_upstream_text : String → ℕ → String
unfolding escape_from
escape_upstream_text s max_chars = escape_from max_chars 0 s

pub display_safe : String → String
display_safe s = escape_upstream_text s 256

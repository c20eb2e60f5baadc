-- ===== src/Auth/Flash/Laws.antt =====
-- `encode_flash` and `decode_flash` are inverse.
use peanut_butter.Prelude.{
  ℕ, ◌/◌, ◌%◌, ◌<◌, ◌≡◌, refl, ap, ap₂, ◌∙◌, true, false, some, List, [], ◌∷◌, ◌==◌, All,
  Bool-cases, inl, inr, arith,
}
use peanut_butter.Text.{
  is_ascii_alphanumeric, is_ascii_digit, is_ascii_lowercase, is_ascii_uppercase, is_ascii_hexdigit,
}
use peanut_butter.Torrents.Link.{upper_hex}
use peanut_butter.Auth.Flash.{is_plain, encode_flash, hex_value, radix16, plain_byte, decode_flash}

decode_plain :
    (c : ℕ) (s : List ℕ)
    → (c == b'%') ≡ false
    → decode_flash (c ∷ s) ≡ plain_byte c ∷ decode_flash s
unfolding decode_flash
decode_plain c [] h = refl
decode_plain c (a ∷ []) h = refl
decode_plain c (a ∷ b ∷ s) h = rw h refl

decode_escaped :
    (a b v : ℕ) (s : List ℕ)
    → radix16 a b ≡ some v
    → decode_flash (b'%' ∷ a ∷ b ∷ s) ≡ v ∷ decode_flash s
unfolding decode_flash
decode_escaped a b v s h = rw (decode_flash, h) refl

hex_value-upper_hex : (d : ℕ) → d < 16 → hex_value (upper_hex d) ≡ d
unfolding hex_value upper_hex
hex_value-upper_hex d h = ground arith

is_ascii_hexdigit-upper_hex : (d : ℕ) → d < 16 → is_ascii_hexdigit (upper_hex d) ≡ true
unfolding is_ascii_hexdigit is_ascii_digit upper_hex
is_ascii_hexdigit-upper_hex d h = ground arith

radix16-upper_hex : (b : ℕ) → b < 256 → radix16 (upper_hex (b / 16)) (upper_hex (b % 16)) ≡ some b
unfolding radix16
radix16-upper_hex b h =
    rw
      (
        radix16,
        is_ascii_hexdigit-upper_hex (b / 16) (omega arith),
        is_ascii_hexdigit-upper_hex (b % 16) (omega arith),
        hex_value-upper_hex (b / 16) (omega arith),
        hex_value-upper_hex (b % 16) (omega arith),
      )
      (ap some (omega arith))

is_plain-percent : (b : ℕ) → is_plain b ≡ true → (b == b'%') ≡ false
unfolding is_plain is_ascii_alphanumeric is_ascii_digit is_ascii_lowercase is_ascii_uppercase
is_plain-percent b h = ground arith

plain_byte-is_plain : (b : ℕ) → is_plain b ≡ true → plain_byte b ≡ b
unfolding plain_byte is_plain is_ascii_alphanumeric is_ascii_digit is_ascii_lowercase
    is_ascii_uppercase
plain_byte-is_plain b h = ground arith

decode_nil : decode_flash [] ≡ []
unfolding decode_flash
decode_nil = refl

plus_byte : (b : ℕ) → (b == b' ') ≡ true → plain_byte b'+' ≡ b
unfolding plain_byte
plus_byte b h = ground arith

-- A message that was put into the cookie is read from it as it was, whatever bytes it has.
pub decode_flash-encode_flash :
    (s : List ℕ) → All (λ b. b < 256) s → decode_flash (encode_flash s) ≡ s
unfolding encode_flash
decode_flash-encode_flash [] h = decode_nil
decode_flash-encode_flash (b ∷ s) h = elim (Bool-cases (b == b' ')) [
  | inl e ↦ rw e (
      decode_plain b'+' (encode_flash s) refl
      ∙ ap₂ (λ c t. c ∷ t) (plus_byte b e) (decode_flash-encode_flash s h.1))
  | inr e ↦ elim (Bool-cases (is_plain b)) [
    | inl k ↦
        rw (e, k)
          (decode_plain b (encode_flash s) (is_plain-percent b k)
            ∙ ap₂ (λ c t. c ∷ t) (plain_byte-is_plain b k) (decode_flash-encode_flash s h.1))
    | inr k ↦
        rw (e, k)
          (decode_escaped _ _ b (encode_flash s) (radix16-upper_hex b h.0)
            ∙ ap (λ t. b ∷ t) (decode_flash-encode_flash s h.1))
  ]
]

-- ===== src/Torrents/Link/Percent.antt =====
-- `encode`, against the decoder of percent-encoded texts.
use peanut_butter.Prelude.{
  ℕ, ◌+◌, ◌-◌, ◌*◌, ◌/◌, ◌%◌, ◌<◌, ◌≡◌, refl, ap, ap₂, ◌∙◌, true, false, List, [], ◌∷◌, ◌||◌, ◌==◌,
  if◌then◌else◌, leb, All, Bool-cases, inl, inr, arith,
}
use peanut_butter.Text.{
  Text, is_ascii_alphanumeric, is_ascii_digit, is_ascii_lowercase, is_ascii_uppercase,
}
use peanut_butter.Torrents.Link.{encode, upper_hex, is_unreserved}

-- The value of an upper-case hexadecimal digit.
unfoldable pub hex_digit : ℕ → ℕ
hex_digit c = if leb c b'9' then c - b'0' else c - b'A' + 10

-- `%XX` is a byte, and any other character stands for itself.
unfoldable pub decode : Text → List ℕ
unfolding hex_digit
decode [] = []
decode (c ∷ []) = c ∷ []
decode (c ∷ a ∷ []) = c ∷ a ∷ []
decode (c ∷ a ∷ b ∷ s) =
    let escaped = (hex_digit a * 16 + hex_digit b) ∷ decode s in
    let plain = c ∷ decode (a ∷ b ∷ s) in if c == b'%' then escaped else plain

decode_nil : decode [] ≡ []
unfolding decode
decode_nil = refl

decode_plain : (c : ℕ) (s : Text) → (c == b'%') ≡ false → decode (c ∷ s) ≡ c ∷ decode s
unfolding decode
decode_plain c [] h = refl
decode_plain c (a ∷ []) h = refl
decode_plain c (a ∷ b ∷ s) h = rw h refl

decode_escaped :
    (a b : ℕ) (s : Text) → decode (b'%' ∷ a ∷ b ∷ s) ≡ (hex_digit a * 16 + hex_digit b) ∷ decode s
unfolding decode
decode_escaped a b s = refl

hex_digit-upper_hex : (d : ℕ) → d < 16 → hex_digit (upper_hex d) ≡ d
unfolding hex_digit upper_hex
hex_digit-upper_hex d h = ground arith

is_unreserved-percent : (c : ℕ) → is_unreserved c ≡ true → (c == b'%') ≡ false
unfolding is_unreserved is_ascii_alphanumeric is_ascii_digit is_ascii_lowercase is_ascii_uppercase
is_unreserved-percent c h = ground arith

upper_hex-is_unreserved : (d : ℕ) → d < 16 → is_unreserved (upper_hex d) ≡ true
unfolding is_unreserved upper_hex is_ascii_alphanumeric is_ascii_digit is_ascii_lowercase
    is_ascii_uppercase
upper_hex-is_unreserved d h = ground arith

-- The characters of an encoded text, none of which ends a parameter of a magnet.
abbrev pub IsEncoded : Text → Type 0
IsEncoded = All (λ c. (is_unreserved c || c == b'%') ≡ true)

decode-encode : (s : List ℕ) → All (λ b. b < 256) s → decode (encode s) ≡ s
unfolding encode
decode-encode [] h = decode_nil
decode-encode (b ∷ s) h = elim (Bool-cases (is_unreserved b)) [
  | inl e ↦ rw e (
      decode_plain b (encode s) (is_unreserved-percent b e) ∙ ap (λ t. b ∷ t) (decode-encode s h.1))
  | inr e ↦
      (let byte : hex_digit (upper_hex (b / 16)) * 16 + hex_digit (upper_hex (b % 16)) ≡ b =
          rw
            (
              hex_digit-upper_hex (b / 16) (omega (arith, h.0)),
              hex_digit-upper_hex (b % 16) (omega arith),
            )
            (omega arith) in
        rw e (
          decode_escaped (upper_hex (b / 16)) (upper_hex (b % 16)) (encode s)
          ∙ ap₂ (λ c t. c ∷ t) byte (decode-encode s h.1)))
]

encode-IsEncoded : (s : List ℕ) → All (λ b. b < 256) s → IsEncoded (encode s)
unfolding encode
encode-IsEncoded [] h = tt
encode-IsEncoded (b ∷ s) h = elim (Bool-cases (is_unreserved b)) [
  | inl e ↦ rw e (rw e refl, encode-IsEncoded s h.1)
  | inr e ↦
      (let parts : IsEncoded (b'%' ∷ upper_hex (b / 16) ∷ upper_hex (b % 16) ∷ encode s) = (
        refl,
        (
          rw (upper_hex-is_unreserved (b / 16) (omega (arith, h.0))) refl,
          (rw (upper_hex-is_unreserved (b % 16) (omega arith)) refl, encode-IsEncoded s h.1),
        ),
      ) in
        rw e parts)
]

-- An encoded text decodes to the bytes it was made of, and holds only unreserved characters and
-- percent signs. The input must be bytes.
pub encode_lem :
    (s : List ℕ) → All (λ b. b < 256) s → (decode (encode s) ≡ s) × IsEncoded (encode s)
encode_lem s h = (decode-encode s h, encode-IsEncoded s h)

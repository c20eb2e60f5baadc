-- ===== src/Sources/Base32/Exact.antt =====
-- The conversion keeps the number that the digits spell, and fails on no valid hash.
use peanut_butter.Prelude.{
  true, subst, foldl-append, >>=-eq-some, ℕ, zero, suc, ◌+◌, ◌-◌, ◌*◌, ◌/◌, ◌%◌, ◌^◌, ◌<◌, ◌≡◌,
  refl, some, List, [], ◌∷◌, if◌then◌else◌, ltb, ◌++◌, arith, length, length-append, foldl, All, ap,
  ◌∙◌, unwrap_or, All-append,
}
use peanut_butter.Text.{Text}
use peanut_butter.Sources.Hex.{is_lower_hex, LowerHex, IsInfoHash}
use peanut_butter.Sources.Base32.{
  base32_digit, from_digit, take_nibbles, base32_loop, base32_to_hex,
}

-- The value of a hexadecimal digit that `from_digit` writes.
unfoldable pub hex_digit : ℕ → ℕ
hex_digit c = if ltb c b'a' then c - b'0' else c - b'a' + 10

-- The number that digits spell.
abbrev pub hex_value : Text → ℕ
hex_value = foldl (λ n c. n * 16 + hex_digit c) 0

abbrev pub base32_value : ℕ → List ℕ → ℕ
base32_value n s = foldl (λ m c. m * 32 + unwrap_or (base32_digit c) 0) n s

hex_char : ℕ → ℕ
hex_char d = if ltb d 10 then b'0' + d else b'a' + (d - 10)

from_digit-hex_char : (d : ℕ) → d < 16 → from_digit d ≡ some (hex_char d)
unfolding from_digit hex_char
from_digit-hex_char d h = ground arith

hex_digit-hex_char : (d : ℕ) → d < 16 → hex_digit (hex_char d) ≡ d
unfolding hex_digit hex_char
hex_digit-hex_char d h = ground arith

hex_char-is_lower_hex : (d : ℕ) → d < 16 → is_lower_hex (hex_char d) ≡ true
unfolding is_lower_hex hex_char
hex_char-is_lower_hex d h = ground arith

hex_value-write :
    (out : Text) (d : ℕ) → d < 16 → hex_value (out ++ hex_char d ∷ []) ≡ hex_value out * 16 + d
hex_value-write out d h =
    foldl-append (λ n c. n * 16 + hex_digit c) 0 out (hex_char d)
    ∙ ap (λ (t : ℕ). hex_value out * 16 + t) (hex_digit-hex_char d h)

LowerHex-write : (out : Text) (d : ℕ) → d < 16 → LowerHex out → LowerHex (out ++ hex_char d ∷ [])
LowerHex-write out d h v = All-append _ out _ v (hex_char-is_lower_hex d h, tt)

-- The number spelt so far, the pending bits included, and the count of bits, before and after.
record Wrote (bits n : ℕ) (out : Text) (v bits' n' : ℕ) (out' : Text) : Type 0 where
  few : n' < 4
  number :
      hex_value out' * 2 ^ n' + bits' % 2 ^ n' ≡ (hex_value out * 2 ^ n + bits % 2 ^ n) * 32 + v
  count : 4 * length out' + n' ≡ 4 * length out + n + 5
  hex : LowerHex out → LowerHex out'

-- One byte adds five bits: one digit is written, or two where three bits were pending.
take_Wrote :
    (n bits : ℕ) (out : Text) (v : ℕ)
    → n < 4
    → v < 32
    → (n' : ℕ) × (out' : Text) × (take_nibbles (n + 5) (bits * 32 % 2 ^ 64 + v) (n + 5) out
        ≡ some (n', out'))
      × Wrote bits n out v (bits * 32 % 2 ^ 64 + v) n' out'
unfolding take_nibbles
take_Wrote zero bits out v h hv =
    let b = bits * 32 % 2 ^ 64 + v in
    let d = b / 2 % 16 in
    (
      1,
      out ++ hex_char d ∷ [],
      rw (from_digit-hex_char d (omega arith)),
      record {
        few = omega arith;
        number = omega (arith, hex_value-write out d (omega arith));
        count = omega (arith, length-append out (hex_char d ∷ []));
        hex = LowerHex-write out d (omega arith);
      },
    )
take_Wrote (suc zero) bits out v h hv =
    let b = bits * 32 % 2 ^ 64 + v in
    let d = b / 4 % 16 in
    (
      2,
      out ++ hex_char d ∷ [],
      rw (from_digit-hex_char d (omega arith)),
      record {
        few = omega arith;
        number = omega (arith, hex_value-write out d (omega arith));
        count = omega (arith, length-append out (hex_char d ∷ []));
        hex = LowerHex-write out d (omega arith);
      },
    )
take_Wrote (suc (suc zero)) bits out v h hv =
    let b = bits * 32 % 2 ^ 64 + v in
    let d = b / 8 % 16 in
    (
      3,
      out ++ hex_char d ∷ [],
      rw (from_digit-hex_char d (omega arith)),
      record {
        few = omega arith;
        number = omega (arith, hex_value-write out d (omega arith));
        count = omega (arith, length-append out (hex_char d ∷ []));
        hex = LowerHex-write out d (omega arith);
      },
    )
take_Wrote (suc (suc (suc zero))) bits out v h hv =
    let b = bits * 32 % 2 ^ 64 + v in
    let d = b / 16 % 16 in
    let e = b / 1 % 16 in
    let out1 = out ++ hex_char d ∷ [] in
    (
      0,
      out1 ++ hex_char e ∷ [],
      rw (from_digit-hex_char d (omega arith), from_digit-hex_char e (omega arith)),
      record {
        few = omega arith;
        number =
            omega
              (arith, hex_value-write out d (omega arith), hex_value-write out1 e (omega arith));
        count =
            omega
              (arith, length-append out (hex_char d ∷ []), length-append out1 (hex_char e ∷ []));
        hex = λ v. LowerHex-write out1 e (omega arith) (LowerHex-write out d (omega arith) v);
      },
    )
take_Wrote (suc (suc (suc (suc n)))) bits out v h hv = absurd (omega arith)

-- A base32 character of a lower-cased hash.
abbrev pub IsBase32 : ℕ → Type 0
IsBase32 c = (v : ℕ) × (base32_digit c ≡ some v)

base32_digit-lt : (c v : ℕ) → base32_digit c ≡ some v → v < 32
unfolding base32_digit
base32_digit-lt c v e = ground arith

base32_loop_lem :
    (s : List ℕ) (bits n : ℕ) (out : Text)
    → n < 4
    → All IsBase32 s
    → LowerHex out
    → (out' : Text) × (n' : ℕ) × (bits' : ℕ) × (base32_loop s bits n out ≡ some out')
      × (n' < 4)
      × (4 * length out' + n' ≡ 4 * length out + n + 5 * length s)
      × (hex_value out' * 2 ^ n' + bits' % 2 ^ n'
          ≡ base32_value (hex_value out * 2 ^ n + bits % 2 ^ n) s)
      × LowerHex out'
unfolding base32_loop
base32_loop_lem [] bits n out h hs v = (out, n, bits, refl, h, omega arith, refl, v)
base32_loop_lem (c ∷ s) bits n out h ((v, e), hs) hx =
    let (n1, out1, taken, w) = take_Wrote n bits out v h (base32_digit-lt c v e) in
    let (out', n', bits', done, few, count, number, hex) =
      base32_loop_lem s (bits * 32 % 2 ^ 64 + v) n1 out1 w.few hs (w.hex hx) in
    (
      out',
      n',
      bits',
      rw (e, taken) done,
      few,
      omega (arith, w.count),
      rw e (number ∙ ap (λ (t : ℕ). base32_value t s) w.number),
      hex,
    )

-- Converted to 40 hexadecimal digits that spell the same number.
abbrev pub Spells : List ℕ → Text → Type 0
Spells s h =
    (base32_to_hex s ≡ some h) × (length h ≡ 40) × LowerHex h × (hex_value h ≡ base32_value 0 s)

-- Every text of 32 base32 characters is converted, to 40 lower-case hexadecimal digits that spell
-- the same number.
pub base32_to_hex-Spells : (s : List ℕ) → length s ≡ 32 → All IsBase32 s → (h : Text) × Spells s h
unfolding base32_to_hex
base32_to_hex-Spells s e hs =
    let (h, n, bits, done, few, count, number, hex) =
      base32_loop_lem s 0 0 [] (omega arith) hs tt in
    let forty : length h ≡ 40 = omega arith in
    let whole : n ≡ 0 = omega arith in
    let spelt : hex_value h * 2 ^ 0 + bits % 2 ^ 0 ≡ base32_value 0 s =
      subst (λ (k : ℕ). hex_value h * 2 ^ k + bits % 2 ^ k ≡ base32_value 0 s) whole number in
    (h, (rw (done, forty), forty, hex, omega arith))

-- A conversion that succeeds has read base32 characters only.
base32_loop_valid :
    (s : List ℕ) (bits n : ℕ) (out h : Text) → base32_loop s bits n out ≡ some h → All IsBase32 s
unfolding base32_loop
base32_loop_valid [] bits n out h e = tt
base32_loop_valid (c ∷ s) bits n out h e =
    let (v, digit, e1) = >>=-eq-some (base32_digit c) _ e in
    let (t, taken, e2) =
      >>=-eq-some (take_nibbles (n + 5) (bits * 32 % 2 ^ 64 + v) (n + 5) out) _ e1 in
    ((v, digit), base32_loop_valid s _ _ _ h e2)

pub base32_to_hex_sound : (s : List ℕ) (h : Text) → base32_to_hex s ≡ some h → IsInfoHash h
unfolding base32_to_hex
base32_to_hex_sound s h e =
    let (out, ran, e1) = >>=-eq-some (base32_loop s 0 0 []) _ e in
    let valid = base32_loop_valid s 0 0 [] out ran in
    let (out', n, bits, done, few, count, number, hex) =
      base32_loop_lem s 0 0 [] (omega arith) valid tt in
    ground arith

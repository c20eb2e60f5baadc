-- ===== src/Sources/Base32.antt =====
-- backend/src/sources/mod.rs, `base32_to_hex`: the 32 base32 characters of an info hash to the 40
-- hexadecimal ones.
pub mod Exact
use peanut_butter.Prelude.{
  ℕ, zero, suc, ◌+◌, ◌-◌, ◌*◌, ◌/◌, ◌%◌, ◌^◌, Option, none, some, List, [], ◌∷◌, ◌++◌, ◌&&◌, ltb,
  leb, ◌==◌, if◌then◌else◌, ◌>>=◌, length, refl, ◌≡◌,
}
use peanut_butter.Text.{Text, codes}

-- The value of a base32 character.
unfoldable pub base32_digit : ℕ → Option ℕ
base32_digit c =
    if leb b'a' c && leb c b'z'
    then some (c - b'a')
    else if leb b'2' c && leb c b'7'
    then some (c - b'2' + 26)
    else none

-- `char::from_digit(d, 16)`.
unfoldable pub from_digit : ℕ → Option ℕ
from_digit d =
    if ltb d 10 then some (b'0' + d) else if ltb d 16 then some (b'a' + (d - 10)) else none

-- `while nbits >= 4`: each round takes four bits, so `nbits` rounds are enough.
unfoldable pub take_nibbles : ℕ → ℕ → ℕ → Text → Option (ℕ × Text)
unfolding from_digit
take_nibbles zero bits nbits out = some (nbits, out)
take_nibbles (suc fuel) bits nbits out =
    let next = (do
      d ← from_digit (bits / 2 ^ (nbits - 4) % 16)
      take_nibbles fuel bits (nbits - 4) (out ++ d ∷ [])) in
    if leb 4 nbits then next else some (nbits, out)

-- The loop over the bytes. `bits << 5` is computed in a `u64`; its low five bits are zero, so that
-- `| v` is `+ v`.
unfoldable pub base32_loop : List ℕ → ℕ → ℕ → Text → Option Text
unfolding base32_digit take_nibbles
base32_loop [] bits nbits out = some out
base32_loop (c ∷ s) bits nbits out = do
  v ← base32_digit c
  let bits' = bits * 32 % 2 ^ 64 + v
  (nbits', out') ← take_nibbles (nbits + 5) bits' (nbits + 5) out
  base32_loop s bits' nbits' out'

unfoldable pub base32_to_hex : List ℕ → Option Text
unfolding base32_loop
base32_to_hex s = do out ← base32_loop s 0 0 []; if length out == 40 then some out else none

known_pair :
    base32_to_hex (codes "4oymiquy7qobjgx36tejs35zeqt24qpe")
    ≡ some (codes "e3b0c44298fc1c149afbf4c8996fb92427ae41e4")
unfolding base32_to_hex
known_pair = refl

-- ===== src/Torrents/Bencode/Steps.antt =====
-- The branches of the parser, one lemma for each.
use peanut_butter.Prelude.{
  ℕ, zero, suc, ◌+◌, ◌≤◌, ◌≡◌, refl, ap, subst, ◌∙◌, some, true, false, ◌==◌, List, ◌∷◌, ◌++◌,
  get_elem?, drop, length, arith,
}
use peanut_butter.Text.{u64_max, is_ascii_digit}
use peanut_butter.Text.Decimal.{decimal-Digits, decimal-Starts, Digits}
use peanut_butter.Torrents.Bencode.{
  Value, Values, Entries, bytes, list, dict, no_values, one_value, no_entries, entry, parse,
  parse_values, parse_entries, parse_int, parse_bytes, as_key,
}
use peanut_butter.Torrents.Bencode.Places.{drop_head, parse_bytes_lem}
use peanut_butter.Torrents.Bencode.Tree.{Tree, number, text, items, table, encode, encode_text}

-- The first byte chooses the branch.
pub parse_number :
    (fuel : ℕ) (d : List ℕ) (i : ℕ)
    → get_elem? d i ≡ some b'i'
    → parse (suc fuel) d i ≡ parse_int d i
unfolding parse
parse_number fuel d i h = rw h refl

pub parse_text :
    (fuel : ℕ) (d : List ℕ) (i c : ℕ)
    → get_elem? d i ≡ some c
    → is_ascii_digit c ≡ true
    → parse (suc fuel) d i ≡ parse_bytes d i
unfolding parse is_ascii_digit
parse_text fuel d i c h digit = rw h (ground arith)

-- The bytes of a printed text, at its place.
pub parse-encode_text :
    (fuel : ℕ) (d : List ℕ) (i : ℕ) (s r : List ℕ)
    → length s ≤ u64_max
    → drop i d ≡ encode_text s ++ r
    → parse (suc fuel) d i ≡ some (bytes s, i + length (encode_text s))
unfolding encode_text
parse-encode_text fuel d i s r few h =
    let (c, t, e) = decimal-Starts (length s) in
    let digits : Digits (c ∷ t) = subst Digits e (decimal-Digits (length s)) in
    let at : drop i d ≡ c ∷ ((t ++ b':' ∷ s) ++ r) = h ∙ ap (λ n. (n ++ b':' ∷ s) ++ r) e in
    parse_text fuel d i c (drop_head d i c _ at) digits.0 ∙ parse_bytes_lem d i s r few h

pub parse_items :
    (fuel : ℕ) (d : List ℕ) (i j : ℕ) (vs : Values)
    → get_elem? d i ≡ some b'l'
    → parse_values fuel d (suc i) ≡ some (vs, j)
    → parse (suc fuel) d i ≡ some (list vs, suc j)
unfolding parse
parse_items fuel d i j vs h k = rw (h, k) refl

pub parse_table :
    (fuel : ℕ) (d : List ℕ) (i j : ℕ) (es : Entries)
    → get_elem? d i ≡ some b'd'
    → parse_entries fuel d (suc i) ≡ some (es, j)
    → parse (suc fuel) d i ≡ some (dict es i (suc j), suc j)
unfolding parse
parse_table fuel d i j es h k = rw (h, k) refl

pub parse_values_end :
    (fuel : ℕ) (d : List ℕ) (j : ℕ)
    → get_elem? d j ≡ some b'e'
    → parse_values (suc fuel) d j ≡ some (no_values, j)
unfolding parse
parse_values_end fuel d j h = rw h refl

pub parse_values_next :
    (fuel : ℕ) (d : List ℕ) (j n m c : ℕ) (v : Value) (vs : Values)
    → get_elem? d j ≡ some c
    → (c == b'e') ≡ false
    → parse fuel d j ≡ some (v, n)
    → parse_values fuel d n ≡ some (vs, m)
    → parse_values (suc fuel) d j ≡ some (one_value v vs, m)
unfolding parse
parse_values_next fuel d j n m c v vs h other k l = rw (h, other, k, l) refl

pub parse_entries_end :
    (fuel : ℕ) (d : List ℕ) (j : ℕ)
    → get_elem? d j ≡ some b'e'
    → parse_entries (suc fuel) d j ≡ some (no_entries, j)
unfolding parse
parse_entries_end fuel d j h = rw h refl

pub parse_entries_next :
    (fuel : ℕ) (d : List ℕ) (j n m o c : ℕ) (key : List ℕ) (v : Value) (es : Entries)
    → get_elem? d j ≡ some c
    → (c == b'e') ≡ false
    → parse fuel d j ≡ some (bytes key, n)
    → parse fuel d n ≡ some (v, m)
    → parse_entries fuel d m ≡ some (es, o)
    → parse_entries (suc fuel) d j ≡ some (entry key v es, o)
unfolding parse as_key
parse_entries_next fuel d j n m o c key v es h other k l q = rw (h, other, k, l, q) refl

-- A print starts with a byte that does not end a list.
abbrev Starts : List ℕ → Type 0
Starts s = (c : ℕ) × (t : List ℕ) × (s ≡ c ∷ t) × ((c == b'e') ≡ false)

pub encode_text-Starts : (s : List ℕ) → Starts (encode_text s)
unfolding encode_text is_ascii_digit
encode_text-Starts s =
    let (c, t, e) = decimal-Starts (length s) in
    let digits : Digits (c ∷ t) = subst Digits e (decimal-Digits (length s)) in
    (c, t ++ b':' ∷ s, ap (λ n. n ++ b':' ∷ s) e, ground (arith, digits.0))

pub encode-Starts : (t : Tree) → Starts (encode t)
unfolding encode
encode-Starts (number t) = (b'i', _, refl, refl)
encode-Starts (text s) = encode_text-Starts s
encode-Starts (items ts) = (b'l', _, refl, refl)
encode-Starts (table fs) = (b'd', _, refl, refl)

-- The first byte, read at the place of a print.
pub head-Starts :
    (d : List ℕ) (i : ℕ) (s r : List ℕ)
    → Starts s
    → drop i d ≡ s ++ r
    → (c : ℕ) × (get_elem? d i ≡ some c) × ((c == b'e') ≡ false)
head-Starts d i s r (c, t, e, other) h =
    (c, drop_head d i c (t ++ r) (h ∙ ap (λ n. n ++ r) e), other)

pub positive-cases : (n : ℕ) → 1 ≤ n → (m : ℕ) × (n ≡ suc m)
positive-cases zero h = elim h [ ]
positive-cases (suc m) h = (m, refl)

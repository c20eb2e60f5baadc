-- ===== src/Torrents/Bencode/Places.antt =====
-- Reading a list behind a place, for the laws of the parser.
use peanut_butter.Prelude.{
  ℕ, zero, suc, ◌+◌, ◌≤◌, ◌≡◌, refl, subst, ap, ◌∙◌, true, some, List, [], ◌∷◌, ◌++◌, append_assoc,
  get_elem?, drop, take, length, length-append, length-drop, leb, arith, ◌==◌,
}
use peanut_butter.Text.{Text, decimal, u64_max, is_ascii_digit}
use peanut_butter.Text.Decimal.{Free, Digits, decimal-Digits, parse_u64-decimal}
use peanut_butter.Torrents.Bencode.{parse_bytes, parse_int, position_of, int, bytes}
use peanut_butter.Torrents.Bencode.Tree.{encode_text}

module _ {ℓ} {A : Type ℓ} where
  pub drop_head :
      (d : List A) (i : ℕ) (c : A) (s : List A) → drop i d ≡ c ∷ s → get_elem? d i ≡ some c
  drop_head [] zero c s h = cc
  drop_head [] (suc i) c s h = cc
  drop_head (b ∷ d) zero c s h = cc
  drop_head (b ∷ d) (suc i) c s h = drop_head d i c s h

  pub drop_tail : (d : List A) (i : ℕ) (c : A) (s : List A) → drop i d ≡ c ∷ s → drop (suc i) d ≡ s
  drop_tail [] zero c s h = cc
  drop_tail [] (suc i) c s h = cc
  drop_tail (b ∷ d) zero c s h = cc
  drop_tail (b ∷ d) (suc i) c s h = drop_tail d i c s h

  pub drop_next :
      (d : List A) (i : ℕ) (s r : List A) → drop i d ≡ s ++ r → drop (i + length s) d ≡ r
  drop_next d i [] r h = subst (λ (j : ℕ). drop j d ≡ r) (omega arith) h
  drop_next d i (c ∷ s) r h =
      subst (λ (j : ℕ). drop j d ≡ r) (omega arith)
        (drop_next d (suc i) s r (drop_tail d i c (s ++ r) h))

  pub drop_bound :
      (d : List A) (i : ℕ) (s r : List A)
      → drop i d ≡ s ++ r
      → 1 ≤ length s
      → i + length s ≤ length d
  drop_bound d i s r h one =
      let e : length (drop i d) ≡ length (s ++ r) = ap length h in
      omega (arith, length-drop i d, length-append s r)

  pub drop-append : (s r : List A) → drop (length s) (s ++ r) ≡ r
  drop-append [] r = refl
  drop-append (c ∷ s) r = drop-append s r

  pub take-append : (s t : List A) → take (length s) (s ++ t) ≡ s
  take-append [] t = refl
  take-append (c ∷ s) t = ap (◌∷◌ c) (take-append s t)

position_of-append :
    (s t : List ℕ) (sep : ℕ)
    → Free (λ c. c == sep) s
    → position_of (s ++ sep ∷ t) sep ≡ some (length s)
unfolding position_of
position_of-append [] t sep h = ground arith
position_of-append (c ∷ s) t sep h = rw (h.0, position_of-append s t sep h.1) refl

Digits-Free_colon : (s : Text) → Digits s → Free (λ c. c == b':') s
unfolding is_ascii_digit
Digits-Free_colon [] h = tt
Digits-Free_colon (c ∷ s) h = (ground arith, Digits-Free_colon s h.1)

pub parse_int_lem :
    (d : List ℕ) (i : ℕ) (t r : List ℕ)
    → Free (λ c. c == b'e') t
    → drop i d ≡ b'i' ∷ (t ++ b'e' ∷ r)
    → parse_int d i ≡ some (int, i + length (b'i' ∷ (t ++ b'e' ∷ [])))
unfolding parse_int
parse_int_lem d i t r h e =
    let at : position_of (b'i' ∷ (t ++ b'e' ∷ r)) b'e' ≡ some (suc (length t)) =
      position_of-append (b'i' ∷ t) r b'e' (refl, h) in
    rw (e, at, length-append t (b'e' ∷ [])) (ap (λ (j : ℕ). some (int, j)) (omega arith))

pub parse_bytes_lem :
    (d : List ℕ) (i : ℕ) (s r : List ℕ)
    → length s ≤ u64_max
    → drop i d ≡ encode_text s ++ r
    → parse_bytes d i ≡ some (bytes s, i + length (encode_text s))
unfolding parse_bytes encode_text
parse_bytes_lem d i s r few h =
    let n = decimal (length s) in
    let e : drop i d ≡ n ++ b':' ∷ (s ++ r) = h ∙ append_assoc n (b':' ∷ s) r in
    let at : position_of (n ++ b':' ∷ (s ++ r)) b':' ≡ some (length n) =
      position_of-append n (s ++ r) b':' (Digits-Free_colon n (decimal-Digits (length s))) in
    let place : suc (i + length n) ≡ i + length n + 1 = omega arith in
    let after : drop (i + length n + 1) d ≡ s ++ r =
      subst (λ (j : ℕ). drop j d ≡ s ++ r) place
        (drop_tail d (i + length n) b':' (s ++ r) (drop_next d i n (b':' ∷ (s ++ r)) e)) in
    let whole : length (n ++ b':' ∷ s) ≡ length n + suc (length s) = length-append n (b':' ∷ s) in
    let inside : i + length n + 1 + length s ≤ length d =
      omega (arith, whole, drop_bound d i (n ++ b':' ∷ s) r h (omega (arith, whole))) in
    let test : leb (i + length n + 1 + length s) (length d) ≡ true = ground (arith, inside) in
    rw
      (
        e,
        at,
        take-append n (b':' ∷ (s ++ r)),
        parse_u64-decimal (length s) few,
        test,
        after,
        take-append s r,
        whole,
      )
      (ap (λ (j : ℕ). some (bytes s, j)) (omega arith))

-- ===== src/Rank/Score/Sums.antt =====
-- Ranges of integers, and sums that stay in an `i32`.
use peanut_butter.Prelude.{
  ℕ, ◌+◌, ◌≤◌, neg_part, ◌≡◌, arith, ℤ, pos, ◌≤ℤ◌, ◌+ℤ◌, neg, List, [], ◌∷◌, All, pos_part,
  int_laws,
}

-- Between -lo and hi.
abbrev pub Within : ℕ → ℕ → ℤ → Type 0
Within lo hi x = (neg lo ≤ℤ x) × (x ≤ℤ pos hi)

-- A total, and what it becomes with each summand.
abbrev pub partial_sums : ℤ → List ℤ → List ℤ
partial_sums total [] = total ∷ []
partial_sums total (x ∷ xs) = total ∷ partial_sums (total +ℤ x) xs

abbrev pub last : List ℤ → ℤ
last [] = pos 0
last (x ∷ []) = x
last (x ∷ y ∷ xs) = last (y ∷ xs)

abbrev pub IsI32 : ℤ → Type 0
IsI32 = Within 2147483648 2147483647

neg_parts : (n : ℕ) → (pos_part (neg n) ≡ 0) × (neg_part (neg n) ≡ n)
neg_parts n = ground arith

add-Within : (l h k m : ℕ) (x y : ℤ) → Within l h x → Within k m y → Within (l + k) (h + m) (x +ℤ y)
add-Within l h k m x y a b = (
  omega (int_laws, a.0, b.0, neg_parts l, neg_parts k, neg_parts (l + k)),
  omega (int_laws, a.1, b.1),
)

pub Within-IsI32 : (l h : ℕ) (x : ℤ) → l ≤ 2147483648 → h ≤ 2147483647 → Within l h x → IsI32 x
Within-IsI32 l h x low high a =
    (omega (int_laws, a.0, low, neg_parts l), omega (int_laws, a.1, high))

-- Sums of ranges whose ends stay in an `i32`.
abbrev pub AreSmall : ℕ → ℕ → List (ℕ × ℕ) → Type 0
AreSmall l h [] = (l ≤ 2147483648) × (h ≤ 2147483647)
AreSmall l h ((k, m) ∷ ranges) =
    (l ≤ 2147483648) × (h ≤ 2147483647) × AreSmall (l + k) (h + m) ranges

abbrev pub AreWithin : List (ℕ × ℕ) → List ℤ → Type 0
AreWithin [] [] = Unit
AreWithin [] (x ∷ xs) = ⊥
AreWithin (r ∷ ranges) [] = ⊥
AreWithin ((k, m) ∷ ranges) (x ∷ xs) = Within k m x × AreWithin ranges xs

pub partial_sums-IsI32 :
    (l h : ℕ) (ranges : List (ℕ × ℕ)) (total : ℤ) (xs : List ℤ)
    → AreSmall l h ranges
    → Within l h total
    → AreWithin ranges xs
    → All IsI32 (partial_sums total xs)
partial_sums-IsI32 l h [] total [] small a b = (Within-IsI32 l h total small.0 small.1 a, tt)
partial_sums-IsI32 l h [] total (x ∷ xs) small a b = absurd b
partial_sums-IsI32 l h (r ∷ ranges) total [] small a b = absurd b
partial_sums-IsI32 l h ((k, m) ∷ ranges) total (x ∷ xs) (low, high, small) a (b, c) = (
  Within-IsI32 l h total low high a,
  partial_sums-IsI32 (l + k) (h + m) ranges (total +ℤ x) xs small (add-Within l h k m total x a b)
      c,
)

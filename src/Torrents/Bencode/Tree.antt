-- ===== src/Torrents/Bencode/Tree.antt =====
-- Bencoded data as the format defines it, and how it is printed: the reference for `parse`.
use peanut_butter.Prelude.{
  ℕ, suc, ◌+◌, ◌*◌, ◌≤◌, List, [], ◌∷◌, ◌++◌, length, length-append, arith, ◌==◌,
}
use peanut_butter.Text.{Text, decimal, u64_max}
use peanut_butter.Text.Decimal.{Free, decimal-Starts}
use peanut_butter.Torrents.Bencode.{
  Value, Values, Entries, int, bytes, list, dict, no_values, one_value, no_entries, entry,
}

mutual
  pub data Tree : Type 0 where
    -- A number by what stands between `i` and `e`.
    number : Text → Tree
    text : List ℕ → Tree
    items : Trees → Tree
    table : Fields → Tree

  pub data Trees : Type 0 where
    no_trees : Trees
    tree : Tree → Trees → Trees

  pub data Fields : Type 0 where
    no_fields : Fields
    field : List ℕ → Tree → Fields → Fields

unfoldable pub encode_text : List ℕ → List ℕ
encode_text s = decimal (length s) ++ b':' ∷ s

unfoldable mutual
  unfolding encode_text

  pub encode : Tree → List ℕ
  encode (number t) = b'i' ∷ (t ++ b'e' ∷ [])
  encode (text s) = encode_text s
  encode (items ts) = b'l' ∷ (encode_trees ts ++ b'e' ∷ [])
  encode (table fs) = b'd' ∷ (encode_fields fs ++ b'e' ∷ [])

  pub encode_trees : Trees → List ℕ
  encode_trees no_trees = []
  encode_trees (tree t ts) = encode t ++ encode_trees ts

  pub encode_fields : Fields → List ℕ
  encode_fields no_fields = []
  encode_fields (field k t fs) = encode_text k ++ (encode t ++ encode_fields fs)

-- What can be printed: no `e` inside a number, and lengths that fit into 64 bits.
abbrev mutual
  pub IsPrintable : Tree → Type 0
  IsPrintable (number t) = Free (λ c. c == b'e') t
  IsPrintable (text s) = length s ≤ u64_max
  IsPrintable (items ts) = ArePrintable ts
  IsPrintable (table fs) = HavePrintable fs

  pub ArePrintable : Trees → Type 0
  ArePrintable no_trees = Unit
  ArePrintable (tree t ts) = IsPrintable t × ArePrintable ts

  pub HavePrintable : Fields → Type 0
  HavePrintable no_fields = Unit
  HavePrintable (field k t fs) = (length k ≤ u64_max) × IsPrintable t × HavePrintable fs

-- The value of a tree that is printed at a place: each dictionary has the span of its own print.
unfoldable mutual
  pub value_of : Tree → ℕ → Value
  value_of (number t) i = int
  value_of (text s) i = bytes s
  value_of (items ts) i = list (values_of ts (suc i))
  value_of (table fs) i = dict (entries_of fs (suc i)) i (i + length (encode (table fs)))

  pub values_of : Trees → ℕ → Values
  values_of no_trees i = no_values
  values_of (tree t ts) i = one_value (value_of t i) (values_of ts (i + length (encode t)))

  pub entries_of : Fields → ℕ → Entries
  entries_of no_fields i = no_entries
  entries_of (field k t fs) i =
      let j = i + length (encode_text k) in
      entry k (value_of t j) (entries_of fs (j + length (encode t)))

-- The fuel that the parser takes.
unfoldable mutual
  pub cost : Tree → ℕ
  cost (number t) = 1
  cost (text s) = 1
  cost (items ts) = suc (cost_trees ts)
  cost (table fs) = suc (cost_fields fs)

  pub cost_trees : Trees → ℕ
  cost_trees no_trees = 1
  cost_trees (tree t ts) = suc (cost t + cost_trees ts)

  pub cost_fields : Fields → ℕ
  cost_fields no_fields = 1
  cost_fields (field k t fs) = suc (suc (cost t + cost_fields fs))

pub length-encode_text : (s : List ℕ) → 2 ≤ length (encode_text s)
unfolding encode_text
length-encode_text s =
    let (c, t, e) = decimal-Starts (length s) in rw e (omega (arith, length-append t (b':' ∷ s)))

mutual
  unfolding encode cost

  cost-le : (t : Tree) → suc (cost t) ≤ 2 * length (encode t)
  cost-le (number t) = omega (arith, length-append t (b'e' ∷ []))
  cost-le (text s) = omega (arith, length-encode_text s)
  cost-le (items ts) = omega (arith, cost_trees-le ts, length-append (encode_trees ts) (b'e' ∷ []))
  cost-le (table fs) =
      omega (arith, cost_fields-le fs, length-append (encode_fields fs) (b'e' ∷ []))

  cost_trees-le : (ts : Trees) → cost_trees ts ≤ 2 * length (encode_trees ts) + 1
  cost_trees-le no_trees = omega arith
  cost_trees-le (tree t ts) =
      omega (arith, cost-le t, cost_trees-le ts, length-append (encode t) (encode_trees ts))

  cost_fields-le : (fs : Fields) → cost_fields fs ≤ 2 * length (encode_fields fs) + 1
  cost_fields-le no_fields = omega arith
  cost_fields-le (field k t fs) = omega (
    arith,
    length-encode_text k,
    cost-le t,
    cost_fields-le fs,
    length-append (encode t) (encode_fields fs),
    length-append (encode_text k) (encode t ++ encode_fields fs),
  )

-- Twice the length of the print is fuel enough.
pub cost_le_length : (t : Tree) → cost t ≤ 2 * length (encode t)
cost_le_length t = omega (arith, cost-le t)

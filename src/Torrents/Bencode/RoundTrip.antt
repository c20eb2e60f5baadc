-- ===== src/Torrents/Bencode/RoundTrip.antt =====
-- Parsing what is printed.
use peanut_butter.Prelude.{
  ℕ, suc, ◌+◌, ◌*◌, ◌≤◌, ◌≡◌, ap, ◌∙◌, some, List, [], ◌∷◌, ◌++◌, append_assoc, drop, length,
  length-append, arith,
}
use peanut_butter.Torrents.Bencode.{bytes, list, dict, parse, parse_values, parse_entries}
use peanut_butter.Torrents.Bencode.Places.{
  drop_head, drop_tail, drop_next, drop-append, parse_int_lem,
}
use peanut_butter.Torrents.Bencode.Tree.{
  Tree, Trees, Fields, number, text, items, table, no_trees, tree, no_fields, field, encode,
  encode_trees, encode_fields, encode_text, IsPrintable, ArePrintable, HavePrintable, value_of,
  values_of, entries_of, cost, cost_trees, cost_fields, cost_le_length,
}
use peanut_butter.Torrents.Bencode.Steps.{
  parse_number, parse-encode_text, parse_items, parse_table, parse_values_end, parse_values_next,
  parse_entries_end, parse_entries_next, encode_text-Starts, encode-Starts, head-Starts,
  positive-cases,
}

mutual
  unfolding encode value_of cost

  parse-encode_at :
      (t : Tree) (fuel : ℕ) (d : List ℕ) (i : ℕ) (r : List ℕ)
      → IsPrintable t
      → cost t ≤ fuel
      → drop i d ≡ encode t ++ r
      → parse fuel d i ≡ some (value_of t i, i + length (encode t))
  parse-encode_at (number t) fuel d i r v h e =
      let (f, is) = positive-cases fuel h in
      let whole : drop i d ≡ b'i' ∷ (t ++ b'e' ∷ r) =
        e ∙ ap (λ (l : List ℕ). b'i' ∷ l) (append_assoc t (b'e' ∷ []) r) in
      rw is (parse_number f d i (drop_head d i b'i' _ whole) ∙ parse_int_lem d i t r v whole)
  parse-encode_at (text s) fuel d i r v h e =
      let (f, is) = positive-cases fuel h in rw is (parse-encode_text f d i s r v e)
  parse-encode_at (items ts) fuel d i r v h e =
      let (f, is) = positive-cases fuel (omega arith) in
      let whole : drop i d ≡ b'l' ∷ (encode_trees ts ++ b'e' ∷ r) =
        e ∙ ap (λ (l : List ℕ). b'l' ∷ l) (append_assoc (encode_trees ts) (b'e' ∷ []) r) in
      let inner =
        parse-encode_trees ts f d (suc i) r v (omega arith) (drop_tail d i b'l' _ whole) in
      let place : suc (suc i + length (encode_trees ts))
          ≡ i + suc (length (encode_trees ts ++ b'e' ∷ [])) =
        omega (arith, length-append (encode_trees ts) (b'e' ∷ [])) in
      rw is (
        parse_items f d i _ _ (drop_head d i b'l' _ whole) inner
        ∙ ap (λ (j : ℕ). some (list (values_of ts (suc i)), j)) place)
  parse-encode_at (table fs) fuel d i r v h e =
      let (f, is) = positive-cases fuel (omega arith) in
      let whole : drop i d ≡ b'd' ∷ (encode_fields fs ++ b'e' ∷ r) =
        e ∙ ap (λ (l : List ℕ). b'd' ∷ l) (append_assoc (encode_fields fs) (b'e' ∷ []) r) in
      let inner =
        parse-encode_fields fs f d (suc i) r v (omega arith) (drop_tail d i b'd' _ whole) in
      let place : suc (suc i + length (encode_fields fs))
          ≡ i + suc (length (encode_fields fs ++ b'e' ∷ [])) =
        omega (arith, length-append (encode_fields fs) (b'e' ∷ [])) in
      rw is (
        parse_table f d i _ _ (drop_head d i b'd' _ whole) inner
        ∙ ap (λ (j : ℕ). some (dict (entries_of fs (suc i)) i j, j)) place)

  parse-encode_trees :
      (ts : Trees) (fuel : ℕ) (d : List ℕ) (i : ℕ) (r : List ℕ)
      → ArePrintable ts
      → cost_trees ts ≤ fuel
      → drop i d ≡ encode_trees ts ++ b'e' ∷ r
      → parse_values fuel d i ≡ some (values_of ts i, i + length (encode_trees ts))
  parse-encode_trees no_trees fuel d i r v h e =
      let (f, is) = positive-cases fuel (omega arith) in
      let place : i + 0 ≡ i = omega arith in
      rw (is, place) (parse_values_end f d i (drop_head d i b'e' r e))
  parse-encode_trees (tree t ts) fuel d i r v h e =
      let (f, is) = positive-cases fuel (omega arith) in
      let whole : drop i d ≡ encode t ++ (encode_trees ts ++ b'e' ∷ r) =
        e ∙ append_assoc (encode t) (encode_trees ts) (b'e' ∷ r) in
      let (c, at, other) = head-Starts d i (encode t) _ (encode-Starts t) whole in
      let place : i + length (encode t) + length (encode_trees ts)
          ≡ i + length (encode t ++ encode_trees ts) =
        omega (arith, length-append (encode t) (encode_trees ts)) in
      let one = parse-encode_at t f d i _ v.0 (omega arith) whole in
      let rest =
        parse-encode_trees ts f d (i + length (encode t)) r v.1 (omega arith)
          (drop_next d i (encode t) _ whole) in
      rw is (
        parse_values_next f d i _ _ c _ _ at other one rest
        ∙ ap (λ (j : ℕ). some (values_of (tree t ts) i, j)) place)

  parse-encode_fields :
      (fs : Fields) (fuel : ℕ) (d : List ℕ) (i : ℕ) (r : List ℕ)
      → HavePrintable fs
      → cost_fields fs ≤ fuel
      → drop i d ≡ encode_fields fs ++ b'e' ∷ r
      → parse_entries fuel d i ≡ some (entries_of fs i, i + length (encode_fields fs))
  parse-encode_fields no_fields fuel d i r v h e =
      let (f, is) = positive-cases fuel (omega arith) in
      let place : i + 0 ≡ i = omega arith in
      rw (is, place) (parse_entries_end f d i (drop_head d i b'e' r e))
  parse-encode_fields (field k t fs) fuel d i r v h e =
      let (f, is) = positive-cases fuel (omega arith) in
      let (f', is') = positive-cases f (omega arith) in
      let whole : drop i d ≡ encode_text k ++ (encode t ++ (encode_fields fs ++ b'e' ∷ r)) =
        e
        ∙ append_assoc (encode_text k) (encode t ++ encode_fields fs) (b'e' ∷ r)
        ∙ ap (λ (l : List ℕ). encode_text k ++ l)
            (append_assoc (encode t) (encode_fields fs) (b'e' ∷ r)) in
      let (c, at, other) = head-Starts d i (encode_text k) _ (encode_text-Starts k) whole in
      let key : parse f d i ≡ some (bytes k, i + length (encode_text k)) =
        rw is' (parse-encode_text f' d i k _ v.0 whole) in
      let behind = drop_next d i (encode_text k) _ whole in
      let one = parse-encode_at t f d (i + length (encode_text k)) _ v.1 (omega arith) behind in
      let rest =
        parse-encode_fields fs f d (i + length (encode_text k) + length (encode t)) r v.2
          (omega arith) (drop_next d (i + length (encode_text k)) (encode t) _ behind) in
      let place : i + length (encode_text k) + length (encode t) + length (encode_fields fs)
          ≡ i + length (encode_text k ++ (encode t ++ encode_fields fs)) =
        omega (
          arith,
          length-append (encode t) (encode_fields fs),
          length-append (encode_text k) (encode t ++ encode_fields fs),
        ) in
      rw is (
        parse_entries_next f d i _ _ _ c k _ _ at other key one rest
        ∙ ap (λ (j : ℕ). some (entries_of (field k t fs) i, j)) place)

-- What is printed is parsed, wherever it stands in the input and whatever follows it: to the value
-- of the tree at that place, in which each dictionary has the exact span of its own print, and to
-- the place behind it. Fuel for twice the length of the input is enough. Numbers must not hold an
-- `e`, and lengths must fit into 64 bits.
pub parse-encode :
    (t : Tree) (front r : List ℕ)
    → IsPrintable t
    → parse (2 * length (front ++ (encode t ++ r))) (front ++ (encode t ++ r)) (length front)
      ≡ some (value_of t (length front), length front + length (encode t))
parse-encode t front r v =
    let enough : cost t ≤ 2 * length (front ++ (encode t ++ r)) =
      omega (
        arith,
        cost_le_length t,
        length-append front (encode t ++ r),
        length-append (encode t) r,
      ) in
    parse-encode_at t _ _ (length front) r v enough (drop-append front (encode t ++ r))

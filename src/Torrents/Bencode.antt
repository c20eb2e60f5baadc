-- ===== src/Torrents/Bencode.antt =====
-- backend/src/torrent_links.rs, `parse`: just enough bencode to find the span of a dictionary.
-- A byte past the end is `none`. So is a length that reaches past the input, whether or not its
-- sum with the start fits into a `usize`. A byte that is no ASCII digit fails in `parse` of a
-- number, whether or not it is valid UTF-8. The recursion is on fuel.
pub mod Places
pub mod Tree
pub mod Steps
pub mod RoundTrip
use peanut_butter.Prelude.{
  ℕ, zero, suc, ◌+◌, ◌≡◌, refl, Option, none, some, List, [], ◌∷◌, ◌>>=◌, get_elem?, drop, take,
  length, if◌then◌else◌, ◌==◌, leb,
}
use peanut_butter.Text.{codes, parse_u64, is_ascii_digit}

mutual
  pub data Value : Type 0 where
    int : Value
    bytes : List ℕ → Value
    list : Values → Value
    -- With the start and the end of the dictionary in the input.
    dict : Entries → ℕ → ℕ → Value

  pub data Values : Type 0 where
    no_values : Values
    one_value : Value → Values → Values

  pub data Entries : Type 0 where
    no_entries : Entries
    entry : List ℕ → Value → Entries → Entries

-- `d[i..].iter().position(|&c| c == sep)`.
unfoldable pub position_of : List ℕ → ℕ → Option ℕ
position_of [] sep = none
position_of (c ∷ d) sep =
    let rest = position_of d sep in
    if c == sep then some 0 else elim rest [ none ↦ none | some n ↦ some (suc n) ]

unfoldable pub as_key : Value → Option (List ℕ)
as_key (bytes key) = some key
as_key int = none
as_key (list vs) = none
as_key (dict es start end) = none

unfoldable pub parse_int : List ℕ → ℕ → Option (Value × ℕ)
unfolding position_of
parse_int d i = do n ← position_of (drop i d) b'e'; some (int, i + n + 1)

unfoldable pub parse_bytes : List ℕ → ℕ → Option (Value × ℕ)
unfolding position_of parse_u64
parse_bytes d i = do
  n ← position_of (drop i d) b':'
  len ← parse_u64 (take n (drop i d))
  let start = i + n + 1
  let end = start + len
  if leb end (length d) then some (bytes (take len (drop start d)), end) else none

unfoldable mutual
  unfolding parse_int parse_bytes as_key is_ascii_digit

  pub parse : ℕ → List ℕ → ℕ → Option (Value × ℕ)
  parse zero d i = none
  parse (suc fuel) d i =
      let as_list = (do (vs, j) ← parse_values fuel d (suc i); some (list vs, suc j)) in
      let as_dict = (do (es, j) ← parse_entries fuel d (suc i); some (dict es i (suc j), suc j)) in
      get_elem? d i >>= λ c.
      if c == b'i'
      then parse_int d i
      else if c == b'l'
      then as_list
      else if c == b'd'
      then as_dict
      else if is_ascii_digit c
      then parse_bytes d i
      else none

  -- The loop over the items of a list, up to the place of its `e`.
  pub parse_values : ℕ → List ℕ → ℕ → Option (Values × ℕ)
  parse_values zero d j = none
  parse_values (suc fuel) d j =
      let next = (do
        (v, n) ← parse fuel d j
        (vs, m) ← parse_values fuel d n
        some (one_value v vs, m)) in
      get_elem? d j >>= λ c. if c == b'e' then some (no_values, j) else next

  -- The loop over the entries of a dictionary.
  pub parse_entries : ℕ → List ℕ → ℕ → Option (Entries × ℕ)
  parse_entries zero d j = none
  parse_entries (suc fuel) d j =
      let next = (do
        (k, n) ← parse fuel d j
        key ← as_key k
        (v, m) ← parse fuel d n
        (es, o) ← parse_entries fuel d m
        some (entry key v es, o)) in
      get_elem? d j >>= λ c. if c == b'e' then some (no_entries, j) else next

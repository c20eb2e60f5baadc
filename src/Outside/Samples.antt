-- ===== src/Outside/Samples.antt =====
-- Small stand-ins for what is a parameter, to run the definitions with.
use peanut_butter.Prelude.{
  ℕ, ◌+◌, ◌*◌, ◌/◌, ◌^◌, ◌==◌, Option, some, none, [], ◌∷◌, pos, ltb, min, if◌then◌else◌,
}
use peanut_butter.Text.{Text, text_eq, codes, contains, is_ascii_alphanumeric, ascii_lower}
use peanut_butter.Outside.Regexes.{Regexes}
use peanut_butter.Outside.Floats.{Floats}
use peanut_butter.Outside.Unicode.{Unicode}
use peanut_butter.Outside.Caches.{Cache, map_option}

-- A pattern compiles unless it looks ahead, and then matches a text that contains it.
abbrev pub plain : Regexes
plain = record {
  compile = λ pattern.
      if contains pattern (codes "(?!") then none else some (λ text. contains text pattern);
  captures = λ pattern. none;
  replace_all = λ pattern. none;
  replace = λ pattern. none;
}

-- Whole numbers in place of floating point ones, with a logarithm that is cut off at 16.
unfoldable pub log2_table : ℕ → ℕ
log2_table n =
    if ltb n 2 then 0 else if ltb n 4 then 1 else if ltb n 8 then 2 else if ltb n 16 then 3 else 4

abbrev pub whole : Floats
whole = record {
  F = ℕ;
  lit = λ m d. m / 10 ^ d;
  of_ℕ = λ n. n;
  add = λ m n. m + n;
  mul = λ m n. m * n;
  div = λ m n. m / n;
  powi = λ m n. m ^ n;
  log2 = log2_table;
  min = min;
  lt = ltb;
  to_i32 = pos;
}

-- ASCII alone.
abbrev pub ascii : Unicode
ascii = record { is_alphanumeric = is_ascii_alphanumeric; to_lowercase = λ c. ascii_lower c ∷ [] }

-- Caches that keep everything.
abbrev pub numbers : Cache ℕ ℕ
numbers = record {
  C = ℕ → Option ℕ;
  get = λ s k. s k;
  insert = λ s k v j. if j == k then some v else s j;
  modify = λ s k f j. if j == k then map_option f (s j) else s j;
  invalidate_all = λ s j. none;
}

abbrev pub texts : (V : Type 0) → Cache Text V
texts V = record {
  C = Text → Option V;
  get = λ s k. s k;
  insert = λ s k v j. if text_eq j k then some v else s j;
  modify = λ s k f j. if text_eq j k then map_option f (s j) else s j;
  invalidate_all = λ s j. none;
}

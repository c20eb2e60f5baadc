-- ===== src/Sources/Types.antt =====
-- backend/src/graphql/types.rs: one playable result. An `i32` is an integer, a `u64` a number.
use peanut_butter.Prelude.{ℕ, Bool, List, ℤ}
use peanut_butter.Text.{Text, codes, text_eq}

pub record StreamHeader : Type 0 where
  pub name : Text
  pub value : Text

pub record StreamSource : Type 0 where
  pub id : Text
  pub title : Text
  pub magnet : Text
  pub seeders : ℤ
  pub peers : ℤ
  pub rating : ℤ
  pub health : Text
  pub size : Text
  pub tracker : Text
  pub indexer : Text
  pub language : Text
  pub kind : Text
  pub url : Text
  pub headers : List StreamHeader
  pub score : ℤ
  pub providers : List Text
  pub size_bytes : ℕ

unfoldable pub is_http : StreamSource → Bool
is_http s = text_eq s.kind (codes "http")

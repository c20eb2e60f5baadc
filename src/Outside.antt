-- ===== src/Outside.antt =====
-- What the program takes from outside its own code, as parameters: regular expressions (the
-- `regex` crate), floating point numbers, the tables of Unicode, and caches (the `moka` crate).
pub mod Regexes
pub mod Floats
pub mod Unicode
pub mod Samples
pub mod Caches
pub mod Graphql

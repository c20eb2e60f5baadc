-- ===== src/Outside/Graphql.antt =====
-- What the parser of the async_graphql crate returns, as far as cache.rs reads it: the operations of
-- a document, in the order in which they are visited, with their top-level selections.
use peanut_butter.Prelude.{List}
use peanut_butter.Text.{Text}

pub data OperationType : Type 0 where
  query : OperationType
  mutation : OperationType
  subscription : OperationType

pub data Selection : Type 0 where
  field : Text → Selection
  fragment_spread : Selection
  inline_fragment : Selection

pub record Operation : Type 0 where
  pub ty : OperationType
  pub items : List Selection

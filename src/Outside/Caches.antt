-- ===== src/Outside/Caches.antt =====
-- The `moka` crate: a map from which entries leave when their time is over or it is full. Its state
-- is of a type of its own, and what leaves it is not visible in its operations.
use peanut_butter.Prelude.{◌≡◌, Option, none, some}

pub record Cache (K V : Type 0) : Type 1 where
  pub C : Type 0
  pub get : C → K → Option V
  pub insert : C → K → V → C
  -- A write to the entry through the reference that `get` gives.
  pub modify : C → K → (V → V) → C
  pub invalidate_all : C → C

-- `Option::map`.
abbrev pub map_option {ℓ κ} : {A : Type ℓ} {B : Type κ} → (A → B) → Option A → Option B
map_option f none = none
map_option f (some a) = some (f a)

-- What is read directly behind a write, before the entry can leave.
pub record CacheLaws (K V : Type 0) (c : Cache K V) : Type 0 where
  pub get_insert : (s : c.C) (k : K) (v : V) → c.get (c.insert s k v) k ≡ some v
  pub get_invalidate_all : (s : c.C) (k : K) → c.get (c.invalidate_all s) k ≡ none
  pub get_modify :
      (s : c.C) (k : K) (f : V → V) → c.get (c.modify s k f) k ≡ map_option f (c.get s k)

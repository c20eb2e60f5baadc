-- ===== src/Auth/Limits.antt =====
-- backend/src/ratelimit.rs: counters of failures, one for each address and kind of check.
pub mod Laws
use peanut_butter.Prelude.{
  ℕ, zero, suc, ◌+◌, ◌%◌, ◌^◌, ◌≤◌, ◌<◌, ◌≡◌, refl, sym, ap, ◌∙◌, Bool, true, false, Option, none,
  some, leb, unwrap_or, arith, Option-cases, inl, inr,
}
use peanut_butter.Outside.Caches.{Cache, CacheLaws, map_option}

pub data Bucket : Type 0 where
  auth : Bucket
  credential : Bucket

unfoldable pub limit : Bucket → ℕ
limit Bucket.auth = 30
limit Bucket.credential = 10

module _ (c : Cache ℕ ℕ) where
  -- The counters of both buckets.
  pub record Counters : Type 0 where
    pub auth : c.C
    pub credential : c.C

  unfoldable pub counters : Counters → Bucket → c.C
  counters s Bucket.auth = s.auth
  counters s Bucket.credential = s.credential

  unfoldable pub set_counters : Counters → Bucket → c.C → Counters
  set_counters s Bucket.auth t = record s { auth = t }
  set_counters s Bucket.credential t = record s { credential = t }

  -- Whether a counter, if there is one, has reached the limit.
  unfoldable pub at_limit : Bucket → Option ℕ → Bool
  unfolding limit
  at_limit bucket none = false
  at_limit bucket (some n) = leb (limit bucket) n

  unfoldable pub is_blocked : Counters → Bucket → ℕ → Bool
  unfolding counters at_limit
  is_blocked s bucket ip = at_limit bucket (c.get (counters s bucket) ip)

  -- `get_with` of a counter that starts at 0.
  unfoldable pub with_counter : c.C → ℕ → c.C
  with_counter t ip = elim (c.get t ip) [ some n ↦ t | none ↦ c.insert t ip 0 ]

  -- `fetch_add(1)` of an `AtomicU32`.
  unfoldable pub record_failure : Counters → Bucket → ℕ → Counters
  unfolding counters set_counters with_counter
  record_failure s bucket ip =
      set_counters s bucket
        (c.modify (with_counter (counters s bucket) ip) ip (λ n. (n + 1) % 2 ^ 32))

-- ===== src/Auth/Limits/Laws.antt =====
-- What a counter reads after a failure.
use peanut_butter.Prelude.{
  ℕ, ◌+◌, ◌^◌, ◌%◌, ◌<◌, ◌≡◌, refl, ap, ◌∙◌, some, unwrap_or, arith, Option-cases, inl, inr,
}
use peanut_butter.Outside.Caches.{Cache, CacheLaws, map_option}
use peanut_butter.Auth.Limits.{
  Bucket, Counters, counters, set_counters, with_counter, record_failure,
}

module _ (c : Cache ℕ ℕ) (laws : CacheLaws ℕ ℕ c) where
  get-with_counter :
      (t : c.C) (ip : ℕ) → c.get (with_counter c t ip) ip ≡ some (unwrap_or (c.get t ip) 0)
  unfolding with_counter
  get-with_counter t ip = elim (Option-cases (c.get t ip)) [
    | inl e ↦ rw (e, with_counter) (laws.get_insert t ip 0)
    | inr (n, e) ↦ rw (with_counter, e) e
  ]

  counters-set_counters :
      (s : Counters c) (b : Bucket) (t : c.C) → counters c (set_counters c s b t) b ≡ t
  unfolding counters set_counters
  counters-set_counters s Bucket.auth t = refl
  counters-set_counters s Bucket.credential t = refl

  -- One more, as long as it fits into 32 bits.
  pub get-record_failure :
      (s : Counters c) (b : Bucket) (ip n : ℕ)
      → unwrap_or (c.get (counters c s b) ip) 0 ≡ n
      → n + 1 < 2 ^ 32
      → c.get (counters c (record_failure c s b ip) b) ip ≡ some (n + 1)
  unfolding record_failure
  get-record_failure s b ip n e h =
      let t = with_counter c (counters c s b) ip in
      let step : c.get (c.modify t ip (λ n. (n + 1) % 2 ^ 32)) ip
          ≡ map_option (λ n. (n + 1) % 2 ^ 32) (c.get t ip) =
        laws.get_modify t ip (λ n. (n + 1) % 2 ^ 32) in
      let old : c.get t ip ≡ some n = get-with_counter (counters c s b) ip ∙ ap some e in
      let small : (n + 1) % 2 ^ 32 ≡ n + 1 = omega (arith, h) in
      ap (λ u. c.get u ip) (counters-set_counters s b _)
      ∙ step
      ∙ ap (λ o. map_option (λ n. (n + 1) % 2 ^ 32) o) old
      ∙ ap some small

-- ===== src/Auth/Gate/Guessing.antt =====
-- How often one address may guess a key.
use peanut_butter.Prelude.{
  ℕ, ◌≤◌, zero, suc, ◌+◌, ◌≡◌, refl, sym, ap, ap₂, ◌∙◌, Bool, true, false, Option, none, some, List,
  [], ◌∷◌, ◌++◌, ◌&&◌, unwrap_or, take, drop, map, All, arith, Option-cases, inl, inr,
}
use peanut_butter.Text.{Text, codes, text_eq, trim}
use peanut_butter.Errors.{AppError}
use peanut_butter.Outside.Caches.{Cache, CacheLaws}
use peanut_butter.Auth.Limits.{Bucket, is_blocked, at_limit, counters, record_failure}
use peanut_butter.Auth.Limits.Laws.{get-record_failure}
use peanut_butter.Auth.Requests.{Request, is_console_feed, is_get}
use peanut_butter.Auth.Gate.{
  AuthSession, Database, Result, Verdict, State, is_public, provided_key, hash_device_key,
  find_device, admit, resolve_token, judge, check_key, gate,
}

-- The request needs the key of a device.
abbrev pub NeedsKey : Request → Type 0
NeedsKey req =
    (is_public req ≡ false)
    × (is_console_feed req.path ≡ false)
    × ((is_get req.method && text_eq req.path (codes "/graphql")) ≡ false)

abbrev pub unknown_key : Verdict
unknown_key = Verdict.refuse (AppError.unauthorized (codes "invalid API token"))

abbrev pub too_many : Verdict
too_many = Verdict.refuse (AppError.too_many_requests (codes "auth"))

module _ (limits : Cache ℕ ℕ) (keys : Cache Text AuthSession) (consoles : Cache Text Bool)
    (db : Database) (digest : Text → Text) where
  -- Requests one after another.
  unfoldable pub serve : State limits keys consoles db digest → List Request → List Verdict
  unfolding gate
  serve s [] = []
  serve s (req ∷ rest) =
      let (s', verdict) = gate limits keys consoles db digest s req in verdict ∷ serve s' rest

  -- A request from this address with a key that neither the cache nor the database knows.
  pub record IsGuess (sessions : keys.C) (rows : db.Rows) (ip : ℕ) (req : Request) : Type 0 where
    pub from : req.ip ≡ ip
    pub needs_key : NeedsKey req
    pub key : Text
    pub brings : provided_key req ≡ some key
    pub not_cached :
        keys.get sessions (hash_device_key limits keys consoles db digest (trim key)) ≡ none
    pub not_found : find_device limits keys consoles db digest rows (trim key) ≡ Result.ok none

  -- The counter of the address.
  abbrev pub failures_of : State limits keys consoles db digest → ℕ → Option ℕ
  failures_of s ip = limits.get (counters limits s.failures Bucket.auth) ip

  pub gate-check_key :
      (s : State limits keys consoles db digest) (req : Request)
      → NeedsKey req
      → gate limits keys consoles db digest s req ≡ check_key limits keys consoles db digest s req
  unfolding gate
  gate-check_key s req (a, b, c) = rw (a, b, c) refl

  resolve_guess :
      (s : State limits keys consoles db digest) (ip : ℕ) (req : Request)
      (g : IsGuess s.sessions s.rows ip req)
      → resolve_token limits keys consoles db digest s g.key
        ≡ (s, Result.err (AppError.unauthorized (codes "invalid API token")))
  unfolding resolve_token admit
  resolve_guess s ip req g = rw (resolve_token, g.not_cached, g.not_found) refl

  -- A guess while the limit is not reached, and one after it.
  check_guess :
      (s : State limits keys consoles db digest) (ip : ℕ) (req : Request)
      → IsGuess s.sessions s.rows ip req
      → is_blocked limits s.failures Bucket.auth ip ≡ false
      → check_key limits keys consoles db digest s req
        ≡ (record s { failures = record_failure limits s.failures Bucket.auth ip }, unknown_key)
  unfolding check_key judge
  check_guess s ip req g free =
      let here : is_blocked limits s.failures Bucket.auth req.ip ≡ false = rw g.from free in
      rw (check_key, here, g.brings, resolve_guess s ip req g, g.from) refl

  check_blocked :
      (s : State limits keys consoles db digest) (ip : ℕ) (req : Request)
      → IsGuess s.sessions s.rows ip req
      → is_blocked limits s.failures Bucket.auth ip ≡ true
      → check_key limits keys consoles db digest s req ≡ (s, too_many)
  unfolding check_key
  check_blocked s ip req g blocked =
      let here : is_blocked limits s.failures Bucket.auth req.ip ≡ true = rw g.from blocked in
      rw (check_key, here) refl

  below :
      (s : State limits keys consoles db digest) (ip n : ℕ)
      → unwrap_or (failures_of s ip) 0 ≡ n
      → suc n ≤ 30
      → is_blocked limits s.failures Bucket.auth ip ≡ false
  unfolding is_blocked at_limit
  below s ip n e h = elim (Option-cases (failures_of s ip)) [
    | inl k ↦ rw (is_blocked, k) refl
    | inr (m, k) ↦
        let same : m ≡ n = ap (λ o. unwrap_or o 0) (sym k) ∙ e in
        rw (is_blocked, k) (ground (arith, same, h))
  ]

  above :
      (s : State limits keys consoles db digest) (ip : ℕ)
      → unwrap_or (failures_of s ip) 0 ≡ 30
      → is_blocked limits s.failures Bucket.auth ip ≡ true
  unfolding is_blocked at_limit
  above s ip e = elim (Option-cases (failures_of s ip)) [
    | inl k ↦
        let no : ◌≡◌ {A = ℕ} 0 30 = ap (λ o. unwrap_or o 0) (sym k) ∙ e in absurd (omega arith)
    | inr (m, k) ↦
        let same : m ≡ 30 = ap (λ o. unwrap_or o 0) (sym k) ∙ e in rw (is_blocked, k, same) refl
  ]

  -- The answers to guesses while this many are left.
  abbrev pub answers : ℕ → List Request → List Verdict
  answers n reqs = map (λ req. unknown_key) (take n reqs) ++ map (λ req. too_many) (drop n reqs)

  module _ (laws : CacheLaws ℕ ℕ limits) where
    serve_from :
        (left n ip : ℕ) (s : State limits keys consoles db digest) (reqs : List Request)
        → n + left ≡ 30
        → unwrap_or (failures_of s ip) 0 ≡ n
        → All (IsGuess s.sessions s.rows ip) reqs
        → serve s reqs ≡ answers left reqs
    unfolding serve
    serve_from zero n ip s [] h e g = refl
    serve_from (suc left) n ip s [] h e g = refl
    serve_from zero n ip s (req ∷ reqs) h e (g, gs) =
        let full : n ≡ 30 = omega (arith, h) in
        let now : gate limits keys consoles db digest s req ≡ (s, too_many) =
          gate-check_key s req g.needs_key ∙ check_blocked s ip req g (above s ip (e ∙ full)) in
        let rest = serve_from zero n ip s reqs h e gs in
        ap₂ (λ (a : Verdict) b. a ∷ b) (ap (λ p. p.1) now)
          (ap (λ (p : State limits keys consoles db digest × Verdict). serve p.0 reqs) now ∙ rest)
    serve_from (suc left) n ip s (req ∷ reqs) h e (g, gs) =
        let s' = record s { failures = record_failure limits s.failures Bucket.auth ip } in
        let now : gate limits keys consoles db digest s req ≡ (s', unknown_key) =
          gate-check_key s req g.needs_key
          ∙ check_guess s ip req g (below s ip n e (omega (arith, h))) in
        let counted : unwrap_or (failures_of s' ip) 0 ≡ n + 1 =
          ap (λ o. unwrap_or o 0)
            (get-record_failure limits laws s.failures Bucket.auth ip n e (omega (arith, h))) in
        let rest = serve_from left (n + 1) ip s' reqs (omega (arith, h)) counted gs in
        ap₂ (λ (a : Verdict) b. a ∷ b) (ap (λ p. p.1) now)
          (ap (λ (p : State limits keys consoles db digest × Verdict). serve p.0 reqs) now ∙ rest)

    -- An address without failures that sends only keys which nobody has gets the answer that its key
    -- is unknown 30 times, and is turned away from then on, while its counter stays in the cache.
    pub serve_guesses :
        (ip : ℕ) (s : State limits keys consoles db digest) (reqs : List Request)
        → failures_of s ip ≡ none
        → All (IsGuess s.sessions s.rows ip) reqs
        → serve s reqs
          ≡ map (λ req. unknown_key) (take 30 reqs) ++ map (λ req. too_many) (drop 30 reqs)
    serve_guesses ip s reqs e g =
        serve_from 30 0 ip s reqs (omega arith) (ap (λ o. unwrap_or o 0) e) g

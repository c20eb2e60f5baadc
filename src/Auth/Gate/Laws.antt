-- ===== src/Auth/Gate/Laws.antt =====
-- Who gets through `gate`.
use peanut_butter.Prelude.{
  ℕ, ◌≡◌, refl, sym, ap, ◌∙◌, subst, Bool, true, false, Option, none, some, ◌&&◌, ◌||◌, ◌⊎◌, inl,
  inr, Bool-cases, Option-cases,
}
use peanut_butter.Text.{Text, codes, text_eq, trim}
use peanut_butter.Errors.{AppError}
use peanut_butter.Outside.Caches.{Cache}
use peanut_butter.Auth.Limits.{Bucket, is_blocked}
use peanut_butter.Auth.Requests.{Request, is_console_feed, is_get}
use peanut_butter.Auth.Gate.{
  AuthSession, DeviceSession, Database, Result, Verdict, State, session_of, is_public, provided_key,
  hash_device_key, find_device, admit, resolve_token, session_ok, let_in, judge, check_key, gate,
}

module _ (limits : Cache ℕ ℕ) (keys : Cache Text AuthSession) (consoles : Cache Text Bool)
    (db : Database) (digest : Text → Text) where
  -- The session of a key: remembered, or of a device that the database has.
  abbrev pub Known : State limits keys consoles db digest → Text → AuthSession → Type 0
  Known s key session =
      (keys.get s.sessions (hash_device_key limits keys consoles db digest (trim key))
        ≡ some session)
      ⊎ ((d : DeviceSession) × (find_device limits keys consoles db digest s.rows (trim key)
            ≡ Result.ok (some d))
          × (session ≡ session_of d))

  -- The console's own pages, for a browser that is signed in.
  abbrev pub IsConsole : State limits keys consoles db digest → Request → Type 0
  IsConsole s req =
      ((is_console_feed req.path || is_get req.method && text_eq req.path (codes "/graphql"))
        ≡ true)
      × ((session_ok limits keys consoles db digest s req).1 ≡ true)

  -- A key that is known, from an address that is not blocked.
  abbrev pub HasKey : State limits keys consoles db digest → Request → AuthSession → Type 0
  HasKey s req session =
      (is_blocked limits s.failures Bucket.auth req.ip ≡ false)
      × ((key : Text) × (provided_key req ≡ some key) × Known s key session)

  -- What a handler may be run with.
  abbrev pub MayRun : State limits keys consoles db digest → Request → Option AuthSession → Type 0
  MayRun s req none = (is_public req ≡ true) ⊎ IsConsole s req
  MayRun s req (some session) = HasKey s req session

  -- Of a verdict, that the handler runs with this.
  abbrev IsRun : Verdict → Option AuthSession → Type 0
  IsRun v o = v ≡ Verdict.run o

  run-injective : (a b : Option AuthSession) → IsRun (Verdict.run a) b → a ≡ b
  run-injective a b e =
      ap
        (λ (v : Verdict). elim v [
          | Verdict.run o ↦ o
          | Verdict.redirect t ↦ none
          | Verdict.refuse e ↦ none
        ])
        e

  ok-injective : (a b : AuthSession) → Result.ok a ≡ Result.ok b → a ≡ b
  ok-injective a b e =
      ap (λ (v : Result AuthSession). elim v [ Result.ok o ↦ o | Result.err e ↦ a ]) e

  let_in-run :
      (otherwise : Verdict) (r : State limits keys consoles db digest × Bool)
      (o : Option AuthSession)
      → ¬ (IsRun otherwise o)
      → IsRun (let_in limits keys consoles db digest otherwise r).1 o
      → (r.1 ≡ true) × (o ≡ none)
  unfolding let_in
  let_in-run otherwise (s, true) o never e = (refl, sym (run-injective none o e))
  let_in-run otherwise (s, false) o never e = absurd (never e)

  judge-run :
      (ip : ℕ) (r : State limits keys consoles db digest × Result AuthSession)
      (o : Option AuthSession)
      → IsRun (judge limits keys consoles db digest ip r).1 o
      → (session : AuthSession) × (r.1 ≡ Result.ok session) × (o ≡ some session)
  unfolding judge
  judge-run ip (s, Result.ok session) o e = (session, refl, sym (run-injective (some session) o e))
  judge-run ip (s, Result.err f) o e = absurd cc

  admit-Known :
      (s : State limits keys consoles db digest) (cache_key : Text)
      (found : Result (Option DeviceSession)) (session : AuthSession)
      → (admit limits keys consoles db digest s cache_key found).1 ≡ Result.ok session
      → (d : DeviceSession) × (found ≡ Result.ok (some d)) × (session ≡ session_of d)
  unfolding admit
  admit-Known s k (Result.err f) session e = absurd cc
  admit-Known s k (Result.ok none) session e = absurd cc
  admit-Known s k (Result.ok (some d)) session e =
      (d, refl, sym (ok-injective (session_of d) session e))

  resolve_token-Known :
      (s : State limits keys consoles db digest) (key : Text) (session : AuthSession)
      → (resolve_token limits keys consoles db digest s key).1 ≡ Result.ok session
      → Known s key session
  unfolding resolve_token
  resolve_token-Known s key session e =
      let cache_key = hash_device_key limits keys consoles db digest (trim key) in
      elim (Option-cases (keys.get s.sessions cache_key)) [
        | inl k ↦ inr (
            admit-Known s cache_key (find_device limits keys consoles db digest s.rows (trim key))
              session (rw (resolve_token, k) at e))
        | inr (hit, k) ↦ inl (k ∙ ap some (ok-injective hit session (rw (resolve_token, k) at e)))
      ]

  check_key-HasKey :
      (s : State limits keys consoles db digest) (req : Request) (o : Option AuthSession)
      → IsRun (check_key limits keys consoles db digest s req).1 o
      → MayRun s req o
  unfolding check_key
  check_key-HasKey s req o e = elim (Bool-cases (is_blocked limits s.failures Bucket.auth req.ip)) [
    | inl b ↦
        let no : IsRun (Verdict.refuse (AppError.too_many_requests (codes "auth"))) o =
          rw (check_key, b) at e in
        absurd cc
    | inr free ↦ elim (Option-cases (provided_key req)) [
      | inl k ↦
          let no : IsRun (Verdict.refuse (AppError.unauthorized (codes "missing API token"))) o =
            rw (check_key, free, k) at e in
          absurd cc
      | inr (key, k) ↦
          let (session, found, same) =
            judge-run req.ip (resolve_token limits keys consoles db digest s key) o
              (rw (check_key, free, k) at e) in
          subst (λ p. MayRun s req p) (sym same)
            (free, (key, k, resolve_token-Known s key session found))
    ]
  ]

  -- A request's handler runs without a session only for a public path or for a signed-in browser on
  -- the console's pages, and with a session only if the request brings a key, in its headers or in
  -- the address of media, that the cache or the database gives this session for, from an address
  -- that is not blocked.
  pub gate-MayRun :
      (s : State limits keys consoles db digest) (req : Request) (o : Option AuthSession)
      → (gate limits keys consoles db digest s req).1 ≡ Verdict.run o
      → MayRun s req o
  unfolding gate
  gate-MayRun s req o e = elim (Bool-cases (is_public req)) [
    | inl p ↦ subst (λ q. MayRun s req q) (run-injective none o (rw (gate, p) at e)) (inl p)
    | inr p ↦ elim (Bool-cases (is_console_feed req.path)) [
      | inl c ↦
          let (signed_in, same) =
            let_in-run _ (session_ok limits keys consoles db digest s req) o (λ h. cc)
              (rw (gate, p, c) at e) in
          subst (λ q. MayRun s req q) (sym same) (inr (rw c refl, signed_in))
      | inr c ↦ elim (Bool-cases (is_get req.method && text_eq req.path (codes "/graphql"))) [
        | inl g ↦
            let (signed_in, same) =
              let_in-run _ (session_ok limits keys consoles db digest s req) o (λ h. cc)
                (rw (gate, p, c, g) at e) in
            subst (λ q. MayRun s req q) (sym same) (inr (rw (c, g) refl, signed_in))
        | inr g ↦ check_key-HasKey s req o (rw (gate, p, c, g) at e)
      ]
    ]
  ]

-- ===== src/Auth/Gate/Paired.antt =====
-- A device that was paired gets through the gate.
use peanut_butter.Prelude.{
  ℕ, ◌≡◌, refl, sym, ap, ap₂, subst, ◌∙◌, Bool, true, false, Option, none, some, ◌⊎◌, inl, inr,
  Bool-cases,
}
use mathlib.Core.Option.{some-injective}
use peanut_butter.Text.{Text, trim}
use peanut_butter.Errors.{AppError}
use peanut_butter.Outside.Caches.{Cache}
use peanut_butter.Auth.Limits.{Bucket, is_blocked}
use peanut_butter.Auth.Pairing.{normalize_code, is_pairing_code, looks_like_device_key}
use peanut_butter.Auth.Requests.{Request}
use peanut_butter.Auth.Gate.{
  AuthSession, DeviceSession, Database, Result, Verdict, State, session_of, provided_key,
  hash_device_key, find_device, admit, resolve_token, judge, check_key, gate, give_key,
  exchange_pairing_code, answer_pair, pair,
}
use peanut_butter.Auth.Gate.Guessing.{NeedsKey, gate-check_key}

-- A row that was inserted is found: the key of a device by its hash.
pub record DatabaseLaws (db : Database) : Type 0 where
  pub found :
      (rows rows' : db.Rows) (d : DeviceSession) (code hash : Text)
      → db.by_live_code rows code ≡ Result.ok (some d)
      → db.insert_key rows d.id hash ≡ Result.ok rows'
      → db.by_key_hash rows' hash ≡ Result.ok (some d)

Result-cases :
    {A : Type 0} (r : Result A)
    → ((a : A) × (r ≡ Result.ok a)) ⊎ ((e : AppError) × (r ≡ Result.err e))
Result-cases (Result.ok a) = inl (a, refl)
Result-cases (Result.err e) = inr (e, refl)

err-ok : {A : Type 0} (e : AppError) (a : A) → ¬ (Result.err e ≡ Result.ok a)
err-ok e a h = cc

pub ok_injective : {A : Type 0} (a b : A) → Result.ok a ≡ Result.ok b → a ≡ b
ok_injective a b h = ap (λ r. elim r [ Result.ok c ↦ c | Result.err e ↦ a ]) h

module _ (limits : Cache ℕ ℕ) (keys : Cache Text AuthSession) (consoles : Cache Text Bool)
    (db : Database) (digest : Text → Text) where
  abbrev St : Type 0
  St = State limits keys consoles db digest

  answer_pair-ok :
      (ip : ℕ) (r : St × Result (Option (DeviceSession × Text))) (s' : St) (key name : Text)
      → answer_pair limits keys consoles db digest ip r ≡ (s', Result.ok (key, name))
      → (d : DeviceSession) × (r ≡ (s', Result.ok (some (d, key)))) × (d.name ≡ name)
  unfolding answer_pair
  answer_pair-ok ip (s, Result.err e) s' key name h = absurd (err-ok _ _ (ap (λ p. p.1) h))
  answer_pair-ok ip (s, Result.ok none) s' key name h = absurd (err-ok _ _ (ap (λ p. p.1) h))
  answer_pair-ok ip (s, Result.ok (some (d, k))) s' key name h =
      let same : (k, d.name) ≡ (key, name) =
        ok_injective (k, d.name) (key, name) (ap (λ p. p.1) h) in
      (
        d,
        ap₂ (λ (a : St) (b : Text). (a, Result.ok (some (d, b)))) (ap (λ p. p.0) h)
            (ap (λ p. p.0) same),
        ap (λ p. p.1) same,
      )

  -- The key was inserted for the device that was found.
  abbrev Given : St → St → Text → Result (Option DeviceSession) → DeviceSession → Type 0
  Given s s' key found d =
      (found ≡ Result.ok (some d))
      × ((rows : db.Rows) × (db.insert_key s.rows d.id
              (hash_device_key limits keys consoles db digest key)
            ≡ Result.ok rows)
          × (s'.rows ≡ rows))

  give_key-ok :
      (s s' : St) (key : Text) (found : Result (Option DeviceSession)) (d : DeviceSession)
      (k : Text)
      → give_key limits keys consoles db digest s key found ≡ (s', Result.ok (some (d, k)))
      → Given s s' key found d × (k ≡ key)
  unfolding give_key
  give_key-ok s s' key (Result.err e) d k h = absurd (err-ok _ _ (ap (λ p. p.1) h))
  give_key-ok s s' key (Result.ok none) d k h =
      let no : ◌≡◌ {A = Option (DeviceSession × Text)} none (some (d, k)) =
        ok_injective none (some (d, k)) (ap (λ p. p.1) h) in
      absurd cc
  give_key-ok s s' key (Result.ok (some dev)) d k h =
      elim (Result-cases
        (db.insert_key s.rows dev.id (hash_device_key limits keys consoles db digest key))) [
          | inl (rows, e) ↦
              let h' = rw (give_key, e) at h in
              let both : some (dev, key) ≡ some (d, k) =
                ok_injective (some (dev, key)) (some (d, k)) (ap (λ p. p.1) h') in
              let pair = some-injective (dev, key) (d, k) both in
              let device : dev ≡ d = ap (λ p. p.0) pair in
              (
                (
                  ap (λ x. Result.ok (some x)) device,
                  (
                    rows,
                    subst
                        (λ (x : DeviceSession).
                          db.insert_key s.rows x.id
                            (hash_device_key limits keys consoles db digest key)
                          ≡ Result.ok rows)
                        device e,
                    sym (ap (λ (p : St × Result (Option (DeviceSession × Text))). p.0.rows) h'),
                  ),
                ),
                sym (ap (λ p. p.1) pair),
              )
          | inr (e, k') ↦ absurd (err-ok _ _ (ap (λ p. p.1) (rw (give_key, k') at h)))
        ]

  exchange-ok :
      (s s' : St) (key code : Text) (d : DeviceSession) (k : Text)
      → exchange_pairing_code limits keys consoles db digest s key code
        ≡ (s', Result.ok (some (d, k)))
      → Given s s' key (db.by_live_code s.rows (normalize_code code)) d × (k ≡ key)
  unfolding exchange_pairing_code
  exchange-ok s s' key code d k h = elim (Bool-cases (is_pairing_code (normalize_code code))) [
    | inl e ↦
        give_key-ok s s' key (db.by_live_code s.rows (normalize_code code)) d k
          (rw (exchange_pairing_code, e) at h)
    | inr e ↦
        let no : ◌≡◌ {A = Option (DeviceSession × Text)} none (some (d, k)) =
          ok_injective none (some (d, k)) (ap (λ p. p.1) (rw (exchange_pairing_code, e) at h)) in
        absurd cc
  ]

  pair-ok :
      (s s' : St) (ip : ℕ) (key code given name : Text)
      → pair limits keys consoles db digest s ip key code ≡ (s', Result.ok (given, name))
      → (d : DeviceSession) × Given s s' key (db.by_live_code s.rows (normalize_code code)) d
        × (given ≡ key)
        × (d.name ≡ name)
  unfolding pair
  pair-ok s s' ip key code given name h =
      elim (Bool-cases (is_blocked limits s.failures Bucket.credential ip)) [
        | inl e ↦ absurd (err-ok _ _ (ap (λ p. p.1) (rw (pair, e) at h)))
        | inr e ↦
            let (d, exchanged, named) =
              answer_pair-ok ip (exchange_pairing_code limits keys consoles db digest s key code) s'
                given name (rw (pair, e) at h) in
            let (inserted, same) = exchange-ok s s' key code d given exchanged in
            (d, inserted, same, named)
      ]

  check_key-run :
      (s : St) (req : Request) (key : Text) (d : DeviceSession)
      → is_blocked limits s.failures Bucket.auth req.ip ≡ false
      → provided_key req ≡ some key
      → keys.get s.sessions (hash_device_key limits keys consoles db digest (trim key)) ≡ none
      → find_device limits keys consoles db digest s.rows (trim key) ≡ Result.ok (some d)
      → (check_key limits keys consoles db digest s req).1 ≡ Verdict.run (some (session_of d))
  unfolding check_key resolve_token admit judge
  check_key-run s req key d free brings not_cached found =
      rw (check_key, free, brings, resolve_token, not_cached, found) refl

  module _ (laws : DatabaseLaws db) where
    -- A key that pairing gives out lets its device in: a request that needs a key and brings this one,
    -- from an address that is not blocked, runs with the session of the device that has the name that
    -- pairing told. The key starts like one and has no white space around it, the database finds the
    -- rows that were inserted, and the key is not in the cache already.
    pub pair-gate :
        (s s' : St) (ip : ℕ) (key code given name : Text) (req : Request)
        → pair limits keys consoles db digest s ip key code ≡ (s', Result.ok (given, name))
        → looks_like_device_key given ≡ true
        → trim given ≡ given
        → NeedsKey req
        → provided_key req ≡ some given
        → is_blocked limits s'.failures Bucket.auth req.ip ≡ false
        → keys.get s'.sessions (hash_device_key limits keys consoles db digest (trim given)) ≡ none
        → (d : DeviceSession) × (d.name ≡ name)
          × ((gate limits keys consoles db digest s' req).1 ≡ Verdict.run (some (session_of d)))
    unfolding find_device
    pair-gate s s' ip key code given name req h like tight needs brings free not_cached =
        let (d, (by_code, (rows, inserted, same_rows)), same, named) =
          pair-ok s s' ip key code given name h in
        let row : db.by_key_hash s'.rows (hash_device_key limits keys consoles db digest given)
            ≡ Result.ok (some d) =
          subst
            (λ r.
              db.by_key_hash r (hash_device_key limits keys consoles db digest given)
              ≡ Result.ok (some d))
            (sym same_rows)
            (subst
              (λ k.
                db.by_key_hash rows (hash_device_key limits keys consoles db digest k)
                ≡ Result.ok (some d))
              (sym same)
              (laws.found s.rows rows d (normalize_code code)
                (hash_device_key limits keys consoles db digest key) by_code inserted)) in
        let found : find_device limits keys consoles db digest s'.rows given ≡ Result.ok (some d) =
          rw (find_device, like) row in
        let found' : find_device limits keys consoles db digest s'.rows (trim given)
            ≡ Result.ok (some d) =
          subst (λ t. find_device limits keys consoles db digest s'.rows t ≡ Result.ok (some d))
            (sym tight) found in
        (
          d,
          named,
          ap (λ p. p.1) (gate-check_key limits keys consoles db digest s' req needs)
              ∙ check_key-run s' req given d free brings not_cached found',
        )

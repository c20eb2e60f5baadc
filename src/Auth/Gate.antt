-- ===== src/Auth/Gate.antt =====
-- backend/src/auth.rs: `gate`, through which each request goes, and `pair`. The rows that the
-- queries of db/mod.rs and admin.rs find are a parameter; a query may fail.
pub mod Guessing
pub mod Paired
mod Tests
pub mod Laws
use peanut_butter.Prelude.{ℕ, Bool, true, false, Option, none, some, ◌&&◌, ◌||◌, if◌then◌else◌}
use peanut_butter.Text.{Text, codes, text_eq, trim, starts_with}
use peanut_butter.Errors.{AppError}
use peanut_butter.Outside.Caches.{Cache}
use peanut_butter.Auth.Limits.{Bucket, Counters, is_blocked, record_failure}
use peanut_butter.Auth.Pairing.{normalize_code, is_pairing_code, looks_like_device_key}
use peanut_butter.Auth.Requests.{
  Method, Request, or_else, extract_token, extract_token_from_query, is_console_feed, is_read,
  is_get, is_options, is_media_get, cookie_value,
}

pub record AuthSession : Type 0 where
  pub token_id : Text
  pub is_admin : Bool
  pub name : Text

-- A row of `device_tokens`.
pub record DeviceSession : Type 0 where
  pub id : Text
  pub name : Text
  pub is_admin : Bool

pub data Result (A : Type 0) : Type 0 where
  ok : A → Result A
  err : AppError → Result A

-- What the queries answer. A device is found by the hash of its key, by an old code, or by a live
-- pairing code; a console session by the hash of its token.
pub record Database : Type 1 where
  pub Rows : Type 0
  pub by_key_hash : Rows → Text → Result (Option DeviceSession)
  pub by_legacy_code : Rows → Text → Result (Option DeviceSession)
  pub by_live_code : Rows → Text → Result (Option DeviceSession)
  pub insert_key : Rows → Text → Text → Result Rows
  pub has_console_session : Rows → Text → Result Bool
  pub insert_console_session : Rows → Text → Result Rows
  pub delete_console_sessions : Rows → Result Rows

unfoldable pub require_admin : AuthSession → Result Bool
require_admin s =
    if s.is_admin
    then Result.ok true
    else Result.err (
        AppError.message
          (codes "Only the server's admin device can change this. Use the server console."))

-- What comes of a request: its handler runs, with the session that it was given, or the browser is
-- sent elsewhere, or an error.
pub data Verdict : Type 0 where
  run : Option AuthSession → Verdict
  redirect : Text → Verdict
  refuse : AppError → Verdict

unfoldable pub session_of : DeviceSession → AuthSession
session_of d = record { token_id = d.id; is_admin = d.is_admin; name = d.name }

unfoldable pub is_unauthorized : AppError → Bool
is_unauthorized (AppError.unauthorized e) = true
is_unauthorized e = false

-- Paths that need no key.
unfoldable pub is_public : Request → Bool
unfolding is_options text_eq starts_with is_read
is_public req =
    is_options req.method
    || text_eq req.path (codes "/health")
    || text_eq req.path (codes "/pair")
    || starts_with req.path (codes "/art/") && is_read req.method
    || starts_with req.path (codes "/stream/") && is_read req.method
    || text_eq req.path (codes "/")
    || text_eq req.path (codes "/tokens")

-- The key that a request brings; in its address only for media.
unfoldable pub provided_key : Request → Option Text
unfolding extract_token extract_token_from_query is_media_get
provided_key req =
    or_else (extract_token req)
      (if is_media_get req.method req.path then extract_token_from_query req.query else none)

module _ (limits : Cache ℕ ℕ) (keys : Cache Text AuthSession) (consoles : Cache Text Bool)
    (db : Database) (digest : Text → Text) where
  pub record State : Type 0 where
    pub failures : Counters limits
    pub sessions : keys.C
    pub console_sessions : consoles.C
    pub rows : db.Rows

  unfoldable pub hash_device_key : Text → Text
  unfolding trim
  hash_device_key key = digest (trim key)

  unfoldable pub find_device_by_legacy_code : db.Rows → Text → Result (Option DeviceSession)
  unfolding normalize_code is_pairing_code
  find_device_by_legacy_code rows code =
      let code' = normalize_code code in
      if is_pairing_code code' then db.by_legacy_code rows code' else Result.ok none

  -- The row of a key, from its own table or as an old code.
  unfoldable pub find_device : db.Rows → Text → Result (Option DeviceSession)
  unfolding looks_like_device_key hash_device_key find_device_by_legacy_code
  find_device rows provided =
      if looks_like_device_key provided
      then db.by_key_hash rows (hash_device_key provided)
      else find_device_by_legacy_code rows provided

  -- The answer of the database is put into the cache.
  unfoldable pub admit : State → Text → Result (Option DeviceSession) → State × Result AuthSession
  unfolding session_of
  admit s cache_key (Result.err e) = (s, Result.err e)
  admit s cache_key (Result.ok none) =
      (s, Result.err (AppError.unauthorized (codes "invalid API token")))
  admit s cache_key (Result.ok (some device)) = (
    record s { sessions = keys.insert s.sessions cache_key (session_of device) },
    Result.ok (session_of device),
  )

  unfoldable pub resolve_token : State → Text → State × Result AuthSession
  unfolding trim hash_device_key find_device admit
  resolve_token s raw =
      let provided = trim raw in
      let cache_key = hash_device_key provided in
      elim (keys.get s.sessions cache_key) [
        | some hit ↦ (s, Result.ok hit)
        | none ↦ admit s cache_key (find_device s.rows provided)
      ]

  -- After a device was removed or has another role.
  unfoldable pub forget_sessions : State → State
  forget_sessions s = record s { sessions = keys.invalidate_all s.sessions }

  -- A login; `token` is the random one.
  unfoldable pub new_console_session : State → Text → State × Result Text
  new_console_session s token = elim (db.insert_console_session s.rows (digest token)) [
    | Result.err e ↦ (s, Result.err e)
    | Result.ok rows ↦ (
      record s { rows = rows; console_sessions = consoles.insert s.console_sessions token true },
      Result.ok token,
    )
  ]

  -- Every browser is signed out.
  unfoldable pub revoke_all_sessions : State → State × Result Bool
  revoke_all_sessions s = elim (db.delete_console_sessions s.rows) [
    | Result.err e ↦ (s, Result.err e)
    | Result.ok rows ↦ (
      record s { rows = rows; console_sessions = consoles.invalidate_all s.console_sessions },
      Result.ok true,
    )
  ]

  -- A session that the database knows is remembered.
  unfoldable pub remember : State → Text → Result Bool → State × Bool
  remember s token (Result.err e) = (s, false)
  remember s token (Result.ok false) = (s, false)
  remember s token (Result.ok true) =
      (record s { console_sessions = consoles.insert s.console_sessions token true }, true)

  unfoldable pub token_ok : State → Text → State × Bool
  unfolding remember
  token_ok s token = elim (consoles.get s.console_sessions token) [
    | some u ↦ (s, true)
    | none ↦ remember s token (db.has_console_session s.rows (digest token))
  ]

  unfoldable pub session_ok : State → Request → State × Bool
  unfolding cookie_value token_ok
  session_ok s req = elim (cookie_value req (codes "pb_sess")) [
    | none ↦ (s, false)
    | some token ↦ token_ok s token
  ]

  -- A key that is not known counts as a failure of its address; a broken database does not.
  unfoldable pub judge : ℕ → State × Result AuthSession → State × Verdict
  unfolding record_failure is_unauthorized
  judge ip (s, Result.ok session) = (s, Verdict.run (some session))
  judge ip (s, Result.err e) = (
    if is_unauthorized e
        then record s { failures = record_failure limits s.failures Bucket.auth ip }
        else s,
    Verdict.refuse e,
  )

  -- Where a key is needed.
  unfoldable pub check_key : State → Request → State × Verdict
  unfolding is_blocked provided_key resolve_token judge
  check_key s req =
      if is_blocked limits s.failures Bucket.auth req.ip
      then (s, Verdict.refuse (AppError.too_many_requests (codes "auth")))
      else elim (provided_key req) [
        | none ↦ (s, Verdict.refuse (AppError.unauthorized (codes "missing API token")))
        | some provided ↦ judge req.ip (resolve_token s provided)
      ]

  unfoldable pub let_in : Verdict → State × Bool → State × Verdict
  let_in otherwise (s, true) = (s, Verdict.run none)
  let_in otherwise (s, false) = (s, otherwise)

  unfoldable pub gate : State → Request → State × Verdict
  unfolding is_public is_console_feed session_ok let_in is_get text_eq check_key
  gate s req =
      if is_public req
      then (s, Verdict.run none)
      else if is_console_feed req.path
      then let_in (Verdict.refuse (AppError.unauthorized (codes "sign in to the server console")))
          (session_ok s req)
      else if is_get req.method && text_eq req.path (codes "/graphql")
      then let_in (Verdict.redirect (codes "/")) (session_ok s req)
      else check_key s req

  -- The key that a device gets for its pairing code; `key` is the random one.
  unfoldable pub give_key :
      State → Text → Result (Option DeviceSession) → State × Result (Option (DeviceSession × Text))
  unfolding hash_device_key
  give_key s key (Result.err e) = (s, Result.err e)
  give_key s key (Result.ok none) = (s, Result.ok none)
  give_key s key (Result.ok (some device)) =
      elim (db.insert_key s.rows device.id (hash_device_key key)) [
        | Result.err e ↦ (s, Result.err e)
        | Result.ok rows ↦ (record s { rows = rows }, Result.ok (some (device, key)))
      ]

  unfoldable pub exchange_pairing_code :
      State → Text → Text → State × Result (Option (DeviceSession × Text))
  unfolding normalize_code is_pairing_code give_key
  exchange_pairing_code s key raw =
      let code = normalize_code raw in
      if is_pairing_code code
      then give_key s key (db.by_live_code s.rows code)
      else (s, Result.ok none)

  unfoldable pub answer_pair :
      ℕ → State × Result (Option (DeviceSession × Text)) → State × Result (Text × Text)
  unfolding record_failure
  answer_pair ip (s, Result.err e) = (s, Result.err e)
  answer_pair ip (s, Result.ok (some (device, key))) = (s, Result.ok (key, device.name))
  answer_pair ip (s, Result.ok none) = (
    record s { failures = record_failure limits s.failures Bucket.credential ip },
    Result.err (
        AppError.unauthorized
          (codes "That pairing code is wrong or expired. Create a new one in the server console.")),
  )

  -- The key and the name of the device.
  unfoldable pub pair : State → ℕ → Text → Text → State × Result (Text × Text)
  unfolding is_blocked exchange_pairing_code answer_pair
  pair s ip key code =
      if is_blocked limits s.failures Bucket.credential ip
      then (s, Result.err (AppError.too_many_requests (codes "pair")))
      else answer_pair ip (exchange_pairing_code s key code)

-- ===== src/Auth/Tests.antt =====
-- Runs of the gate on small requests, and its theorems at inputs that meet their hypotheses.
use peanut_butter.Prelude.{
  ℕ, ◌≡◌, refl, Bool, true, false, none, some, List, [], ◌∷◌, ◌++◌, ◌==◌, if◌then◌else◌, take, drop,
  map, arith,
}
use peanut_butter.Text.{Text, codes, text_eq}
use peanut_butter.Outside.Samples.{numbers, texts}
use peanut_butter.Outside.Caches.{CacheLaws}
use peanut_butter.Auth.Limits.{counters}
use peanut_butter.Auth.Requests.{Method, Request, cookie_value}
use peanut_butter.Auth.Pairing.{format_code, codes_equal}
use peanut_butter.Auth.Gate.{AuthSession, DeviceSession, Database, Result, State, gate, session_of}
use peanut_butter.Auth.Flash.{encode_flash, decode_flash}
use peanut_butter.Auth.Flash.Laws.{decode_flash-encode_flash}
use peanut_butter.Auth.Gate.Laws.{MayRun, gate-MayRun}
use peanut_butter.Auth.Gate.Guessing.{IsGuess, serve, serve_guesses, unknown_key, too_many}

self_eq : (n : ℕ) → (n == n) ≡ true
self_eq n = ground arith

numbers-CacheLaws : CacheLaws ℕ ℕ numbers
numbers-CacheLaws = record {
  get_insert = λ s k v. rw (self_eq k) refl;
  get_invalidate_all = λ s k. refl;
  get_modify = λ s k f. rw (self_eq k) refl;
}

abbrev tv : DeviceSession
tv = record { id = codes "1"; name = codes "TV"; is_admin = false }

-- One device, whose key is "pbk_1", and no console sessions.
abbrev one_device : Database
one_device = record {
  Rows = Bool;
  by_key_hash = λ rows h. if text_eq h (codes "pbk_1") then Result.ok (some tv) else Result.ok none;
  by_legacy_code = λ rows code. Result.ok none;
  by_live_code = λ rows code. Result.ok none;
  insert_key = λ rows id h. Result.ok rows;
  has_console_session = λ rows h. Result.ok false;
  insert_console_session = λ rows h. Result.ok rows;
  delete_console_sessions = λ rows. Result.ok rows;
}

abbrev start : State numbers (texts AuthSession) (texts Bool) one_device (λ key. key)
start = record {
  failures = record { auth = λ ip. none; credential = λ ip. none };
  sessions = λ key. none;
  console_sessions = λ token. none;
  rows = true;
}

abbrev request : Text → Request
request key = record {
  method = Method.get;
  path = codes "/files/abc";
  query = none;
  header = λ name. if text_eq name (codes "x-api-key") then some key else none;
  ip = 7;
}

gate-MayRun_example :
    MayRun numbers
      (texts AuthSession)
      (texts Bool)
      one_device
      (λ key. key)
      start
      (request (codes "pbk_1"))
      (some (session_of tv))
unfolding gate
gate-MayRun_example =
    gate-MayRun numbers (texts AuthSession) (texts Bool) one_device (λ key. key) start
      (request (codes "pbk_1")) (some (session_of tv)) refl

guess :
    IsGuess numbers
      (texts AuthSession)
      (texts Bool)
      one_device
      (λ key. key)
      start.sessions
      start.rows
      7
      (request (codes "pbk_2"))
unfolding gate
guess = record {
  from = refl;
  needs_key = (refl, refl, refl);
  key = codes "pbk_2";
  brings = refl;
  not_cached = refl;
  not_found = refl;
}

abbrev two_guesses : List Request
two_guesses = request (codes "pbk_2") ∷ request (codes "pbk_2") ∷ []

serve_guesses_example :
    serve numbers (texts AuthSession) (texts Bool) one_device (λ key. key) start two_guesses
    ≡ map (λ req. unknown_key) (take 30 two_guesses) ++ map (λ req. too_many) (drop 30 two_guesses)
unfolding counters
serve_guesses_example =
    serve_guesses numbers (texts AuthSession) (texts Bool) one_device (λ key. key) numbers-CacheLaws
      7 start two_guesses refl (guess, (guess, tt))

spaced : format_code (codes "48-2193") ≡ codes "482 193"
unfolding format_code
spaced = refl

same_codes : codes_equal (codes "482 193") (codes "482193") ≡ true
unfolding codes_equal
same_codes = refl

second_cookie :
    cookie_value
      (record (request []) { header = λ name. some (codes "a=1; pb_sess=xyz") })
      (codes "pb_sess")
    ≡ some (codes "xyz")
unfolding cookie_value
second_cookie = refl

abbrev message : List ℕ
message = codes "100% + a"

decode_flash-encode_flash_example : decode_flash (encode_flash message) ≡ message
decode_flash-encode_flash_example = decode_flash-encode_flash message (
  omega arith,
  (
    omega arith,
    (omega arith, (omega arith, (omega arith, (omega arith, (omega arith, (omega arith, tt)))))),
  ),
)

encoded : encode_flash message ≡ codes "100%25+%2B+a"
unfolding encode_flash
encoded = refl

-- A sign is taken for a digit.
signed : decode_flash (codes "%+5") ≡ 5 ∷ []
unfolding decode_flash
signed = refl

-- ===== src/Auth/Gate/Tests.antt =====
-- The theorem of a paired device, for a server with one device and a live code.
use peanut_butter.Prelude.{◌≡◌, refl, sym, Bool, true, false, none, some, [], if◌then◌else◌}
use peanut_butter.Text.{Text, codes, text_eq, text_eq_refl}
use peanut_butter.Outside.Samples.{numbers, texts}
use peanut_butter.Auth.Requests.{Method, Request}
use peanut_butter.Auth.Gate.{
  AuthSession, DeviceSession, Database, Result, Verdict, State, gate, pair, session_of,
}
use peanut_butter.Auth.Gate.Paired.{DatabaseLaws, pair-gate, ok_injective}

abbrev tv : DeviceSession
tv = record { id = codes "1"; name = codes "TV"; is_admin = false }

-- Every code is that of the one device, and the last key that was inserted is its key.
abbrev one_key : Database
one_key = record {
  Rows = Text;
  by_key_hash = λ rows h. if text_eq h rows then Result.ok (some tv) else Result.ok none;
  by_legacy_code = λ rows code. Result.ok none;
  by_live_code = λ rows code. Result.ok (some tv);
  insert_key = λ rows id h. Result.ok h;
  has_console_session = λ rows h. Result.ok false;
  insert_console_session = λ rows h. Result.ok rows;
  delete_console_sessions = λ rows. Result.ok rows;
}

one_key-DatabaseLaws : DatabaseLaws one_key
one_key-DatabaseLaws = record {
  found = λ rows rows' d code hash live inserted.
      let last : hash ≡ rows' = ok_injective hash rows' inserted in
      let own : text_eq hash rows' ≡ true = rw (sym last) (text_eq_refl hash) in rw own live;
}

abbrev start : State numbers (texts AuthSession) (texts Bool) one_key (λ key. key)
start = record {
  failures = record { auth = λ ip. none; credential = λ ip. none };
  sessions = λ key. none;
  console_sessions = λ token. none;
  rows = [];
}

abbrev request : Request
request = record {
  method = Method.get;
  path = codes "/files/abc";
  query = none;
  header = λ name. if text_eq name (codes "x-api-key") then some (codes "pbk_9") else none;
  ip = 7;
}

pair-gate_example :
    (d : DeviceSession) × (d.name ≡ codes "TV")
    × ((gate numbers
          (texts AuthSession)
          (texts Bool)
          one_key
          (λ key. key)
          (record start { rows = codes "pbk_9" })
          request).1
        ≡ Verdict.run (some (session_of d)))
unfolding pair gate
pair-gate_example =
    pair-gate numbers (texts AuthSession) (texts Bool) one_key (λ key. key) one_key-DatabaseLaws
      start (record start { rows = codes "pbk_9" }) 7 (codes "pbk_9") (codes "482 193")
      (codes "pbk_9") (codes "TV") request refl refl refl (refl, refl, refl) refl refl refl

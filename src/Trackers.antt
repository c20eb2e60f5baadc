-- ===== src/Trackers.antt =====
-- backend/src/trackers.rs: the public trackers that apps are given.
pub mod Laws
mod Tests
use mathlib.Core.List.{reverse}
use peanut_butter.Prelude.{
  ℕ, Bool, List, [], ◌∷◌, ◌++◌, ◌==◌, ◌&&◌, ◌||◌, if◌then◌else◌, is_empty, ltb, map, take,
}
use peanut_butter.Text.{Text, codes, trim, split, len, starts_with, member}

abbrev pub max_trackers : ℕ
max_trackers = 30

abbrev pub fallback : List Text
fallback =
    codes "udp://tracker.opentrackr.org:1337/announce"
    ∷ codes "udp://open.demonii.com:1337/announce"
    ∷ codes "udp://open.stealth.si:80/announce"
    ∷ codes "udp://tracker.torrent.eu.org:451/announce"
    ∷ codes "udp://exodus.desync.com:6969/announce"
    ∷ codes "udp://explodie.org:6969/announce"
    ∷ codes "udp://tracker.theoks.net:6969/announce"
    ∷ codes "udp://tracker.dler.org:6969/announce"
    ∷ codes "udp://tracker-udp.gbitt.info:80/announce"
    ∷ codes "udp://opentracker.io:6969/announce"
    ∷ codes "https://tracker.tamersunion.org:443/announce"
    ∷ codes "http://tracker.opentrackr.org:1337/announce"
    ∷ []

-- `str::lines`: a last empty line is none, and a carriage return at the end is no part of a line.
unfoldable pub drop_last_empty : List Text → List Text
drop_last_empty [] = []
drop_last_empty (p ∷ []) = if is_empty p then [] else p ∷ []
drop_last_empty (p ∷ q ∷ parts) = p ∷ drop_last_empty (q ∷ parts)

unfoldable pub strip_return : Text → Text
strip_return line = elim (reverse line) [
  | [] ↦ line
  | c ∷ front ↦ if c == 13 then reverse front else line
]

unfoldable pub lines : Text → List Text
unfolding split drop_last_empty strip_return
lines body = map strip_return (drop_last_empty (split body (λ c. c == 10)))

-- Whether it has one of the schemes, and less than 200 bytes.
unfoldable pub is_tracker : Text → Bool
unfolding starts_with len
is_tracker t =
    (starts_with t (codes "udp://")
      || starts_with t (codes "http://")
      || starts_with t (codes "https://"))
    && ltb (len t) 200

unfoldable pub push_line : List Text → Text → List Text
unfolding trim is_tracker member
push_line out line =
    let t = trim line in
    let more = out ++ t ∷ [] in if is_tracker t then (if member out t then out else more) else out

unfoldable pub push_lines : List Text → List Text → List Text
unfolding push_line
push_lines out [] = out
push_lines out (line ∷ rest) = push_lines (push_line out line) rest

unfoldable pub push_fallback : List Text → Text → List Text
unfolding member
push_fallback out fb = if member out fb then out else out ++ fb ∷ []

unfoldable pub push_fallbacks : List Text → List Text → List Text
unfolding push_fallback
push_fallbacks out [] = out
push_fallbacks out (fb ∷ rest) = push_fallbacks (push_fallback out fb) rest

unfoldable pub parse_trackers : Text → List Text
unfolding lines push_lines push_fallbacks
parse_trackers body =
    take max_trackers (push_fallbacks (push_lines [] (lines body)) (take 4 fallback))

-- ===== src/Torrents/Link/Hash.antt =====
-- The info hash of a printed torrent.
use peanut_butter.Prelude.{
  ℕ, ◌+◌, ◌-◌, ◌*◌, ◌≡◌, refl, sym, ap, subst, ◌∙◌, Bool, true, false, Option, none, some, List, [],
  ◌∷◌, ◌++◌, append_assoc, append-nil, if◌then◌else◌, length, drop, take, Bool-cases, inl, inr,
  arith,
}
use peanut_butter.Text.{Text, codes, text_eq}
use peanut_butter.Torrents.Bencode.{Value, Entries, int, bytes, list, dict, parse}
use peanut_butter.Torrents.Bencode.Places.{drop_next, take-append}
use peanut_butter.Torrents.Bencode.Tree.{
  Tree, Fields, number, text, items, table, no_fields, field, encode as print,
  encode_fields as print_fields, encode_text as print_text, IsPrintable, HavePrintable, value_of,
  entries_of,
}
use peanut_butter.Torrents.Bencode.RoundTrip.{parse-encode}
use peanut_butter.Torrents.Link.{
  Found, see, see_info, see_tiers, see_all, magnet_of, magnet_from_torrent, name_and_trackers,
}

-- The `info` dictionary of a torrent: of several, the last.
abbrev info_or : List ℕ → Tree → Option Fields → Option Fields
info_or k (table info) last = if text_eq k (codes "info") then some info else last
info_or k (number t) last = last
info_or k (text s) last = last
info_or k (items ts) last = last

abbrev pub info_of : Fields → Option Fields → Option Fields
info_of no_fields last = last
info_of (field k t fs) last = info_of fs (info_or k t last)

-- The span holds the print of the dictionary.
abbrev Agrees : List ℕ → Option (ℕ × ℕ) → Option Fields → Type 0
Agrees d none none = Unit
Agrees d none (some info) = ⊥
Agrees d (some span) none = ⊥
Agrees d (some (a, b)) (some info) = take (b - a) (drop a d) ≡ print (table info)

if_span :
    (b : Bool) (x y : Found) (o : Option (ℕ × ℕ))
    → x.info_span ≡ o
    → y.info_span ≡ o
    → (if b then x else y).info_span ≡ o
if_span true x y o hx hy = hx
if_span false x y o hx hy = hy

see_tiers_span : (v : Value) (f : Found) → (see_tiers v f).info_span ≡ f.info_span
unfolding see_tiers
see_tiers_span int f = refl
see_tiers_span (bytes b) f = refl
see_tiers_span (list vs) f = refl
see_tiers_span (dict es start end) f = refl

-- Only an `info` dictionary changes the span.
see_span :
    (key : List ℕ) (v : Value) (f : Found)
    → (see_info v f).info_span ≡ f.info_span
    → (see key v f).info_span ≡ f.info_span
unfolding see
see_span key v f h = if_span (text_eq key (codes "info")) _ _ _ h (
    if_span (text_eq key (codes "announce")) _ _ _ refl
      (if_span (text_eq key (codes "announce-list")) _ _ _ (see_tiers_span v f) refl))

see_other :
    (key : List ℕ) (v : Value) (f : Found)
    → text_eq key (codes "info") ≡ false
    → (see key v f).info_span ≡ f.info_span
unfolding see
see_other key v f h = rw h (
    if_span (text_eq key (codes "announce")) _ _ _ refl
      (if_span (text_eq key (codes "announce-list")) _ _ _ (see_tiers_span v f) refl))

see_table :
    (key : List ℕ) (es : Entries) (start end : ℕ) (f : Found)
    → text_eq key (codes "info") ≡ true
    → (see key (dict es start end) f).info_span ≡ some (start, end)
unfolding see see_info
see_table key es start end f h = rw h refl

slice :
    (d : List ℕ) (j : ℕ) (s r : List ℕ) → drop j d ≡ s ++ r → take (j + length s - j) (drop j d) ≡ s
slice d j s r h =
    let size : j + length s - j ≡ length s = omega arith in rw (size, h) (take-append s r)

Agrees-span :
    (d : List ℕ) {o o' : Option (ℕ × ℕ)} (last : Option Fields)
    → o' ≡ o
    → Agrees d o last
    → Agrees d o' last
Agrees-span d last e h = subst (λ o. Agrees d o last) (sym e) h

see-Agrees :
    (k : List ℕ) (t : Tree) (d : List ℕ) (j : ℕ) (r : List ℕ) (f : Found) (last : Option Fields)
    → drop j d ≡ print t ++ r
    → Agrees d f.info_span last
    → Agrees d (see k (value_of t j) f).info_span (info_or k t last)
unfolding value_of see_info
see-Agrees k (number t) d j r f last e h = Agrees-span d last (see_span k int f refl) h
see-Agrees k (text s) d j r f last e h = Agrees-span d last (see_span k (bytes s) f refl) h
see-Agrees k (items ts) d j r f last e h = Agrees-span d last (see_span k _ f refl) h
see-Agrees k (table info) d j r f last e h = elim (Bool-cases (text_eq k (codes "info"))) [
  | inl h' ↦
      rw h'
        (Agrees-span d (some info) (see_table k _ j _ f h') (slice d j (print (table info)) r e))
  | inr h' ↦ rw h' (Agrees-span d last (see_other k _ f h') h)
]

see_all-Agrees :
    (fs : Fields) (d : List ℕ) (i : ℕ) (r : List ℕ) (f : Found) (last : Option Fields)
    → drop i d ≡ print_fields fs ++ r
    → Agrees d f.info_span last
    → Agrees d (see_all (entries_of fs i) f).info_span (info_of fs last)
unfolding see_all value_of print
see_all-Agrees no_fields d i r f last e h = h
see_all-Agrees (field k t fs) d i r f last e h =
    let j = i + length (print_text k) in
    let whole : drop i d ≡ print_text k ++ (print t ++ (print_fields fs ++ r)) =
      e
      ∙ append_assoc (print_text k) (print t ++ print_fields fs) r
      ∙ ap (λ (l : List ℕ). print_text k ++ l) (append_assoc (print t) (print_fields fs) r) in
    let behind : drop j d ≡ print t ++ (print_fields fs ++ r) =
      drop_next d i (print_text k) _ whole in
    see_all-Agrees fs d (j + length (print t)) r (see k (value_of t j) f) (info_or k t last)
      (drop_next d j (print t) _ behind) (see-Agrees k t d j _ f last behind h)

Agrees-some :
    (d : List ℕ) (o : Option (ℕ × ℕ)) (info : Fields)
    → Agrees d o (some info)
    → (span : ℕ × ℕ) × (o ≡ some span)
      × (take (span.1 - span.0) (drop span.0 d) ≡ print (table info))
Agrees-some d none info h = absurd h
Agrees-some d (some span) info h = (span, refl, h)

parse_whole :
    (t : Tree)
    → IsPrintable t
    → parse (2 * length (print t)) (print t) 0 ≡ some (value_of t 0, 0 + length (print t))
parse_whole t v =
    subst (λ (l : List ℕ). parse (2 * length l) l 0 ≡ some (value_of t 0, 0 + length (print t)))
      (append-nil (print t)) (parse-encode t [] [] v)

-- What the loop starts with.
abbrev nothing : Found
nothing = record { info_span = none; name = none; trackers = [] }

module _ (sha1 : List ℕ → List ℕ) (hex : List ℕ → Text) where
  -- A torrent that is printed from fields with an `info` dictionary has a magnet, whose hash is the
  -- digest of exactly the bytes to which that dictionary is printed; of several, of the last.
  pub magnet_from_torrent_hash :
      (fs info : Fields) (title : List ℕ)
      → HavePrintable fs
      → info_of fs none ≡ some info
      → (rest : Text) × (magnet_from_torrent sha1 hex (print (table fs)) title
          ≡ some (
              codes "magnet:?xt=urn:btih:"
              ++ (hex (sha1 (print (table info))) ++ (codes "&dn=" ++ rest))))
  unfolding magnet_from_torrent magnet_of value_of print
  magnet_from_torrent_hash fs info title v h =
      let found = see_all (entries_of fs 1) nothing in
      let agrees =
        subst (Agrees (print (table fs)) found.info_span) h
          (see_all-Agrees fs (print (table fs)) 1 (b'e' ∷ []) nothing none refl tt) in
      let (span, is, bytes_of) = Agrees-some (print (table fs)) found.info_span info agrees in
      (name_and_trackers found title, rw (parse_whole (table fs) v, is, bytes_of) refl)

-- ===== src/Sources/Merge/Groups.antt =====
-- `merge` against its specification: one entry for each key, in the order in which the keys come
-- first, that absorbs all results of that key in order.
use mathlib.Core.List.{map-append}
use peanut_butter.Prelude.{
  subst, ◌≡◌, refl, sym, ap, ◌∙◌, true, false, Option, none, some, List, [], ◌∷◌, ◌++◌, map, length,
  flatten, foldl, if◌then◌else◌, filter, set, Bool-cases, inl, inr, append_assoc, append-nil,
  length-map, foldl-append, filter-append,
}
use peanut_butter.Text.{Text, text_eq, member, text_eq_refl, text_eq_ne}
use peanut_butter.Sources.Types.{StreamSource}
use peanut_butter.Sources.Key.{dedup_key}
use peanut_butter.Sources.Merge.Places.{
  index_of, Distinct, Distinct-snoc, index_of-member, index_of-snoc, index_of-known, entry,
  map_agree, write, member-snoc,
}
use peanut_butter.Sources.Merge.{absorb, Merged, lookup, merge_one, merge_loop, merge}

-- The keys without repetition, behind those that are known already.
unfoldable pub distinct : List Text → List Text → List Text
distinct ks [] = ks
distinct ks (k ∷ rest) = distinct (if member ks k then ks else ks ++ k ∷ []) rest

unfoldable pub distinct_keys : List StreamSource → List Text
unfolding distinct
distinct_keys items = distinct [] (map dedup_key items)

-- All results of a list in one, the first with what the later ones add.
unfoldable pub combine : List StreamSource → Option StreamSource
combine [] = none
combine (s ∷ rest) = some (foldl absorb s rest)

-- The results of one key, in order.
unfoldable pub with_key : Text → List StreamSource → List StreamSource
with_key k items = filter (λ s. text_eq (dedup_key s) k) items

distinct-snoc :
    (ks js : List Text) (k : Text)
    → distinct ks (js ++ k ∷ [])
      ≡ (if member (distinct ks js) k then distinct ks js else distinct ks js ++ k ∷ [])
unfolding distinct
distinct-snoc ks [] k = refl
distinct-snoc ks (j ∷ js) k = distinct-snoc (if member ks j then ks else ks ++ j ∷ []) js k

distinct_keys-snoc :
    (items : List StreamSource) (s : StreamSource)
    → distinct_keys (items ++ s ∷ []) ≡ (
        if member (distinct_keys items) (dedup_key s)
        then distinct_keys items
        else distinct_keys items ++ dedup_key s ∷ [])
unfolding distinct_keys
distinct_keys-snoc items s =
    rw (map-append dedup_key items (s ∷ [])) (distinct-snoc [] (map dedup_key items) (dedup_key s))

combine-snoc :
    (items : List StreamSource) (s : StreamSource)
    → combine (items ++ s ∷ [])
      ≡ (elim (combine items) [ none ↦ some s | some b ↦ some (absorb b s) ])
unfolding combine
combine-snoc [] s = refl
combine-snoc (b ∷ items) s = ap some (foldl-append absorb b items s)

with_key-snoc :
    (k : Text) (items : List StreamSource) (s : StreamSource)
    → with_key k (items ++ s ∷ [])
      ≡ with_key k items ++ (if text_eq (dedup_key s) k then s ∷ [] else [])
unfolding with_key
with_key-snoc k items s = filter-append _ items (s ∷ [])

abbrev group : List StreamSource → Text → Option StreamSource
group items k = combine (with_key k items)

group_other :
    (items : List StreamSource) (s : StreamSource) (k : Text)
    → text_eq (dedup_key s) k ≡ false
    → group (items ++ s ∷ []) k ≡ group items k
group_other items s k h = rw (with_key-snoc k items s, h, append-nil)

group_self :
    (items : List StreamSource) (s : StreamSource)
    → group (items ++ s ∷ []) (dedup_key s)
      ≡ (elim (group items (dedup_key s)) [ none ↦ some s | some b ↦ some (absorb b s) ])
group_self items s =
    rw (with_key-snoc (dedup_key s) items s, text_eq_refl (dedup_key s)) (combine-snoc _ s)

-- The invariant of the loop: what stands there once `items` are read.
record Inv (items : List StreamSource) (m : Merged) : Type 0 where
  groups : map some m.out ≡ map (group items) (distinct_keys items)
  places : (k : Text) → lookup m.at k ≡ index_of (distinct_keys items) k
  apart : Distinct (distinct_keys items)
  absent : (k : Text) → member (distinct_keys items) k ≡ false → with_key k items ≡ []

absent_snoc :
    (items : List StreamSource) (s : StreamSource) (k : Text)
    → with_key k items ≡ []
    → text_eq (dedup_key s) k ≡ false
    → with_key k (items ++ s ∷ []) ≡ []
absent_snoc items s k e h = rw (with_key-snoc k items s, e, h)

member-ne :
    (ks : List Text) (j k : Text) → member ks j ≡ true → member ks k ≡ false → text_eq j k ≡ false
member-ne ks j k hj hk = text_eq_ne j k (λ e. cc (subst (λ t. member ks t ≡ true) e hj))

-- A result of a known key is absorbed by the entry of that key.
merge_one_known :
    (items : List StreamSource) (m : Merged) (s : StreamSource)
    → Inv items m
    → member (distinct_keys items) (dedup_key s) ≡ true
    → (m' : Merged) × (merge_one m s ≡ some m') × Inv (items ++ s ∷ []) m'
unfolding merge_one
merge_one_known items m s v h =
    let ks = distinct_keys items in
    let (i, found, lt) = index_of-known ks (dedup_key s) h in
    let (b, at, is) = entry (group items) ks m.out (dedup_key s) i v.groups found in
    let keep : distinct_keys (items ++ s ∷ []) ≡ ks = rw (distinct_keys-snoc items s, h) in
    let new : group (items ++ s ∷ []) (dedup_key s) ≡ some (absorb b s) =
      rw (group_self items s, is) in
    (
      record m { out = set m.out i (absorb b s) },
      rw (v.places (dedup_key s), found, at, merge_one),
      record {
        groups = rw keep (
            write (group items) (group (items ++ s ∷ [])) (dedup_key s) (absorb b s) new
              (group_other items s) ks m.out i v.apart v.groups found);
        places = λ k. rw keep (v.places k);
        apart = rw keep v.apart;
        absent = λ k hk.
            let hk' : member ks k ≡ false = rw keep at hk in
            absent_snoc items s k (v.absent k hk') (member-ne ks (dedup_key s) k h hk');
      },
    )

-- A result of a new key becomes the last entry.
merge_one_new :
    (items : List StreamSource) (m : Merged) (s : StreamSource)
    → Inv items m
    → member (distinct_keys items) (dedup_key s) ≡ false
    → (m' : Merged) × (merge_one m s ≡ some m') × Inv (items ++ s ∷ []) m'
unfolding merge_one lookup
merge_one_new items m s v h =
    let ks = distinct_keys items in
    let grow : distinct_keys (items ++ s ∷ []) ≡ ks ++ dedup_key s ∷ [] =
      rw (distinct_keys-snoc items s, h) in
    let none_yet : group items (dedup_key s) ≡ none =
      unfold combine in rw (v.absent (dedup_key s) h) in
    let new : group (items ++ s ∷ []) (dedup_key s) ≡ some s = rw (group_self items s, none_yet) in
    let same_length : length m.out ≡ length ks =
      sym (length-map m.out some) ∙ ap length v.groups ∙ length-map ks (group items) in
    (
      record { out = m.out ++ s ∷ []; at = (dedup_key s, length m.out) ∷ m.at },
      rw (v.places (dedup_key s), index_of-member ks (dedup_key s) h, merge_one),
      record {
        groups =
            rw
              (
                grow,
                map-append some m.out (s ∷ []),
                map-append (group (items ++ s ∷ [])) ks (dedup_key s ∷ []),
                new,
              )
              (ap (λ l. l ++ some s ∷ [])
                (v.groups
                  ∙ sym (
                      map_agree (group items) (group (items ++ s ∷ [])) (dedup_key s)
                        (group_other items s) ks h)));
        places = λ k. rw (grow, index_of-snoc ks (dedup_key s) k h, v.places k, same_length);
        apart = rw grow (Distinct-snoc ks (dedup_key s) v.apart h);
        absent = λ k hk.
            let hk' : member (ks ++ dedup_key s ∷ []) k ≡ false = rw grow at hk in
            let (old, ne) = member-snoc ks (dedup_key s) k hk' in
            absent_snoc items s k (v.absent k old) ne;
      },
    )

merge_one-Inv :
    (items : List StreamSource) (m : Merged) (s : StreamSource)
    → Inv items m
    → (m' : Merged) × (merge_one m s ≡ some m') × Inv (items ++ s ∷ []) m'
merge_one-Inv items m s v = elim (Bool-cases (member (distinct_keys items) (dedup_key s))) [
  | inl h ↦ merge_one_known items m s v h
  | inr h ↦ merge_one_new items m s v h
]

merge_loop-Inv :
    (rest items : List StreamSource) (m : Merged)
    → Inv items m
    → (m' : Merged) × (merge_loop m rest ≡ some m') × Inv (items ++ rest) m'
unfolding merge_loop
merge_loop-Inv [] items m v = (m, refl, subst (λ l. Inv l m) (sym (append-nil items)) v)
merge_loop-Inv (s ∷ rest) items m v =
    let (m1, one, v1) = merge_one-Inv items m s v in
    let (m2, all_read, v2) = merge_loop-Inv rest (items ++ s ∷ []) m1 v1 in
    (m2, rw one all_read, subst (λ l. Inv l m2) (append_assoc items (s ∷ []) rest) v2)

start-Inv : Inv [] (record { out = []; at = [] })
unfolding distinct_keys lookup with_key
start-Inv = record { groups = refl; places = λ k. refl; apart = tt; absent = λ k h. refl }

-- One entry for each key.
abbrev pub Merges : List (List StreamSource) → List StreamSource → Type 0
Merges lists out =
    (merge lists ≡ some out)
    × (map some out
        ≡ map (λ k. combine (with_key k (flatten lists))) (distinct_keys (flatten lists)))

-- Merging never indexes past the end, and its result has one entry for each key of the answers, in
-- the order in which the keys come first: the first result of that key, into which the later ones
-- of that key are absorbed in order.
pub merge-Merges : (lists : List (List StreamSource)) → (out : List StreamSource) × Merges lists out
unfolding merge
merge-Merges lists =
    let (m, ran, v) = merge_loop-Inv (flatten lists) [] (record { out = []; at = [] }) start-Inv in
    (m.out, (rw ran, v.groups))

-- ===== src/Catalogs.antt =====
-- backend/src/addon_catalogs.rs: the lists of add-ons. A `Uuid` is a number, and a set of them the
-- list of what was put in.
pub mod Mix
mod Tests
use peanut_butter.Prelude.{
  ℕ, suc, ◌+◌, Bool, true, false, Option, none, some, List, [], ◌∷◌, ◌++◌, ◌==◌, ◌&&◌, ◌||◌,
  if◌then◌else◌, not, is_empty, any, all, filter, map, take, drop, length, get_elem?, foldl, ltb,
  leb, max, ℤ, leb_ℤ, ltb_ℤ, eqb_ℤ, Ordering, unwrap_or,
}
use peanut_butter.Text.{
  Text, codes, text_eq, trim, len, utf8, starts_with, contains, member, is_ascii_digit,
  is_ascii_alphanumeric, to_ascii_lowercase, compare_bytes,
}

abbrev pub items_per_catalog : ℕ
items_per_catalog = 20

abbrev pub max_tags : ℕ
max_tags = 3

-- What is read of an entry of a catalog, where it is a text.
pub record Meta : Type 0 where
  pub id : Option Text
  pub imdb_id : Option Text

unfoldable pub is_imdb : Text → Bool
unfolding len starts_with utf8 is_ascii_digit
is_imdb s = ltb 2 (len s) && starts_with s (codes "tt") && all is_ascii_digit (utf8 (drop 2 s))

unfoldable pub if_imdb : Option Text → Option Text
unfolding is_imdb trim
if_imdb none = none
if_imdb (some s) = let t = trim s in if is_imdb t then some t else none

unfoldable pub imdb_of : Meta → Option Text
unfolding if_imdb
imdb_of m = elim (if_imdb m.id) [ some id ↦ some id | none ↦ if_imdb m.imdb_id ]

-- Each id that the entries have, in order, once.
unfoldable pub new_ids : List Text → List Meta → List Text
unfolding imdb_of member
new_ids seen [] = []
new_ids seen (m ∷ metas) =
    let skip = new_ids seen metas in
    elim (imdb_of m) [
      | none ↦ skip
      | some id ↦
          (let rest = new_ids (id ∷ seen) metas in if member seen id then skip else id ∷ rest)
    ]

unfoldable pub imdb_ids : List Meta → List Text
unfolding new_ids
imdb_ids metas = take items_per_catalog (new_ids [] metas)

abbrev pub known_services : List (Text × Text)
known_services =
    (codes "netflix", codes "netflix")
    ∷ (codes "hbo", codes "hbo")
    ∷ (codes "max", codes "hbo")
    ∷ (codes "disney", codes "disney")
    ∷ (codes "prime", codes "prime")
    ∷ (codes "amazon", codes "prime")
    ∷ (codes "appletv", codes "apple")
    ∷ (codes "apple", codes "apple")
    ∷ (codes "hulu", codes "hulu")
    ∷ (codes "paramount", codes "paramount")
    ∷ (codes "peacock", codes "peacock")
    ∷ (codes "crunchyroll", codes "crunchyroll")
    ∷ (codes "hotstar", codes "hotstar")
    ∷ (codes "zee5", codes "zee5")
    ∷ (codes "sonyliv", codes "sonyliv")
    ∷ (codes "mubi", codes "mubi")
    ∷ (codes "starz", codes "starz")
    ∷ (codes "showtime", codes "showtime")
    ∷ (codes "curiosity", codes "curiositystream")
    ∷ (codes "discovery", codes "discovery")
    ∷ []

-- The service of the first key that the name has; "max" must stand at its start.
unfoldable pub first_service : Text → List (Text × Text) → Option Text
unfolding text_eq starts_with contains
first_service n [] = none
first_service n ((key, id) ∷ services) =
    if (if text_eq key (codes "max")
      then text_eq n (codes "max") || starts_with n (codes "max")
      else contains n key)
    then some id
    else first_service n services

unfoldable pub service_id : Text → Text
unfolding to_ascii_lowercase is_ascii_alphanumeric first_service
service_id name =
    let n = filter is_ascii_alphanumeric (to_ascii_lowercase name) in
    unwrap_or (first_service n known_services) n

-- The rank of a title in the list of a service.
pub record Row : Type 0 where
  pub title : ℕ
  pub service : Text
  pub rank : ℤ

-- The ranked titles of a service.
pub record Listing : Type 0 where
  pub service : Text
  pub titles : List (ℤ × ℕ)

unfoldable pub add_row : List Listing → Row → List Listing
unfolding text_eq
add_row [] row = record { service = row.service; titles = (row.rank, row.title) ∷ [] } ∷ []
add_row (l ∷ lists) row =
    let rest = add_row lists row in
    if text_eq l.service row.service
    then record l { titles = l.titles ++ (row.rank, row.title) ∷ [] } ∷ lists
    else l ∷ rest

-- By rank, then by title.
unfoldable pub comes_before : ℤ × ℕ → ℤ × ℕ → Bool
comes_before (r, i) (s, j) = ltb_ℤ r s || eqb_ℤ r s && leb i j

unfoldable pub insert_title : ℤ × ℕ → List (ℤ × ℕ) → List (ℤ × ℕ)
unfolding comes_before
insert_title t [] = t ∷ []
insert_title t (u ∷ titles) =
    let rest = insert_title t titles in if comes_before t u then t ∷ u ∷ titles else u ∷ rest

unfoldable pub sort_titles : List (ℤ × ℕ) → List (ℤ × ℕ)
unfolding insert_title
sort_titles [] = []
sort_titles (t ∷ titles) = insert_title t (sort_titles titles)

-- `HashSet::insert` says whether the number is new.
unfoldable pub has : List ℕ → ℕ → Bool
has [] i = false
has (j ∷ seen) i = j == i || has seen i

-- What was seen, and the row that is made.
abbrev pub Picked : Type 0
Picked = List ℕ × List ℕ

unfoldable pub pick_title : Picked → Option (ℤ × ℕ) → Picked
unfolding has
pick_title (seen, out) none = (seen, out)
pick_title (seen, out) (some (rank, id)) =
    if has seen id then (seen, out) else (id ∷ seen, out ++ id ∷ [])

-- The i-th of each service.
unfoldable pub pick_round : Picked → List (List (ℤ × ℕ)) → ℕ → Picked
unfolding pick_title
pick_round p [] i = p
pick_round p (l ∷ lists) i = pick_round (pick_title p (get_elem? l i)) lists i

-- `count` rounds, from this one on.
unfoldable pub pick_rounds : Picked → List (List (ℤ × ℕ)) → (i count : ℕ) → Picked
unfolding pick_round
pick_rounds p lists i ℕ.zero = p
pick_rounds p lists i (suc count) = pick_rounds (pick_round p lists i) lists (suc i) count

unfoldable pub longest : List (List (ℤ × ℕ)) → ℕ
longest [] = 0
longest (l ∷ lists) = max (length l) (longest lists)

unfoldable pub round_robin : List Row → List ℕ
unfolding add_row sort_titles longest pick_rounds
round_robin rows =
    let lists = map (λ (l : Listing). sort_titles l.titles) (foldl add_row [] rows) in
    (pick_rounds ([], []) lists 0 (longest lists)).1

pub record ServiceTag : Type 0 where
  pub id : Text
  pub name : Text

-- Whether a row may stand in front of another: by rank, then by the name of the service.
unfoldable pub row_in_order : Row → Row → Bool
unfolding compare_bytes utf8
row_in_order a b =
    if eqb_ℤ a.rank b.rank
    then elim (compare_bytes (utf8 a.service) (utf8 b.service)) [ Ordering.gt ↦ false | _ ↦ true ]
    else ltb_ℤ a.rank b.rank

unfoldable pub insert_row : Row → List Row → List Row
unfolding row_in_order
insert_row a [] = a ∷ []
insert_row a (b ∷ rows) =
    let rest = insert_row a rows in if row_in_order a b then a ∷ b ∷ rows else b ∷ rest

unfoldable pub sort_rows : List Row → List Row
unfolding insert_row
sort_rows [] = []
sort_rows (a ∷ rows) = insert_row a (sort_rows rows)

unfoldable pub push_tag : List ServiceTag → ServiceTag → List ServiceTag
unfolding text_eq
push_tag list tag =
    if ltb (length list) max_tags && not (any (λ (t : ServiceTag). text_eq t.id tag.id) list)
    then list ++ tag ∷ []
    else list

-- The map of the tags, to which a row adds.
unfoldable pub tag_row : List (ℕ × List ServiceTag) → Row → List (ℕ × List ServiceTag)
unfolding push_tag service_id
tag_row [] row =
    (row.title, push_tag [] (record { id = service_id row.service; name = row.service })) ∷ []
tag_row ((id, list) ∷ out) row =
    let rest = tag_row out row in
    if id == row.title
    then (id, push_tag list (record { id = service_id row.service; name = row.service })) ∷ out
    else (id, list) ∷ rest

unfoldable pub tags : List Row → List (ℕ × List ServiceTag)
unfolding sort_rows tag_row
tags rows = foldl tag_row [] (sort_rows rows)

-- ===== src/Playback.antt =====
-- backend/src/stream.rs: which file of a torrent is played.
pub mod Laws
pub mod Errors
mod Tests
use mathlib.Core.List.{reverse}
use peanut_butter.Prelude.{
  ℕ, ◌*◌, Bool, true, false, Option, none, some, List, [], ◌∷◌, ◌++◌, ◌==◌, ◌&&◌, ◌||◌,
  if◌then◌else◌, not, is_empty, any, filter, map, ltb, leb, ℤ, unwrap_or,
}
use peanut_butter.Text.{
  Text, codes, text_eq, trim, split, split_once, contains, member, to_ascii_lowercase,
  is_ascii_alphanumeric, ascii_lower,
}
use peanut_butter.Outside.Regexes.{Regexes}
use peanut_butter.Jackett.Episodes.{torrent_matches_episode}

-- A file of a torrent: its place, its length in bytes and its name.
pub record TorrentFile : Type 0 where
  pub id : ℕ
  pub len : ℕ
  pub name : Text

abbrev pub min_playable_bytes : ℕ
min_playable_bytes = 80 * 1024 * 1024

abbrev pub video_ext : List Text
video_ext = codes "mkv" ∷ codes "mp4" ∷ codes "avi" ∷ codes "webm" ∷ codes "mov" ∷ codes "m4v" ∷ []

-- `Path::file_name`: the last component, unless it is "..".
unfoldable pub file_name : Text → Option Text
unfolding split text_eq
file_name path =
    elim (reverse (
      filter (λ part. not (is_empty part) && not (text_eq part (codes ".")))
        (split path (λ c. c == b'/')))) [
          | [] ↦ none
          | part ∷ parts ↦ if text_eq part (codes "..") then none else some part
        ]

-- `Path::extension`: what stands behind the last dot, unless nothing stands in front of it.
unfoldable pub extension : Text → Option Text
unfolding file_name split_once
extension path = elim (file_name path) [
  | none ↦ none
  | some file ↦ elim (split_once (reverse file) b'.') [
    | none ↦ none
    | some (behind, before) ↦ if is_empty before then none else some (reverse behind)
  ]
]

unfoldable pub file_ext : Text → Text
unfolding extension to_ascii_lowercase
file_ext name = to_ascii_lowercase (unwrap_or (extension name) [])

unfoldable pub padded_name : Text → Text
unfolding is_ascii_alphanumeric ascii_lower
padded_name name =
    b' ' ∷ (map (λ c. if is_ascii_alphanumeric c then ascii_lower c else b' ') name ++ b' ' ∷ [])

abbrev pub junk_names : List Text
junk_names =
    codes " sample "
    ∷ codes " trailer "
    ∷ codes " extra "
    ∷ codes " extras "
    ∷ codes " featurette "
    ∷ codes " featurettes "
    ∷ codes " behindthescenes "
    ∷ codes " interview "
    ∷ codes " deleted "
    ∷ codes " gagreel "
    ∷ codes " promo "
    ∷ codes " proof "
    ∷ codes " screens "
    ∷ codes " bonus "
    ∷ codes " samplefix "
    ∷ codes " rarbgsample "
    ∷ []

abbrev pub junk_folders : List Text
junk_folders =
    codes "/sample/"
    ∷ codes "/samples/"
    ∷ codes "/extras/"
    ∷ codes "/extra/"
    ∷ codes "/featurettes/"
    ∷ codes "/featurette/"
    ∷ codes "/bonus/"
    ∷ codes "/proof/"
    ∷ codes "/screens/"
    ∷ codes "\\sample\\"
    ∷ codes "\\samples\\"
    ∷ codes "\\extras\\"
    ∷ codes "\\featurettes\\"
    ∷ []

unfoldable pub is_junk_video : TorrentFile → Bool
unfolding padded_name contains to_ascii_lowercase
is_junk_video f =
    any (contains (padded_name f.name)) junk_names
    || any (contains (to_ascii_lowercase f.name)) junk_folders
    || ltb 0 f.len && ltb f.len min_playable_bytes

unfoldable pub resolution_score : Text → Text → ℕ
unfolding to_ascii_lowercase contains
resolution_score name preferred =
    let t = to_ascii_lowercase name in
    if not (is_empty preferred) && contains t preferred
    then 3
    else if contains t (codes "2160p") || contains t (codes "4k")
    then 2
    else if contains t (codes "1080p")
    then 1
    else 0

unfoldable pub is_video : TorrentFile → Bool
unfolding file_ext member
is_video f = member video_ext (file_ext f.name)

-- Neither a sample nor a trailer by its name.
unfoldable pub is_main : TorrentFile → Bool
unfolding padded_name contains
is_main f =
    let h = padded_name f.name in
    not (contains h (codes " sample ")) && not (contains h (codes " trailer "))

-- The first list, or the second one if it is empty.
unfoldable pub or_list : List TorrentFile → List TorrentFile → List TorrentFile
or_list [] other = other
or_list (f ∷ files) other = f ∷ files

-- What is left when the extras are gone: the best kind of video that there is.
unfoldable pub playable : List TorrentFile → List TorrentFile
unfolding is_video is_junk_video is_main or_list
playable files =
    let videos = filter is_video files in
    or_list (filter (λ f. not (is_junk_video f)) videos) (or_list (filter is_main videos) videos)

-- By resolution and length, both descending.
unfoldable pub comes_first : ℕ → ℕ → ℕ → ℕ → Bool
comes_first ra la rb lb = ltb rb ra || rb == ra && leb lb la

-- Whether `a` may stand in front of `b`.
unfoldable pub file_in_order : Text → TorrentFile → TorrentFile → Bool
unfolding resolution_score comes_first
file_in_order preferred a b =
    comes_first (resolution_score a.name preferred) a.len (resolution_score b.name preferred) b.len

unfoldable pub insert_file : Text → TorrentFile → List TorrentFile → List TorrentFile
unfolding file_in_order
insert_file preferred a [] = a ∷ []
insert_file preferred a (b ∷ files) =
    let rest = insert_file preferred a files in
    if file_in_order preferred a b then a ∷ b ∷ files else b ∷ rest

-- `sort_by` is stable, so that its result is that of the insertion sort.
unfoldable pub sort_files : Text → List TorrentFile → List TorrentFile
unfolding insert_file
sort_files preferred [] = []
sort_files preferred (a ∷ files) = insert_file preferred a (sort_files preferred files)

unfoldable pub first_id : List TorrentFile → Option ℕ
first_id [] = none
first_id (f ∷ files) = some f.id

module _ (re : Regexes) where
  unfoldable pub matches_episode : Text → ℤ → ℤ → Bool
  unfolding torrent_matches_episode
  matches_episode name season episode = torrent_matches_episode re name season episode

  -- Where an episode is asked for, no other is played.
  unfoldable pub of_episode : List TorrentFile → Option ℤ → Option ℤ → List TorrentFile
  unfolding matches_episode
  of_episode videos none episode = videos
  of_episode videos (some s) none = videos
  of_episode videos (some s) (some e) = filter (λ f. matches_episode f.name s e) videos

  unfoldable pub pick_playable_video : List TorrentFile → Text → Option ℤ → Option ℤ → Option ℕ
  unfolding trim to_ascii_lowercase sort_files of_episode playable first_id
  pick_playable_video files preferred_resolution season episode = first_id (
      sort_files (to_ascii_lowercase (trim preferred_resolution))
        (of_episode (playable files) season episode))

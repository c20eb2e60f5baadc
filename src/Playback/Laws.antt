-- ===== src/Playback/Laws.antt =====
-- What is played: the best of what is left.
use peanut_butter.Prelude.{
  ℕ, ◌≡◌, refl, sym, subst, Bool, true, false, Option, none, some, List, [], ◌∷◌, not, filter, All,
  filter-All, All-IsIn, IsIn, IsIn-filter, filter-nil, ℤ, Bool-cases, ◌⊎◌, inl, inr, arith,
}
use peanut_butter.Text.{Text, trim, to_ascii_lowercase}
use peanut_butter.Outside.Regexes.{Regexes}
use peanut_butter.Playback.{
  TorrentFile, is_video, is_junk_video, is_main, or_list, playable, comes_first, file_in_order,
  insert_file, sort_files, first_id, resolution_score, matches_episode, of_episode,
  pick_playable_video,
}

comes_first_trans :
    (ra la rb lb rc lc : ℕ)
    → comes_first ra la rb lb ≡ true
    → comes_first rb lb rc lc ≡ true
    → comes_first ra la rc lc ≡ true
unfolding comes_first
comes_first_trans ra la rb lb rc lc h k = ground arith

comes_first_refl : (r l : ℕ) → comes_first r l r l ≡ true
unfolding comes_first
comes_first_refl r l = ground arith

comes_first_total :
    (ra la rb lb : ℕ) → comes_first ra la rb lb ≡ false → comes_first rb lb ra la ≡ true
unfolding comes_first
comes_first_total ra la rb lb h = ground arith

module _ (p : Text) where
  abbrev Before : TorrentFile → TorrentFile → Type 0
  Before a b = file_in_order p a b ≡ true

  Before-trans : (a b c : TorrentFile) → Before a b → Before b c → Before a c
  unfolding file_in_order
  Before-trans a b c h k =
      comes_first_trans (resolution_score a.name p) a.len (resolution_score b.name p) b.len
        (resolution_score c.name p) c.len h k

  Before-refl : (a : TorrentFile) → Before a a
  unfolding file_in_order
  Before-refl a = comes_first_refl (resolution_score a.name p) a.len

  Before-total : (a b : TorrentFile) → file_in_order p a b ≡ false → Before b a
  unfolding file_in_order
  Before-total a b h =
      comes_first_total (resolution_score a.name p) a.len (resolution_score b.name p) b.len h

  Before-All :
      (a b : TorrentFile) (xs : List TorrentFile)
      → Before a b
      → All (λ c. Before b c) xs
      → All (λ c. Before a c) xs
  Before-All a b [] h k = tt
  Before-All a b (c ∷ xs) h k = (Before-trans a b c h k.0, Before-All a b xs h k.1)

  -- The first of the sorted list is one of the list's, and stands before each of them.
  abbrev Best : List TorrentFile → List TorrentFile → Type 0
  Best xs [] = xs ≡ []
  Best xs (f ∷ rest) = IsIn f xs × All (λ g. Before f g) xs

  insert_file-Best :
      (a : TorrentFile) (xs ys : List TorrentFile) → Best xs ys → Best (a ∷ xs) (insert_file p a ys)
  unfolding insert_file
  insert_file-Best a xs [] h =
      (inl refl, (Before-refl a, subst (λ l. All (λ g. Before a g) l) (sym h) tt))
  insert_file-Best a xs (b ∷ ys) h = elim (Bool-cases (file_in_order p a b)) [
    | inl e ↦ rw e (inl refl, (Before-refl a, Before-All a b xs e h.1))
    | inr e ↦ rw e (inr h.0, (Before-total a b e, h.1))
  ]

  sort_files-Best : (xs : List TorrentFile) → Best xs (sort_files p xs)
  unfolding sort_files
  sort_files-Best [] = refl
  sort_files-Best (a ∷ xs) = insert_file-Best a xs (sort_files p xs) (sort_files-Best xs)

or_list-All :
    (P : TorrentFile → Type 0) (xs ys : List TorrentFile)
    → All P xs
    → All P ys
    → All P (or_list xs ys)
unfolding or_list
or_list-All P [] ys h k = k
or_list-All P (x ∷ xs) ys h k = h

or_list-IsIn :
    (f : TorrentFile) (xs ys : List TorrentFile) → IsIn f (or_list xs ys) → IsIn f xs ⊎ IsIn f ys
unfolding or_list
or_list-IsIn f [] ys h = inr h
or_list-IsIn f (x ∷ xs) ys h = inl h

playable-IsIn :
    (f : TorrentFile) (files : List TorrentFile)
    → IsIn f (playable files)
    → IsIn f (filter is_video files)
unfolding playable
playable-IsIn f files h =
    let videos = filter is_video files in
    elim (or_list-IsIn f (filter (λ g. not (is_junk_video g)) videos) _ h) [
      | inl k ↦ IsIn-filter _ f videos k
      | inr k ↦ elim (or_list-IsIn f (filter is_main videos) videos k) [
        | inl k ↦ IsIn-filter is_main f videos k
        | inr k ↦ k
      ]
    ]

not-false : (b : Bool) → not b ≡ false → b ≡ true
not-false true h = refl
not-false false h = cc

not-true : (b : Bool) → not b ≡ true → b ≡ false
not-true true h = cc
not-true false h = refl

All-map :
    {A : Type 0} (P Q : A → Type 0) (f : (x : A) → P x → Q x) (xs : List A) → All P xs → All Q xs
All-map P Q f [] h = tt
All-map P Q f (x ∷ xs) h = (f x h.0, All-map P Q f xs h.1)

-- A first choice that is not empty is taken.
chosen-clean :
    (videos first other : List TorrentFile)
    → filter (λ f. not (is_junk_video f)) videos ≡ first
    → (All (λ f. is_junk_video f ≡ true) videos)
      ⊎ (All (λ f. is_junk_video f ≡ false) (or_list first other))
unfolding or_list
chosen-clean videos [] other e = inl (
    All-map _ _ (λ f h. not-false (is_junk_video f) h) videos
      (filter-nil (λ f. not (is_junk_video f)) videos e))
chosen-clean videos (f ∷ first) other e = inr (
    subst (λ l. All (λ f. is_junk_video f ≡ false) l) e
      (All-map _ _ (λ f h. not-true (is_junk_video f) h) _
        (filter-All (λ f. not (is_junk_video f)) videos)))

-- No extra is left when there is anything else.
playable-clean :
    (files : List TorrentFile)
    → (All (λ f. is_junk_video f ≡ true) (filter is_video files))
      ⊎ (All (λ f. is_junk_video f ≡ false) (playable files))
unfolding playable
playable-clean files = chosen-clean (filter is_video files) _ _ refl

module _ (re : Regexes) where
  -- The episode that was asked for, if one was.
  abbrev pub IsAsked : Option ℤ → Option ℤ → TorrentFile → Type 0
  IsAsked none episode f = Unit
  IsAsked (some s) none f = Unit
  IsAsked (some s) (some e) f = matches_episode re f.name s e ≡ true

  of_episode-IsIn :
      (f : TorrentFile) (videos : List TorrentFile) (season episode : Option ℤ)
      → IsIn f (of_episode re videos season episode)
      → IsIn f videos × IsAsked season episode f
  unfolding of_episode
  of_episode-IsIn f videos none episode h = (h, tt)
  of_episode-IsIn f videos (some s) none h = (h, tt)
  of_episode-IsIn f videos (some s) (some e) h = (
    IsIn-filter (λ g. matches_episode re g.name s e) f videos h,
    All-IsIn (λ g. matches_episode re g.name s e ≡ true) f _ (filter-All _ videos) h,
  )

  -- What is played of these files: a video of the torrent that is no extra unless all are, the
  -- episode that was asked for, and before all others that are left by resolution and length.
  abbrev pub IsPick : List TorrentFile → Text → Option ℤ → Option ℤ → Option ℕ → Type 0
  IsPick files preferred season episode none = of_episode re (playable files) season episode ≡ []
  IsPick files preferred season episode (some i) =
      (f : TorrentFile) × (f.id ≡ i)
      × IsIn f (filter is_video files)
      × ((All (λ g. is_junk_video g ≡ true) (filter is_video files)) ⊎ (is_junk_video f ≡ false))
      × IsAsked season episode f
      × All (λ g. file_in_order preferred f g ≡ true)
          (of_episode re (playable files) season episode)

  first_id-IsPick :
      (files : List TorrentFile) (preferred : Text) (season episode : Option ℤ)
      (ys : List TorrentFile)
      → Best preferred (of_episode re (playable files) season episode) ys
      → IsPick files preferred season episode (first_id ys)
  unfolding first_id
  first_id-IsPick files preferred season episode [] h = h
  first_id-IsPick files preferred season episode (f ∷ rest) h =
      let (left, asked) = of_episode-IsIn f (playable files) season episode h.0 in
      let clean : (All (λ g. is_junk_video g ≡ true) (filter is_video files))
          ⊎ (is_junk_video f ≡ false) =
        elim (playable-clean files) [
          | inl k ↦ inl k
          | inr k ↦ inr (All-IsIn (λ g. is_junk_video g ≡ false) f (playable files) k left)
        ] in
      (f, refl, playable-IsIn f files left, clean, asked, h.1)

  -- The file that is played is a video of the torrent, no extra unless all videos are, of the
  -- episode if one was asked for, and no other that is left has a better resolution or, with the
  -- same, is longer. Nothing is played only if nothing is left.
  pub pick_playable_video_lem :
      (files : List TorrentFile) (preferred_resolution : Text) (season episode : Option ℤ)
      → IsPick files
          (to_ascii_lowercase (trim preferred_resolution))
          season
          episode
          (pick_playable_video re files preferred_resolution season episode)
  unfolding pick_playable_video
  pick_playable_video_lem files preferred_resolution season episode =
      first_id-IsPick files (to_ascii_lowercase (trim preferred_resolution)) season episode _ (
        sort_files-Best (to_ascii_lowercase (trim preferred_resolution))
          (of_episode re (playable files) season episode))

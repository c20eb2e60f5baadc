-- ===== src/Sources/Links/Mirrors.antt =====
-- What `collapse_mirrors` keeps of the mirrors of one file.
use peanut_butter.Prelude.{
  ◌≡◌, refl, true, false, List, [], ◌∷◌, ◌++◌, not, if◌then◌else◌, map, filter, arith, All,
  Bool-cases, inl, inr, ap, ◌∙◌, subst, sym, append-nil,
}
use peanut_butter.Text.{text_eq_refl}
use peanut_butter.Sources.Types.{StreamSource}
use peanut_butter.Sources.Links.{
  Mirror, mirror_of, mirror_eq, was_seen, is_untouched, collapse_loop, collapse_mirrors,
}

-- The mirrors of the direct links of known size.
unfoldable pub mirrors : List StreamSource → List Mirror
mirrors sources = map mirror_of (filter (λ s. not (is_untouched s)) sources)

-- No such link is a mirror of one in front of it, or of one in `seen`.
abbrev pub Apart : List Mirror → List StreamSource → Type 0
Apart seen [] = Unit
Apart seen (s ∷ rest) =
    (is_untouched s ≡ false → was_seen seen (mirror_of s) ≡ false)
    × Apart (if is_untouched s then seen else mirror_of s ∷ seen) rest

-- Each such link has a mirror among `kept`.
abbrev pub HasCopy : List Mirror → List StreamSource → Type 0
HasCopy kept = All (λ s. is_untouched s ≡ false → was_seen kept (mirror_of s) ≡ true)

mirror_eq_refl : (m : Mirror) → mirror_eq m m ≡ true
unfolding mirror_eq
mirror_eq_refl m = rw (text_eq_refl m.provider, text_eq_refl m.name) (ground arith)

collapse_loop-untouched :
    (seen : List Mirror) (sources : List StreamSource)
    → filter is_untouched (collapse_loop seen sources) ≡ filter is_untouched sources
unfolding collapse_loop
collapse_loop-untouched seen [] = refl
collapse_loop-untouched seen (s ∷ rest) = elim (Bool-cases (is_untouched s)) [
  | inl u ↦ rw u (rw u (ap (◌∷◌ s) (collapse_loop-untouched seen rest)))
  | inr u ↦ elim (Bool-cases (was_seen seen (mirror_of s))) [
    | inl w ↦ rw (u, w) (collapse_loop-untouched seen rest)
    | inr w ↦ rw (u, w) (rw u (collapse_loop-untouched (mirror_of s ∷ seen) rest))
  ]
]

collapse_loop-Apart :
    (seen : List Mirror) (sources : List StreamSource) → Apart seen (collapse_loop seen sources)
unfolding collapse_loop
collapse_loop-Apart seen [] = tt
collapse_loop-Apart seen (s ∷ rest) = elim (Bool-cases (is_untouched s)) [
  | inl u ↦ rw u (rw u ((λ e. cc), collapse_loop-Apart seen rest))
  | inr u ↦ elim (Bool-cases (was_seen seen (mirror_of s))) [
    | inl w ↦ rw (u, w) (collapse_loop-Apart seen rest)
    | inr w ↦ rw (u, w) (rw u ((λ e. w), collapse_loop-Apart (mirror_of s ∷ seen) rest))
  ]
]

was_seen-left :
    (ms ns : List Mirror) (m : Mirror) → was_seen ns m ≡ true → was_seen (ms ++ ns) m ≡ true
unfolding was_seen
was_seen-left [] ns m h = h
was_seen-left (k ∷ ms) ns m h = ground (arith, was_seen-left ms ns m)

was_seen-middle :
    (ms ns : List Mirror) (m n : Mirror)
    → was_seen (ms ++ m ∷ ns) n ≡ true
    → was_seen (m ∷ (ms ++ ns)) n ≡ true
unfolding was_seen
was_seen-middle [] ns m n h = h
was_seen-middle (k ∷ ms) ns m n h = ground (arith, was_seen-middle ms ns m n)

HasCopy-mono :
    (ms ns : List Mirror)
    → ((n : Mirror) → was_seen ms n ≡ true → was_seen ns n ≡ true)
    → (sources : List StreamSource) → HasCopy ms sources
    → HasCopy ns sources
HasCopy-mono ms ns f [] h = tt
HasCopy-mono ms ns f (s ∷ rest) h = ((λ u. f (mirror_of s) (h.0 u)), HasCopy-mono ms ns f rest h.1)

module _ (seen : List Mirror) (s : StreamSource) (rest : List StreamSource) where
  copies_untouched :
      is_untouched s ≡ true
      → HasCopy (mirrors (collapse_loop seen rest) ++ seen) rest
      → HasCopy (mirrors (collapse_loop seen (s ∷ rest)) ++ seen) (s ∷ rest)
  copies_untouched u ih =
      let step : collapse_loop seen (s ∷ rest) ≡ s ∷ collapse_loop seen rest =
        unfold collapse_loop in rw u in
      let same : mirrors (s ∷ collapse_loop seen rest) ≡ mirrors (collapse_loop seen rest) =
        unfold mirrors in rw u in
      subst (λ l. HasCopy (l ++ seen) (s ∷ rest)) (sym (ap mirrors step ∙ same)) ((λ e. cc), ih)

  copies_dropped :
      is_untouched s ≡ false
      → was_seen seen (mirror_of s) ≡ true
      → HasCopy (mirrors (collapse_loop seen rest) ++ seen) rest
      → HasCopy (mirrors (collapse_loop seen (s ∷ rest)) ++ seen) (s ∷ rest)
  copies_dropped u w ih =
      let step : collapse_loop seen (s ∷ rest) ≡ collapse_loop seen rest =
        unfold collapse_loop in rw (u, w) in
      subst (λ l. HasCopy (mirrors l ++ seen) (s ∷ rest)) (sym step)
        ((λ e. was_seen-left (mirrors (collapse_loop seen rest)) seen (mirror_of s) w), ih)

  copies_kept :
      is_untouched s ≡ false
      → was_seen seen (mirror_of s) ≡ false
      → HasCopy (mirrors (collapse_loop (mirror_of s ∷ seen) rest) ++ mirror_of s ∷ seen) rest
      → HasCopy (mirrors (collapse_loop seen (s ∷ rest)) ++ seen) (s ∷ rest)
  copies_kept u w ih =
      let later = collapse_loop (mirror_of s ∷ seen) rest in
      let step : collapse_loop seen (s ∷ rest) ≡ s ∷ later = unfold collapse_loop in rw (u, w) in
      let one : mirrors (s ∷ later) ≡ mirror_of s ∷ mirrors later = unfold mirrors in rw u in
      subst (λ l. HasCopy (l ++ seen) (s ∷ rest)) (sym (ap mirrors step ∙ one))
        (
          (λ e. unfold was_seen in rw (mirror_eq_refl (mirror_of s))),
          HasCopy-mono (mirrors later ++ mirror_of s ∷ seen) (mirror_of s ∷ (mirrors later ++ seen))
              (was_seen-middle (mirrors later) seen (mirror_of s)) rest ih,
        )

collapse_loop-HasCopy :
    (seen : List Mirror) (sources : List StreamSource)
    → HasCopy (mirrors (collapse_loop seen sources) ++ seen) sources
collapse_loop-HasCopy seen [] = tt
collapse_loop-HasCopy seen (s ∷ rest) = elim (Bool-cases (is_untouched s)) [
  | inl u ↦ copies_untouched seen s rest u (collapse_loop-HasCopy seen rest)
  | inr u ↦ elim (Bool-cases (was_seen seen (mirror_of s))) [
    | inl w ↦ copies_dropped seen s rest u w (collapse_loop-HasCopy seen rest)
    | inr w ↦ copies_kept seen s rest u w (collapse_loop-HasCopy (mirror_of s ∷ seen) rest)
  ]
]

-- Collapsing leaves the torrents and the links of unknown size alone, in order; of the other links
-- it keeps no two that are mirrors; and each of them has a mirror among those kept.
pub collapse_mirrors_lem :
    (sources : List StreamSource)
    → (filter is_untouched (collapse_mirrors sources) ≡ filter is_untouched sources)
      × Apart [] (collapse_mirrors sources)
      × HasCopy (mirrors (collapse_mirrors sources)) sources
unfolding collapse_mirrors
collapse_mirrors_lem sources = (
  collapse_loop-untouched [] sources,
  collapse_loop-Apart [] sources,
  subst (λ l. HasCopy l sources) (append-nil _) (collapse_loop-HasCopy [] sources),
)

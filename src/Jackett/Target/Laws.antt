-- ===== src/Jackett/Target/Laws.antt =====
-- What `SearchTarget` promises: its loop ends, and it takes the names that start with the title.
use peanut_butter.Prelude.{
  ℕ, zero, suc, ◌≤◌, ◌≡◌, refl, ap, Bool, true, false, [], ◌∷◌, if◌then◌else◌, length, arith,
  drop_while, Bool-cases, Option-cases, inl, inr,
}
use peanut_butter.Text.{
  Text, codes, text_eq, text_eq_sound, text_eq_refl, starts_with, after_first, trim, trim_start,
  trim_start_matches, to_ascii_lowercase, is_whitespace,
}
use peanut_butter.Text.Suffix.{
  EndsWith, EndsWith-refl, EndsWith-trans, EndsWith-cases, drop_while-EndsWith,
  after_first-EndsWith,
}
use peanut_butter.Jackett.Target.Prefix.{
  skip, strip_block, strip_site, strip_round, strip_loop, strip_release_prefix, is_filler,
}

skip-EndsWith : (s mark : Text) → EndsWith s (skip s mark)
unfolding skip trim_start
skip-EndsWith s mark = elim (Option-cases (after_first s mark)) [
  | inl e ↦ rw (skip, e) (EndsWith-refl s)
  | inr (r, e) ↦
      rw (skip, e)
        (EndsWith-trans s r (drop_while is_whitespace r) (after_first-EndsWith s mark r e)
          (drop_while-EndsWith is_whitespace r))
]

if-EndsWith : (b : Bool) (s t : Text) → EndsWith s t → EndsWith s (if b then t else s)
if-EndsWith true s t h = h
if-EndsWith false s t h = EndsWith-refl s

strip_block-EndsWith : (s : Text) (o c : ℕ) → EndsWith s (strip_block s o c)
unfolding strip_block
strip_block-EndsWith s o c =
    if-EndsWith (starts_with s (o ∷ [])) s (skip s (c ∷ [])) (skip-EndsWith s (c ∷ []))

strip_site-EndsWith : (s : Text) → EndsWith s (strip_site s)
unfolding strip_site
strip_site-EndsWith s =
    if-EndsWith (starts_with (to_ascii_lowercase s) (codes "www.")) s (skip s (codes " - "))
      (skip-EndsWith s (codes " - "))

pub strip_round-EndsWith : (s : Text) → EndsWith s (strip_round s)
unfolding strip_round trim_start_matches
strip_round-EndsWith s =
    let s1 = strip_block s b'[' b']' in
    let s2 = strip_block s1 b'(' b')' in
    let s3 = strip_block s2 0x3010 0x3011 in
    let s4 = strip_site s3 in
    EndsWith-trans s s1 _ (strip_block-EndsWith s b'[' b']') (
      EndsWith-trans s1 s2 _ (strip_block-EndsWith s1 b'(' b')') (
        EndsWith-trans s2 s3 _ (strip_block-EndsWith s2 0x3010 0x3011) (
          EndsWith-trans s3 s4 (drop_while is_filler s4) (strip_site-EndsWith s3)
            (drop_while-EndsWith is_filler s4))))

-- The loop has ended: another round changes nothing, and what is left is an end of the text.
abbrev pub Ended : Text → Text → Type 0
Ended s t = (strip_round t ≡ t) × EndsWith s t

-- A round that changes the text makes it shorter.
shrinks :
    (s : Text) (fuel : ℕ)
    → text_eq (strip_round s) s ≡ false
    → length s ≤ suc fuel
    → length (strip_round s) ≤ fuel
shrinks s fuel e h = elim (EndsWith-cases s (strip_round s) (strip_round-EndsWith s)) [
  | inl same ↦ let equal : text_eq (strip_round s) s ≡ true = rw same (text_eq_refl s) in absurd cc
  | inr less ↦ omega arith
]

pub strip_loop-Ended : (fuel : ℕ) (s : Text) → length s ≤ fuel → Ended s (strip_loop fuel s)
unfolding strip_loop
strip_loop-Ended zero [] h = (refl, EndsWith-refl [])
strip_loop-Ended zero (c ∷ s) h = absurd (omega arith)
strip_loop-Ended (suc fuel) s h = elim (Bool-cases (text_eq (strip_round s) s)) [
  | inl e ↦
      let same : strip_round s ≡ s = text_eq_sound (strip_round s) s e in
      rw (strip_loop, e) (ap strip_round same, strip_round-EndsWith s)
  | inr e ↦
      let shorter : length (strip_round s) ≤ fuel = shrinks s fuel e h in
      let (still, ends) = strip_loop-Ended fuel (strip_round s) shorter in
      rw (strip_loop, e) (still, EndsWith-trans s (strip_round s) _ (strip_round-EndsWith s) ends)
]

-- Removing the tags in front of a name ends after as many rounds as the name has characters: a
-- further round would change nothing, and what is left is an end of the trimmed name.
pub strip_release_prefix_lem : (raw : Text) → Ended (trim raw) (strip_release_prefix raw)
unfolding strip_release_prefix
strip_release_prefix_lem raw = strip_loop-Ended (length (trim raw)) (trim raw) (omega arith)

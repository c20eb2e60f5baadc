-- ===== src/Sources/Links.antt =====
-- backend/src/sources/mod.rs: `check_links` and `collapse_mirrors`. The answer of a host to a
-- range request is a parameter: its status code, or none where the request fails.
pub mod Laws
pub mod Mirrors
use peanut_butter.Prelude.{
  ℕ, suc, ◌≤◌, Bool, true, false, Option, none, some, List, [], ◌∷◌, ◌&&◌, ◌||◌, not, ◌==◌,
  if◌then◌else◌, leb, map, filter, take,
}
use peanut_butter.Text.{Text, text_eq, to_ascii_lowercase, is_ascii_alphanumeric}
use peanut_butter.Sources.Types.{StreamSource, is_http}

abbrev pub max_link_checks : ℕ
max_link_checks = 30

unfoldable pub enumerate {ℓ} : {A : Type ℓ} → ℕ → List A → List (ℕ × A)
enumerate i [] = []
enumerate i (x ∷ xs) = (i, x) ∷ enumerate (suc i) xs

unfoldable pub contains_key : List ℕ → ℕ → Bool
contains_key [] i = false
contains_key (j ∷ js) i = j == i || contains_key js i

-- The direct links that are checked, with their places: the first `most` of them.
unfoldable pub checks_of : ℕ → ℕ → List StreamSource → List (ℕ × StreamSource)
unfolding enumerate
checks_of most i sources =
    take most (filter (λ (p : ℕ × StreamSource). is_http p.1) (enumerate i sources))

unfoldable pub without : List ℕ → List (ℕ × StreamSource) → List StreamSource
unfolding contains_key
without gone sources =
    map (λ (p : ℕ × StreamSource). p.1)
      (filter (λ (p : ℕ × StreamSource). not (contains_key gone p.0)) sources)

module _ (host : StreamSource → Option ℕ) where
  -- A client or server error refuses the link.
  unfoldable pub is_refused : StreamSource → Bool
  is_refused s = elim (host s) [ none ↦ false | some status ↦ leb 400 status && leb status 599 ]

  unfoldable pub refused : List (ℕ × StreamSource) → List ℕ
  unfolding is_refused
  refused [] = []
  refused ((i, s) ∷ checks) = if is_refused s then i ∷ refused checks else refused checks

  unfoldable pub check_links : List StreamSource → List StreamSource
  unfolding checks_of refused without enumerate
  check_links sources =
      without (refused (checks_of max_link_checks 0 sources)) (enumerate 0 sources)

-- What makes two direct links mirrors of one file.
pub record Mirror : Type 0 where
  pub provider : Text
  pub size_bytes : ℕ
  pub name : Text

unfoldable pub mirror_of : StreamSource → Mirror
unfolding to_ascii_lowercase is_ascii_alphanumeric
mirror_of s = record {
  provider = elim s.providers [ [] ↦ [] | p ∷ _ ↦ p ];
  size_bytes = s.size_bytes;
  name = filter is_ascii_alphanumeric (to_ascii_lowercase s.title);
}

unfoldable pub mirror_eq : Mirror → Mirror → Bool
unfolding text_eq
mirror_eq a b =
    text_eq a.provider b.provider && a.size_bytes == b.size_bytes && text_eq a.name b.name

unfoldable pub was_seen : List Mirror → Mirror → Bool
unfolding mirror_eq
was_seen [] m = false
was_seen (n ∷ seen) m = mirror_eq n m || was_seen seen m

abbrev pub is_untouched : StreamSource → Bool
is_untouched s = not (is_http s) || s.size_bytes == 0

unfoldable pub collapse_loop : List Mirror → List StreamSource → List StreamSource
unfolding is_http mirror_of was_seen
collapse_loop seen [] = []
collapse_loop seen (s ∷ rest) =
    let untouched = s ∷ collapse_loop seen rest in
    let dropped = collapse_loop seen rest in
    let kept = s ∷ collapse_loop (mirror_of s ∷ seen) rest in
    if is_untouched s then untouched else if was_seen seen (mirror_of s) then dropped else kept

unfoldable pub collapse_mirrors : List StreamSource → List StreamSource
unfolding collapse_loop
collapse_mirrors sources = collapse_loop [] sources

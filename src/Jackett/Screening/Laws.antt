-- ===== src/Jackett/Screening/Laws.antt =====
-- What the results of the indexers are made of.
use peanut_butter.Prelude.{
  IsIn, ℕ, ◌≤◌, ◌≡◌, refl, inl, inr, Bool, true, false, Option, none, some, List, [], ◌∷◌, ◌||◌,
  if◌then◌else◌, All, filter-All, All-filter, Bool-cases, is_empty, length, ℤ, pos,
}
use peanut_butter.Text.{Text, codes, text_eq, trim, to_ascii_lowercase}
use peanut_butter.Outside.Regexes.{Regexes}
use peanut_butter.Outside.Floats.{Floats}
use peanut_butter.Sources.Types.{StreamSource}
use peanut_butter.Rank.Order.{max_results}
use peanut_butter.Rank.Order.Kept.{rank-All, length-rank}
use peanut_butter.Jackett.Languages.{language_matches}
use peanut_butter.Jackett.Hits.{JackettHit, torrent_locator}
use peanut_butter.Jackett.Screening.{
  hit_ok, source_of, add_source, sources_of, keep_wanted, tags_of, rank_sources, transform_results,
}

All-both {ℓ κ μ} :
    {A : Type ℓ} (P : A → Type κ) (Q : A → Type μ) (xs : List A)
    → All P xs
    → All Q xs
    → All (λ x. P x × Q x) xs
All-both P Q [] h k = tt
All-both P Q (x ∷ xs) (p, h) (q, k) = ((p, q), All-both P Q xs h k)

if-All :
    (P : StreamSource → Type 0) (b : Bool) (xs ys : List StreamSource)
    → All P xs
    → All P ys
    → All P (if b then xs else ys)
if-All P true xs ys h k = h
if-All P false xs ys h k = k

-- Whether the language of a result is wanted, or nothing is.
unfoldable pub speaks : Text → StreamSource → Bool
speaks preferred src =
    is_empty preferred
    || text_eq preferred (codes "all")
    || language_matches (tags_of src.language) preferred

module _ (re : Regexes) (fl : Floats) (print : ℕ → fl.F → Text) where
  -- The result is that of a hit among these that passes the rules, but for its score.
  pub record Made (hits : List JackettHit) (kind : Text) (src : StreamSource) : Type 0 where
    pub hit : JackettHit
    pub magnet : Text
    pub is_hit : IsIn hit hits
    pub located : torrent_locator hit ≡ some magnet
    pub ok : hit_ok re fl print hit kind ≡ true
    pub made : record src { score = pos 0 } ≡ source_of re fl print hit magnet

  add_source-Made :
      (hits : List JackettHit) (kind : Text) (hit : JackettHit) (link : Option Text)
      (rest : List StreamSource)
      → IsIn hit hits
      → torrent_locator hit ≡ link
      → All (Made hits kind) rest
      → All (Made hits kind) (add_source re fl print link hit kind rest)
  unfolding add_source source_of
  add_source-Made hits kind hit none rest i e h = h
  add_source-Made hits kind hit (some magnet) rest i e h =
      elim (Bool-cases (hit_ok re fl print hit kind)) [
        | inl k ↦
            rw k (
              record { hit = hit; magnet = magnet; is_hit = i; located = e; ok = k; made = refl },
              h,
            )
        | inr k ↦ rw k h
      ]

  sources_of-Made :
      (hits all_hits : List JackettHit) (kind : Text)
      → ((hit : JackettHit) → IsIn hit hits → IsIn hit all_hits)
      → All (Made all_hits kind) (sources_of re fl print hits kind)
  unfolding sources_of
  sources_of-Made [] all_hits kind h = tt
  sources_of-Made (hit ∷ hits) all_hits kind h =
      add_source-Made all_hits kind hit (torrent_locator hit) _ (h hit (inl refl)) refl
        (sources_of-Made hits all_hits kind (λ x i. h x (inr i)))

  All-All :
      (p : StreamSource → Bool) (out : List StreamSource)
      → ((s : StreamSource) → p s ≡ true)
      → All (λ s. p s ≡ true) out
  All-All p [] h = tt
  All-All p (s ∷ out) h = (h s, All-All p out h)

  keep_wanted-speaks :
      (preferred : Text) (out : List StreamSource)
      → All (λ src. speaks preferred src ≡ true) (keep_wanted re fl print preferred out)
  unfolding keep_wanted speaks
  keep_wanted-speaks preferred out = elim (Bool-cases (is_empty preferred)) [
    | inl e ↦ All-All (speaks preferred) _ (λ s. rw e refl)
    | inr e ↦ elim (Bool-cases (text_eq preferred (codes "all"))) [
      | inl k ↦ All-All (speaks preferred) _ (λ s. rw (e, k) refl)
      | inr k ↦
          rw (e, k) (filter-All (λ src. language_matches (tags_of src.language) preferred) out)
    ]
  ]

  keep_wanted-All :
      (P : StreamSource → Type 0) (preferred : Text) (out : List StreamSource)
      → All P out
      → All P (keep_wanted re fl print preferred out)
  unfolding keep_wanted
  keep_wanted-All P preferred out h = if-All P _ _ _ (All-filter P _ out h) h

  scored-Made :
      (hits : List JackettHit) (kind : Text) (s : StreamSource) (n : ℤ)
      → Made hits kind s
      → Made hits kind (record s { score = n })
  scored-Made hits kind s n m = record {
    hit = m.hit;
    magnet = m.magnet;
    is_hit = m.is_hit;
    located = m.located;
    ok = m.ok;
    made = m.made;
  }

  -- Each result that is handed on is made of one of the hits, one with a usable link that passes the
  -- rules on its name, its categories and its size, and only its score is set; its language is wanted
  -- where there is a preference; and there are no more results than a picker shows.
  pub transform_results_lem :
      (hits : List JackettHit) (resolution language kind : Text)
      → All
          (λ src. Made hits kind src × (speaks (to_ascii_lowercase (trim language)) src ≡ true))
          (transform_results re fl print hits resolution language kind)
        × (length (transform_results re fl print hits resolution language kind) ≤ max_results)
  unfolding transform_results rank_sources speaks
  transform_results_lem hits resolution language kind =
      let preferred = to_ascii_lowercase (trim language) in
      let kept = keep_wanted re fl print preferred (sources_of re fl print hits kind) in
      let both : All (λ src. Made hits kind src × (speaks preferred src ≡ true)) kept =
        All-both _ _ kept
          (keep_wanted-All _ preferred _ (sources_of-Made hits hits kind (λ hit i. i)))
          (keep_wanted-speaks preferred _) in
      (
        rank-All _ fl re (λ s n m. (scored-Made hits kind s n m.0, m.1)) _ kept both,
        length-rank fl re _ kept,
      )

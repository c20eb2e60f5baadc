-- ===== src/Sources/Merge/Covers.antt =====
-- What an entry keeps of the results that it absorbs.
use mathlib.Core.Option.{some-injective}
use peanut_butter.Prelude.{
  ◌≡◌, true, false, some, List, [], ◌∷◌, ◌++◌, arith, foldl, if◌then◌else◌, All, ℤ, ◌≤ℤ◌, max_ℤ,
  Bool-cases, ◌⊎◌, inl, inr, subst, le_trans_ℤ,
}
use peanut_butter.Text.{Text, codes, text_eq, member, text_eq_sound, text_eq_refl}
use peanut_butter.Jackett.Health.{health_for}
use peanut_butter.Sources.Types.{StreamSource}
use peanut_butter.Sources.Merge.Groups.{combine}
use peanut_butter.Sources.Merge.{absorb, add_providers, is_known, absorb_swarm}

-- `r` has at least the peers of `s`; if the swarm of `s` is known then so is that of `r`, with at
-- least the seeders of `s`; and `r` names every source that returned `s`.
abbrev pub Covers : StreamSource → StreamSource → Type 0
Covers r s =
    (s.peers ≤ℤ r.peers)
    × (is_known s ≡ true → is_known r ≡ true)
    × (is_known s ≡ true → s.seeders ≤ℤ r.seeders)
    × ((p : Text) → member s.providers p ≡ true → member r.providers p ≡ true)

Covers-refl : (s : StreamSource) → Covers s s
Covers-refl s = (omega arith, λ h. h, λ h. omega arith, λ p h. h)

Covers-trans : (r s t : StreamSource) → Covers r s → Covers s t → Covers r t
Covers-trans r s t (a, b, c, d) (a', b', c', d') = (
  omega arith,
  λ h. b (b' h),
  λ h. le_trans_ℤ t.seeders s.seeders r.seeders (c' h) (c (b' h)),
  λ p h. d p (d' p h),
)

health_for-known : (n : ℤ) → text_eq (health_for n) (codes "unknown") ≡ false
unfolding health_for text_eq
health_for-known n = ground arith

member-append_left :
    (ks js : List Text) (p : Text) → member ks p ≡ true → member (ks ++ js) p ≡ true
unfolding member
member-append_left [] js p h = cc
member-append_left (k ∷ ks) js p h = ground (arith, member-append_left ks js p)

member-append_self : (ks : List Text) (p : Text) → member (ks ++ p ∷ []) p ≡ true
unfolding member
member-append_self [] p = rw text_eq_refl
member-append_self (k ∷ ks) p = ground (arith, member-append_self ks p)

add_providers-left :
    (have ps : List Text) (p : Text)
    → member have p ≡ true
    → member (add_providers have ps) p ≡ true
unfolding add_providers
add_providers-left have [] p h = h
add_providers-left have (q ∷ ps) p h = elim (Bool-cases (member have q)) [
  | inl e ↦ rw e (add_providers-left have ps p h)
  | inr e ↦ rw e (add_providers-left (have ++ q ∷ []) ps p (member-append_left have (q ∷ []) p h))
]

-- The list of sources once the next one is in.
next_have : List Text → Text → List Text
next_have have q = if member have q then have else have ++ q ∷ []

member-next_have :
    (have : List Text) (q p : Text) → text_eq q p ≡ true → member (next_have have q) p ≡ true
unfolding next_have
member-next_have have q p e = elim (Bool-cases (member have q)) [
  | inl h ↦ rw h (subst (λ t. member have t ≡ true) (text_eq_sound q p e) h)
  | inr h ↦ rw h (
      subst (λ t. member (have ++ q ∷ []) t ≡ true) (text_eq_sound q p e)
        (member-append_self have q))
]

member-cons :
    (q : Text) (ps : List Text) (p : Text)
    → member (q ∷ ps) p ≡ true
    → (text_eq q p ≡ true) ⊎ (member ps p ≡ true)
unfolding member
member-cons q ps p h = ground arith

add_providers-right :
    (have ps : List Text) (p : Text) → member ps p ≡ true → member (add_providers have ps) p ≡ true
unfolding add_providers next_have
add_providers-right have [] p h = unfold member in cc
add_providers-right have (q ∷ ps) p h = elim (member-cons q ps p h) [
  | inl e ↦ add_providers-left (next_have have q) ps p (member-next_have have q p e)
  | inr m ↦ add_providers-right (next_have have q) ps p m
]

-- The swarm, the peers and the sources are settled by these steps alone.
absorb_parts :
    (b o : StreamSource)
    → (let r = absorb b o in
        (r.peers ≡ max_ℤ b.peers o.peers)
        × (r.providers ≡ add_providers b.providers o.providers)
        × (r.seeders ≡ (absorb_swarm b o).seeders)
        × (r.health ≡ (absorb_swarm b o).health))
unfolding absorb
absorb_parts b o = ground arith

absorb_swarm-known :
    (b o : StreamSource)
    → (is_known b ≡ true
        → (is_known (absorb_swarm b o) ≡ true) × (b.seeders ≤ℤ (absorb_swarm b o).seeders))
      × (is_known o ≡ true
          → (is_known (absorb_swarm b o) ≡ true) × (o.seeders ≤ℤ (absorb_swarm b o).seeders))
unfolding absorb_swarm
absorb_swarm-known b o = ground (arith, health_for-known o.seeders)

absorb-known :
    (b o : StreamSource)
    → (is_known b ≡ true → (is_known (absorb b o) ≡ true) × (b.seeders ≤ℤ (absorb b o).seeders))
      × (is_known o ≡ true → (is_known (absorb b o) ≡ true) × (o.seeders ≤ℤ (absorb b o).seeders))
absorb-known b o =
    let (_, _, seeders, health) = absorb_parts b o in rw (seeders, health) (absorb_swarm-known b o)

absorb-Covers : (b o : StreamSource) → Covers (absorb b o) b × Covers (absorb b o) o
absorb-Covers b o =
    let (peers, providers, _, _) = absorb_parts b o in
    let (known_b, known_o) = absorb-known b o in
    (
      (
        rw peers (ground arith),
        λ h. (known_b h).0,
        λ h. (known_b h).1,
        λ p h. rw providers (add_providers-left b.providers o.providers p h),
      ),
      (
        rw peers (ground arith),
        λ h. (known_o h).0,
        λ h. (known_o h).1,
        λ p h. rw providers (add_providers-right b.providers o.providers p h),
      ),
    )

foldl-Covers :
    (rest : List StreamSource) (b : StreamSource)
    → Covers (foldl absorb b rest) b × All (Covers (foldl absorb b rest)) rest
foldl-Covers [] b = (Covers-refl b, tt)
foldl-Covers (o ∷ rest) b =
    let (first, others) = foldl-Covers rest (absorb b o) in
    let (over_b, over_o) = absorb-Covers b o in
    let r = foldl absorb (absorb b o) rest in
    (
      Covers-trans r (absorb b o) b first over_b,
      (Covers-trans r (absorb b o) o first over_o, others),
    )

-- The entry of a key covers every result that went into it: at least its peers, at least its
-- seeders where its swarm is known (and then the entry's swarm is known), and every source of it.
pub combine-Covers :
    (items : List StreamSource) (r : StreamSource) → combine items ≡ some r → All (Covers r) items
unfolding combine
combine-Covers [] r e = tt
combine-Covers (s ∷ rest) r e =
    subst (λ t. All (Covers t) (s ∷ rest)) (some-injective (foldl absorb s rest) r e)
      (foldl-Covers rest s)

-- ===== src/Sources/Merge/Places.antt =====
-- Keys without repetition, the place of each, and the entries that stand at these places.
use peanut_butter.Prelude.{
  ℕ, zero, ap₂, subst, suc, ◌<◌, ◌≡◌, refl, sym, ap, ◌∙◌, true, false, Option, none, some, List, [],
  ◌∷◌, ◌++◌, map, arith, length, if◌then◌else◌, get_elem?, set, Bool-cases, inl, inr, drop, get_or,
}
use peanut_butter.Text.{Text, text_eq, member, text_eq_sound, text_eq_iff}
use peanut_butter.Sources.Types.{StreamSource}

-- The place of a key.
abbrev pub index_of : List Text → Text → Option ℕ
index_of [] k = none
index_of (j ∷ ks) k =
    if text_eq j k then some 0 else (elim (index_of ks k) [ none ↦ none | some i ↦ some (suc i) ])

abbrev pub Distinct : List Text → Type 0
Distinct [] = Unit
Distinct (k ∷ ks) = (member ks k ≡ false) × Distinct ks

pub member-append :
    (ks js : List Text) (k : Text) → member ks k ≡ false → member (ks ++ js) k ≡ member js k
unfolding member
member-append [] js k h = refl
member-append (j ∷ ks) js k h = ground (arith, member-append ks js k)

pub text_eq_comm : (s t : Text) → text_eq s t ≡ text_eq t s
unfolding text_eq
text_eq_comm [] [] = refl
text_eq_comm [] (d ∷ t) = refl
text_eq_comm (c ∷ s) [] = refl
text_eq_comm (c ∷ s) (d ∷ t) = ground (arith, text_eq_comm s t)

pub Distinct-snoc :
    (ks : List Text) (k : Text) → Distinct ks → member ks k ≡ false → Distinct (ks ++ k ∷ [])
Distinct-snoc [] k d h = unfold member in (refl, tt)
Distinct-snoc (j ∷ ks) k d h = (
  rw (member-append ks (k ∷ []) j d.0) (unfold member in ground (arith, text_eq_comm j k)),
  Distinct-snoc ks k d.1 (unfold member in ground arith),
)

pub index_of-member : (ks : List Text) (k : Text) → member ks k ≡ false → index_of ks k ≡ none
unfolding member
index_of-member [] k h = refl
index_of-member (j ∷ ks) k h = ground (arith, index_of-member ks k)

pub index_of-snoc :
    (ks : List Text) (k j : Text)
    → member ks k ≡ false
    → index_of (ks ++ k ∷ []) j ≡ (if text_eq k j then some (length ks) else index_of ks j)
unfolding member
index_of-snoc [] k j h = ground arith
index_of-snoc (i ∷ ks) k j h =
    ground (arith, index_of-snoc ks k j, text_eq_iff i j, text_eq_iff k j, text_eq_iff i k)

-- A known key has a place, and an entry there.
pub index_of-known :
    (ks : List Text) (k : Text)
    → member ks k ≡ true
    → (i : ℕ) × (index_of ks k ≡ some i) × (i < length ks)
unfolding member
index_of-known [] k h = cc
index_of-known (j ∷ ks) k h = elim (Bool-cases (text_eq j k)) [
  | inl e ↦ (0, rw e, omega arith)
  | inr e ↦
      let (i, found, lt) = index_of-known ks k (rw e at h) in (suc i, rw (e, found), omega arith)
]

heads {ℓ} : {A : Type ℓ} {x y : A} {xs ys : List A} → x ∷ xs ≡ y ∷ ys → x ≡ y
heads {x = x} e = ap (λ l. get_or l 0 x) e

tails {ℓ} : {A : Type ℓ} {x y : A} {xs ys : List A} → x ∷ xs ≡ y ∷ ys → xs ≡ ys
tails e = ap (drop 1) e

index_of_zero : (j k : Text) (ks : List Text) → index_of (j ∷ ks) k ≡ some 0 → j ≡ k
index_of_zero j k ks f = text_eq_sound j k (ground arith)

index_of-suc :
    (j k : Text) (ks : List Text) (i : ℕ)
    → index_of (j ∷ ks) k ≡ some (suc i)
    → (text_eq j k ≡ false) × (index_of ks k ≡ some i)
index_of-suc j k ks i f = ground arith

-- Where the entry of each key is what `value` says: the entry at a key's place, and a write there.
module _ (value : Text → Option StreamSource) where
  pub entry :
      (ks : List Text) (out : List StreamSource) (k : Text) (i : ℕ)
      → map some out ≡ map value ks
      → index_of ks k ≡ some i
      → (b : StreamSource) × (get_elem? out i ≡ some b) × (value k ≡ some b)
  entry [] out k i e f = cc
  entry (j ∷ ks) [] k i e f = cc
  entry (j ∷ ks) (b ∷ out) k zero e f =
      (b, refl, sym (ap value (index_of_zero j k ks f)) ∙ sym (heads e))
  entry (j ∷ ks) (b ∷ out) k (suc i) e f = entry ks out k i (tails e) (index_of-suc j k ks i f).1

  pub map_agree :
      (value' : Text → Option StreamSource) (k : Text)
      → ((j : Text) → text_eq k j ≡ false → value' j ≡ value j)
      → (ks : List Text) → member ks k ≡ false
      → map value' ks ≡ map value ks
  unfolding member
  map_agree value' k same [] h = refl
  map_agree value' k same (j ∷ ks) h =
      ap₂ ◌∷◌ (same j (text_eq_comm k j ∙ (ground arith)))
        (map_agree value' k same ks (ground arith))

  pub write :
      (value' : Text → Option StreamSource) (k : Text) (v : StreamSource)
      → value' k ≡ some v
      → ((j : Text) → text_eq k j ≡ false → value' j ≡ value j)
      → (ks : List Text) (out : List StreamSource) (i : ℕ) → Distinct ks
      → map some out ≡ map value ks
      → index_of ks k ≡ some i
      → map some (set out i v) ≡ map value' ks
  write value' k v new same [] out i d e f = cc
  write value' k v new same (j ∷ ks) [] i d e f = cc
  write value' k v new same (j ∷ ks) (b ∷ out) zero d e f =
      let at : j ≡ k = index_of_zero j k ks f in
      ap₂ ◌∷◌ (sym new ∙ ap value' (sym at))
        (tails e ∙ sym (map_agree value' k same ks (subst (λ t. member ks t ≡ false) at d.0)))
  write value' k v new same (j ∷ ks) (b ∷ out) (suc i) d e f =
      let (ne, found) = index_of-suc j k ks i f in
      ap₂ ◌∷◌ (heads e ∙ sym (same j (text_eq_comm k j ∙ ne)))
        (write value' k v new same ks out i d.1 (tails e) found)

pub member-snoc :
    (ks : List Text) (j k : Text)
    → member (ks ++ j ∷ []) k ≡ false
    → (member ks k ≡ false) × (text_eq j k ≡ false)
unfolding member
member-snoc [] j k h = ground arith
member-snoc (i ∷ ks) j k h = ground (arith, member-snoc ks j k)

-- ===== src/Trackers/Laws.antt =====
-- What the list of trackers has.
use peanut_butter.Prelude.{
  ℕ, zero, suc, ◌≤◌, ◌≡◌, refl, sym, ap, subst, true, false, List, [], ◌∷◌, ◌++◌, ◌⊎◌, inl, inr,
  if◌then◌else◌, take, length, length-take, All, All-append, All-take, Bool-cases, arith,
}
use peanut_butter.Text.{Text, member, text_eq_refl, trim}
use peanut_butter.Jackett.Languages.Laws.{Distinct, Distinct-append, member-append}
use peanut_butter.Trackers.{
  max_trackers, fallback, lines, is_tracker, push_line, push_lines, push_fallback, push_fallbacks,
  parse_trackers,
}

-- The trackers of a list, none of them twice.
abbrev pub IsTrackers : List Text → Type 0
IsTrackers ts = All (λ t. is_tracker t ≡ true) ts × Distinct ts

push-IsTrackers :
    (out : List Text) (t : Text)
    → is_tracker t ≡ true
    → IsTrackers out
    → IsTrackers (if member out t then out else out ++ t ∷ [])
push-IsTrackers out t k (h, d) = elim (Bool-cases (member out t)) [
  | inl e ↦ rw e (h, d)
  | inr e ↦ rw e (All-append _ out (t ∷ []) h (k, tt), Distinct-append out t e d)
]

push_line-IsTrackers :
    (out : List Text) (line : Text) → IsTrackers out → IsTrackers (push_line out line)
unfolding push_line
push_line-IsTrackers out line h = elim (Bool-cases (is_tracker (trim line))) [
  | inl e ↦ rw (push_line, e) (push-IsTrackers out (trim line) e h)
  | inr e ↦ rw (push_line, e) h
]

push_lines-IsTrackers : (out ls : List Text) → IsTrackers out → IsTrackers (push_lines out ls)
unfolding push_lines
push_lines-IsTrackers out [] h = h
push_lines-IsTrackers out (line ∷ ls) h =
    push_lines-IsTrackers (push_line out line) ls (push_line-IsTrackers out line h)

push_fallbacks-IsTrackers :
    (out fbs : List Text)
    → All (λ t. is_tracker t ≡ true) fbs
    → IsTrackers out
    → IsTrackers (push_fallbacks out fbs)
unfolding push_fallbacks push_fallback
push_fallbacks-IsTrackers out [] k h = h
push_fallbacks-IsTrackers out (fb ∷ fbs) k h =
    push_fallbacks-IsTrackers (push_fallback out fb) fbs k.1 (push-IsTrackers out fb k.0 h)

-- What a list has stays in it.
member-push :
    (out : List Text) (fb t : Text) → member out t ≡ true → member (push_fallback out fb) t ≡ true
unfolding push_fallback
member-push out fb t h = elim (Bool-cases (member out fb)) [
  | inl e ↦ rw (push_fallback, e) h
  | inr e ↦ rw (push_fallback, e, member-append out fb t, h) refl
]

member-push_self : (out : List Text) (fb : Text) → member (push_fallback out fb) fb ≡ true
unfolding push_fallback
member-push_self out fb = elim (Bool-cases (member out fb)) [
  | inl e ↦ rw (push_fallback, e) e
  | inr e ↦ rw (push_fallback, e, member-append out fb fb, e) (text_eq_refl fb)
]

member-push_fallbacks :
    (out fbs : List Text) (t : Text)
    → member out t ≡ true
    → member (push_fallbacks out fbs) t ≡ true
unfolding push_fallbacks
member-push_fallbacks out [] t h = h
member-push_fallbacks out (fb ∷ fbs) t h =
    member-push_fallbacks (push_fallback out fb) fbs t (member-push out fb t h)

all_fallbacks : (out fbs : List Text) → All (λ fb. member (push_fallbacks out fbs) fb ≡ true) fbs
unfolding push_fallbacks
all_fallbacks out [] = tt
all_fallbacks out (fb ∷ fbs) = (
  member-push_fallbacks (push_fallback out fb) fbs fb (member-push_self out fb),
  all_fallbacks (push_fallback out fb) fbs,
)

member-take :
    (n : ℕ) (xs : List Text) (t : Text) → member xs t ≡ false → member (take n xs) t ≡ false
unfolding member
member-take zero xs t h = refl
member-take (suc n) [] t h = refl
member-take (suc n) (x ∷ xs) t h = ground (arith, member-take n xs t)

Distinct-take : (n : ℕ) (xs : List Text) → Distinct xs → Distinct (take n xs)
Distinct-take zero xs d = tt
Distinct-take (suc n) [] d = tt
Distinct-take (suc n) (x ∷ xs) d = (member-take n xs x d.0, Distinct-take n xs d.1)

-- A cut that is not full has cut nothing.
take-full : (n : ℕ) (xs : List Text) → (take n xs ≡ xs) ⊎ (length (take n xs) ≡ n)
take-full zero xs = inr refl
take-full (suc n) [] = inl refl
take-full (suc n) (x ∷ xs) = elim (take-full n xs) [
  | inl e ↦ inl (ap (λ l. x ∷ l) e)
  | inr e ↦ inr (ap suc e)
]

fallback-trackers : All (λ t. is_tracker t ≡ true) (take 4 fallback)
unfolding is_tracker
fallback-trackers = (refl, (refl, (refl, (refl, tt))))

-- Whatever is downloaded, the list has trackers alone, none of them twice and no more than 30, and
-- the four that are known to be good unless it is full.
pub parse_trackers_lem :
    (body : Text)
    → IsTrackers (parse_trackers body)
      × (length (parse_trackers body) ≤ max_trackers)
      × ((length (parse_trackers body) ≡ max_trackers)
          ⊎ All (λ fb. member (parse_trackers body) fb ≡ true) (take 4 fallback))
unfolding parse_trackers
parse_trackers_lem body =
    let found = push_lines [] (lines body) in
    let whole = push_fallbacks found (take 4 fallback) in
    let (h, d) =
      push_fallbacks-IsTrackers found (take 4 fallback) fallback-trackers
        (push_lines-IsTrackers [] (lines body) (tt, tt)) in
    (
      (All-take _ max_trackers whole h, Distinct-take max_trackers whole d),
      omega (arith, length-take max_trackers whole),
      elim (take-full max_trackers whole) [
        | inl e ↦ inr (
            subst (λ l. All (λ fb. member l fb ≡ true) (take 4 fallback)) (sym e)
              (all_fallbacks found (take 4 fallback)))
        | inr e ↦ inl e
      ],
    )

-- ===== src/Sources/Magnet/Laws.antt =====
-- What merging two magnets keeps: the first magnet's info hash, and the parameters of both.
use peanut_butter.Prelude.{
  ℕ, ◌≤◌, length, ◌≡◌, refl, Bool, true, false, Option, none, some, List, [], ◌∷◌, ◌++◌, arith, All,
  ◌==◌, ◌>>=◌, take_while, append_assoc, append-nil, filter, >>=-eq-some, Bool-cases, Option-cases,
  inl, inr, ap, ◌≢◌, sym,
}
use peanut_butter.Text.{
  Text, codes, split, split_once, cons_head, strip_prefix, after_first, to_ascii_lowercase,
  ascii_lower, is_ascii_alphanumeric,
}
use peanut_butter.Sources.Key.{info_hash_of}
use peanut_butter.Sources.Magnet.{is_magnet, params, is_added, add_params, merge_magnets}

strip_prefix-append :
    (s t x r : Text) → strip_prefix s t ≡ some r → strip_prefix (s ++ x) t ≡ some (r ++ x)
unfolding strip_prefix
strip_prefix-append [] [] x r e = ap (λ (o : Option Text). o >>= λ t. some (t ++ x)) e
strip_prefix-append [] (d ∷ t) x r e = cc
strip_prefix-append (c ∷ s) [] x r e = ap (λ (o : Option Text). o >>= λ t. some (t ++ x)) e
strip_prefix-append (c ∷ s) (d ∷ t) x r e = ground (arith, strip_prefix-append s t x r)

take_while-append :
    (r x : Text)
    → take_while is_ascii_alphanumeric (r ++ b'&' ∷ x) ≡ take_while is_ascii_alphanumeric r
unfolding is_ascii_alphanumeric
take_while-append [] x = refl
take_while-append (c ∷ r) x = ground (arith, take_while-append r x)

to_ascii_lowercase-append :
    (s x : Text) → to_ascii_lowercase (s ++ x) ≡ to_ascii_lowercase s ++ to_ascii_lowercase x
unfolding to_ascii_lowercase
to_ascii_lowercase-append [] x = refl
to_ascii_lowercase-append (c ∷ s) x = ap (◌∷◌ (ascii_lower c)) (to_ascii_lowercase-append s x)

split_once-append :
    (s x : Text) (c : ℕ) (a q : Text)
    → split_once s c ≡ some (a, q)
    → split_once (s ++ x) c ≡ some (a, q ++ x)
unfolding split_once
split_once-append [] x c a q e = cc
split_once-append (d ∷ s) x c a q e = elim (Option-cases (split_once s c)) [
  | inl n ↦ ground arith
  | inr (p, e') ↦ ground (arith, split_once-append s x c p.0 p.1 e')
]

split_whole : (p : Text) → All (λ c. (c == b'&') ≡ false) p → split p (λ c. c == b'&') ≡ p ∷ []
unfolding split
split_whole [] v = refl
split_whole (c ∷ p) v = rw (v.0, split_whole p v.1)

cons_head-append :
    (c : ℕ) (ps qs : List Text) → ps ≢ [] → cons_head c (ps ++ qs) ≡ cons_head c ps ++ qs
cons_head-append c [] qs h = absurd (h refl)
cons_head-append c (p ∷ ps) qs h = refl

split-ne-nil : (s : Text) (sep : ℕ → Bool) → split s sep ≢ []
unfolding split
split-ne-nil [] sep e = cc
split-ne-nil (c ∷ s) sep e = elim (Bool-cases (sep c)) [
  | inl h ↦ ground arith
  | inr h ↦ ground (arith, split-ne-nil s sep)
]

split-append :
    (q p : Text)
    → All (λ c. (c == b'&') ≡ false) p
    → split (q ++ b'&' ∷ p) (λ c. c == b'&') ≡ split q (λ c. c == b'&') ++ p ∷ []
unfolding split
split-append [] p v = ap (◌∷◌ []) (split_whole p v)
split-append (c ∷ q) p v = elim (Bool-cases (c == b'&')) [
  | inl h ↦ rw (h, split-append q p v)
  | inr h ↦
      rw (h, split-append q p v)
        (cons_head-append c (split q (λ d. d == b'&')) (p ∷ []) (split-ne-nil q _))
]

cons_head-All :
    (c : ℕ) (ps : List Text)
    → (c == b'&') ≡ false
    → All (All (λ d. (d == b'&') ≡ false)) ps
    → All (All (λ d. (d == b'&') ≡ false)) (cons_head c ps)
cons_head-All c [] h v = ((h, tt), tt)
cons_head-All c (p ∷ ps) h v = ((h, v.0), v.1)

split_parts : (q : Text) → All (All (λ c. (c == b'&') ≡ false)) (split q (λ c. c == b'&'))
unfolding split
split_parts [] = (tt, tt)
split_parts (c ∷ q) = elim (Bool-cases (c == b'&')) [
  | inl h ↦ rw h (tt, split_parts q)
  | inr h ↦ rw h (cons_head-All c _ h (split_parts q))
]

strip_prefix-fits : (s t r : Text) → strip_prefix s t ≡ some r → length t ≤ length s
unfolding strip_prefix
strip_prefix-fits [] [] r e = omega arith
strip_prefix-fits [] (d ∷ t) r e = cc
strip_prefix-fits (c ∷ s) [] r e = omega arith
strip_prefix-fits (c ∷ s) (d ∷ t) r e = ground (arith, strip_prefix-fits s t r)

strip_prefix-append_none :
    (s t x : Text) → length t ≤ length s → strip_prefix s t ≡ none → strip_prefix (s ++ x) t ≡ none
unfolding strip_prefix
strip_prefix-append_none [] [] x h e = cc
strip_prefix-append_none [] (d ∷ t) x h e = absurd (omega arith)
strip_prefix-append_none (c ∷ s) [] x h e = cc
strip_prefix-append_none (c ∷ s) (d ∷ t) x h e = ground (arith, strip_prefix-append_none s t x)

after_first-fits : (s t r : Text) → after_first s t ≡ some r → length t ≤ length s
unfolding after_first
after_first-fits [] t r e = strip_prefix-fits [] t r e
after_first-fits (c ∷ s) t r e = elim (Option-cases (strip_prefix (c ∷ s) t)) [
  | inl n ↦ ground (arith, after_first-fits s t r)
  | inr (q, e') ↦ strip_prefix-fits (c ∷ s) t q e'
]

-- An occurrence that spills over the end comes after one that does not.
after_first-append :
    (s t x r : Text) → after_first s t ≡ some r → after_first (s ++ x) t ≡ some (r ++ x)
unfolding after_first
after_first-append [] [] [] r e = ground (arith, strip_prefix-append [] [] [] r)
after_first-append [] [] (c ∷ x) r e = ground (arith, strip_prefix-append [] [] (c ∷ x) r e)
after_first-append [] (d ∷ t) x r e = unfold strip_prefix in cc
after_first-append (c ∷ s) t x r e = elim (Option-cases (strip_prefix (c ∷ s) t)) [
  | inl n ↦ ground (
    arith,
    strip_prefix-append_none (c ∷ s) t x,
    after_first-fits s t r,
    after_first-append s t x r,
  )
  | inr (q, e') ↦ ground (arith, strip_prefix-append (c ∷ s) t x q e')
]

info_hash_of-append :
    (a x h : Text) → info_hash_of a ≡ some h → info_hash_of (a ++ b'&' ∷ x) ≡ some h
unfolding info_hash_of
info_hash_of-append a x h e =
    let (r, found, normal) =
      >>=-eq-some (after_first (to_ascii_lowercase a) (codes "urn:btih:")) _ e in
    rw
      (
        to_ascii_lowercase-append a (b'&' ∷ x),
        after_first-append _ _ _ r found,
        take_while-append r (to_ascii_lowercase x),
      )
      normal

info_hash_of-add_params :
    (have ps : List Text) (out h : Text)
    → info_hash_of out ≡ some h
    → info_hash_of (add_params have ps out) ≡ some h
unfolding add_params
info_hash_of-add_params have [] out h e = e
info_hash_of-add_params have (p ∷ ps) out h e = elim (Bool-cases (is_added have p)) [
  | inl t ↦ rw t (info_hash_of-add_params have ps _ h (info_hash_of-append out p h e))
  | inr t ↦ rw t (info_hash_of-add_params have ps out h e)
]

-- Merging keeps the info hash of the first magnet, whatever the second one says.
pub info_hash_of-merge_magnets :
    (a b h : Text)
    → is_magnet a ≡ true
    → info_hash_of a ≡ some h
    → info_hash_of (merge_magnets a b) ≡ some h
unfolding merge_magnets
info_hash_of-merge_magnets a b h m e = elim (Bool-cases (is_magnet b)) [
  | inl t ↦ rw (t, m) (info_hash_of-add_params (params a) (params b) a h e)
  | inr t ↦ rw t e
]

abbrev HasNoAmp : Text → Type 0
HasNoAmp = All (λ c. (c == b'&') ≡ false)

params-append :
    (m p x q : Text)
    → split_once m b'?' ≡ some (x, q)
    → HasNoAmp p
    → (params (m ++ b'&' ∷ p) ≡ params m ++ p ∷ [])
unfolding params
params-append m p x q e v =
    rw (split_once-append m (b'&' ∷ p) b'?' x q e, e, params) (split-append q p v)

params-add_params :
    (have ps : List Text) (out x q : Text)
    → split_once out b'?' ≡ some (x, q)
    → All HasNoAmp ps
    → params (add_params have ps out) ≡ params out ++ filter (is_added have) ps
unfolding add_params
params-add_params have [] out x q e v = sym (append-nil (params out))
params-add_params have (p ∷ ps) out x q e v = elim (Bool-cases (is_added have p)) [
  | inl t ↦
      rw
        (
          t,
          params-add_params have ps _ x _ (split_once-append out (b'&' ∷ p) b'?' x q e) v.1,
          params-append out p x q e v.0,
        )
        (append_assoc (params out) (p ∷ []) _)
  | inr t ↦ rw t (params-add_params have ps out x q e v.1)
]

params-HasNoAmp : (m : Text) → All HasNoAmp (params m)
unfolding params
params-HasNoAmp m =
    elim (split_once m b'?')
      as (λ (o : Option (Text × Text)).
        All HasNoAmp (elim o [ none ↦ [] | some (_, q) ↦ split q (λ c. c == b'&') ])) [
          | none ↦ tt
          | some p ↦ split_parts p.1
        ]

-- The parameters of the merged magnet are those of the first and, behind them, those of the second
-- that are taken over: the trackers that the first lacks, and its file index if the first has none.
-- The first magnet must have a query.
pub params-merge_magnets :
    (a b x q : Text)
    → is_magnet a ≡ true
    → is_magnet b ≡ true
    → split_once a b'?' ≡ some (x, q)
    → params (merge_magnets a b) ≡ params a ++ filter (is_added (params a)) (params b)
unfolding merge_magnets
params-merge_magnets a b x q ma mb e =
    rw (mb, ma) (params-add_params (params a) (params b) a x q e (params-HasNoAmp b))

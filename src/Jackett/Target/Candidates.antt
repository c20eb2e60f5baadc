-- ===== src/Jackett/Target/Candidates.antt =====
-- Where the candidates of a title come from.
use peanut_butter.Prelude.{
  ◌≡◌, refl, sym, Bool, true, false, some, [], ◌∷◌, ◌++◌, ◌⊎◌, inl, inr, not, if◌then◌else◌,
  Bool-cases, Option-cases, is_empty, any, List, All, All-append, IsIn,
}
use peanut_butter.Text.{Text, codes, text_eq, text_eq_sound}
use peanut_butter.Outside.Unicode.{Unicode}
use peanut_butter.Jackett.Target.{
  SearchTarget, Candidate, tokens_eq, push, push_without_the, short_of, push_name, push_names,
  candidates, title_tokens,
}

push-cases :
    (out : List Candidate) (tokens : List Text) (y : Bool)
    → (push out tokens y ≡ out)
      ⊎ ((is_empty tokens ≡ false) × (push out tokens y ≡ out ++ (tokens, y) ∷ []))
unfolding push
push-cases out [] y = inl refl
push-cases out (t ∷ tokens) y =
    elim (any (λ (c : Candidate). tokens_eq c.0 (t ∷ tokens)) out)
      as (λ b.
        ((if not b then out ++ (t ∷ tokens, y) ∷ [] else out) ≡ out)
        ⊎ ((false ≡ false)
            × ((if not b then out ++ (t ∷ tokens, y) ∷ [] else out)
                ≡ out ++ (t ∷ tokens, y) ∷ []))) [ true ↦ inl refl | false ↦ inr (refl, refl) ]

IsIn-append : {A : Type 0} (x : A) (xs ys : List A) → IsIn x xs → IsIn x (xs ++ ys)
IsIn-append x [] ys h = absurd h
IsIn-append x (y ∷ xs) ys (inl e) = inl e
IsIn-append x (y ∷ xs) ys (inr h) = inr (IsIn-append x xs ys h)

-- No step drops a candidate.
module _ (c : Candidate) where
  IsIn-push :
      (out : List Candidate) (tokens : List Text) (y : Bool)
      → IsIn c out
      → IsIn c (push out tokens y)
  IsIn-push out tokens y h = elim (push-cases out tokens y) [
    | inl e ↦ rw e h
    | inr (_, e) ↦ rw e (IsIn-append c out ((tokens, y) ∷ []) h)
  ]

  IsIn-push_without_the :
      (out : List Candidate) (full : List Text) → IsIn c out → IsIn c (push_without_the out full)
  unfolding push_without_the
  IsIn-push_without_the out [] h = h
  IsIn-push_without_the out (t ∷ full) h = elim (Bool-cases (text_eq t (codes "the"))) [
    | inl e ↦ rw (push_without_the, e) (IsIn-push out full false h)
    | inr e ↦ rw (push_without_the, e) h
  ]

  module _ (uni : Unicode) where
    -- Once the whole name is pushed, the other candidates of the name leave it in.
    IsIn-push_name :
        (out : List Candidate) (name : Text)
        → IsIn c (push out (title_tokens uni name) false)
        → IsIn c (push_name uni out name)
    unfolding push_name
    IsIn-push_name out name h =
        let more = IsIn-push_without_the _ (title_tokens uni name) h in
        elim (Option-cases (short_of name)) [
          | inl e ↦ rw (push_name, e) more
          | inr (short, e) ↦ rw (push_name, e) (IsIn-push _ (title_tokens uni short) true more)
        ]

    IsIn-push_names :
        (out : List Candidate) (names : List Text) → IsIn c out → IsIn c (push_names uni out names)
    unfolding push_names
    IsIn-push_names out [] h = h
    IsIn-push_names out (name ∷ names) h =
        IsIn-push_names (push_name uni out name) names
          (IsIn-push_name out name (IsIn-push out (title_tokens uni name) false h))

first_pushed :
    (full : List Text) (h : is_empty full ≡ false) → IsIn (full, false) (push [] full false)
unfolding push
first_pushed full h = rw h (inl refl)

module _ (uni : Unicode) where
  -- A candidate of a name has a word. It is the whole name, or the name without a leading "the", or
  -- what stands before its colon or dash, and only then wants the exact year.
  abbrev pub IsSpelling : Text → Candidate → Type 0
  IsSpelling name c =
      (is_empty c.0 ≡ false)
      × (((c.0 ≡ title_tokens uni name) × (c.1 ≡ false))
          ⊎ ((codes "the" ∷ c.0 ≡ title_tokens uni name) × (c.1 ≡ false))
          ⊎ ((short : Text) × (short_of name ≡ some short)
              × (c.0 ≡ title_tokens uni short)
              × (c.1 ≡ true)))

  -- A candidate of one of the names.
  abbrev pub IsName : List Text → Candidate → Type 0
  IsName names c = (name : Text) × IsIn name names × IsSpelling name c

  push-IsName :
      (names : List Text) (out : List Candidate) (tokens : List Text) (y : Bool)
      → All (IsName names) out
      → (is_empty tokens ≡ false → IsName names (tokens, y))
      → All (IsName names) (push out tokens y)
  push-IsName names out tokens y h f = elim (push-cases out tokens y) [
    | inl e ↦ rw e h
    | inr (some_word, e) ↦
        rw e (All-append (IsName names) out ((tokens, y) ∷ []) h (f some_word, tt))
  ]

  push_without_the-IsName :
      (names : List Text) (out : List Candidate) (name : Text) (full : List Text)
      → full ≡ title_tokens uni name
      → IsIn name names
      → All (IsName names) out
      → All (IsName names) (push_without_the out full)
  unfolding push_without_the
  push_without_the-IsName names out name [] same k h = h
  push_without_the-IsName names out name (t ∷ full) same k h =
      elim (Bool-cases (text_eq t (codes "the"))) [
        | inl e ↦
            let the : codes "the" ∷ full ≡ title_tokens uni name =
              rw (sym (text_eq_sound t (codes "the") e)) same in
            rw (push_without_the, e)
              (push-IsName names out full false h
                (λ some_word. (name, k, (some_word, inr (inl (the, refl))))))
        | inr e ↦ rw (push_without_the, e) h
      ]

  push_name-IsName :
      (names : List Text) (out : List Candidate) (name : Text)
      → IsIn name names
      → All (IsName names) out
      → All (IsName names) (push_name uni out name)
  unfolding push_name
  push_name-IsName names out name k h =
      let full = title_tokens uni name in
      let whole =
        push-IsName names out full false h
          (λ some_word. (name, k, (some_word, inl (refl, refl)))) in
      let both = push_without_the-IsName names (push out full false) name full refl k whole in
      elim (Option-cases (short_of name)) [
        | inl e ↦ rw (push_name, e) both
        | inr (short, e) ↦
            rw (push_name, e)
              (push-IsName names _ (title_tokens uni short) true both
                (λ some_word. (name, k, (some_word, inr (inr (short, e, refl, refl))))))
      ]

  push_names-IsName :
      (names : List Text) (out : List Candidate) (rest : List Text)
      → All (λ name. IsIn name names) rest
      → All (IsName names) out
      → All (IsName names) (push_names uni out rest)
  unfolding push_names
  push_names-IsName names out [] k h = h
  push_names-IsName names out (name ∷ rest) k h =
      push_names-IsName names (push_name uni out name) rest k.1
        (push_name-IsName names out name k.0 h)

  pub candidates-IsName :
      (t : SearchTarget) → All (IsName (t.title ∷ t.alt_titles)) (candidates uni t)
  unfolding candidates
  candidates-IsName t =
      push_names-IsName (t.title ∷ t.alt_titles) [] (t.title ∷ t.alt_titles)
        (inl refl, each t.alt_titles t.alt_titles (λ x h. inr h)) tt
    where
      each :
          (names rest : List Text)
          → ((x : Text) → IsIn x rest → IsIn x (t.title ∷ names))
          → All (λ name. IsIn name (t.title ∷ names)) rest
      each names [] f = tt
      each names (x ∷ rest) f = (f x (inl refl), each names rest (λ y h. f y (inr h)))

  -- The title itself stays a candidate.
  pub title-IsIn :
      (t : SearchTarget)
      → is_empty (title_tokens uni t.title) ≡ false
      → IsIn (title_tokens uni t.title, false) (candidates uni t)
  unfolding candidates push_names
  title-IsIn t h =
      IsIn-push_names _ uni _ t.alt_titles
        (IsIn-push_name _ uni [] t.title (first_pushed (title_tokens uni t.title) h))

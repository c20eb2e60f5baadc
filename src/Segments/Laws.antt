-- ===== src/Segments/Laws.antt =====
-- The segments against the spans that they are made of.
use peanut_butter.Prelude.{
  ◌≡◌, refl, sym, ap, ◌∙◌, false, Option, none, some, List, [], ◌∷◌, ◌++◌, append_assoc, append-nil,
  if◌then◌else◌, All, All-append, Bool-cases, inl, inr, ℤ, pos, ◌≤ℤ◌, leb_ℤ, pos_part, unwrap_or,
  arith,
}
use peanut_butter.Segments.{
  RawSpan, SegmentKind, NormalizedSegment, MediaTimestamps, end_of, push_span, push_kind,
  normalized,
}

-- The segment of one span, if it has one: the start is at least zero, a negative end is no end, and
-- an end that is no later than the start is that of no segment.
segment_at : SegmentKind → ℤ → Option ℤ → List NormalizedSegment
segment_at kind start none = record { kind = kind; start_ms = start; end_ms = none } ∷ []
segment_at kind start (some end) =
    if leb_ℤ end start then [] else record { kind = kind; start_ms = start; end_ms = some end } ∷ []

-- The segments of the spans of a kind.
unfoldable pub segments_of : SegmentKind → List RawSpan → List NormalizedSegment
unfolding segment_at end_of
segments_of kind [] = []
segments_of kind (span ∷ spans) =
    segment_at kind (pos (pos_part (unwrap_or span.start_ms (pos 0)))) (end_of span.end_ms)
    ++ segments_of kind spans

push_span_lem :
    (out : List NormalizedSegment) (kind : SegmentKind) (start : ℤ) (end : Option ℤ)
    → push_span out kind start end ≡ out ++ segment_at kind start end
unfolding push_span segment_at
push_span_lem out kind start none = refl
push_span_lem out kind start (some end) = elim (Bool-cases (leb_ℤ end start)) [
  | inl e ↦ rw (push_span, segment_at, e) (sym (append-nil out))
  | inr e ↦ rw (push_span, segment_at, e) refl
]

push_kind_lem :
    (out : List NormalizedSegment) (kind : SegmentKind) (spans : List RawSpan)
    → push_kind out kind spans ≡ out ++ segments_of kind spans
unfolding push_kind segments_of
push_kind_lem out kind [] = sym (append-nil out)
push_kind_lem out kind (span ∷ spans) =
    let start = pos (pos_part (unwrap_or span.start_ms (pos 0))) in
    let end = end_of span.end_ms in
    push_kind_lem (push_span out kind start end) kind spans
    ∙ ap (λ l. l ++ segments_of kind spans) (push_span_lem out kind start end)
    ∙ append_assoc out (segment_at kind start end) (segments_of kind spans)

-- It starts in the media, and ends later than it starts if it has an end.
abbrev pub EndsLater : ℤ → Option ℤ → Type 0
EndsLater start none = Unit
EndsLater start (some end) = leb_ℤ end start ≡ false

abbrev pub IsSegment : NormalizedSegment → Type 0
IsSegment s = (pos 0 ≤ℤ s.start_ms) × EndsLater s.start_ms s.end_ms

segment_at-IsSegment :
    (kind : SegmentKind) (start : ℤ) (end : Option ℤ)
    → pos 0 ≤ℤ start
    → All IsSegment (segment_at kind start end)
unfolding segment_at
segment_at-IsSegment kind start none h = ((h, tt), tt)
segment_at-IsSegment kind start (some end) h = elim (Bool-cases (leb_ℤ end start)) [
  | inl e ↦ rw (segment_at, e) tt
  | inr e ↦ rw (segment_at, e) ((h, e), tt)
]

segments_of-IsSegment :
    (kind : SegmentKind) (spans : List RawSpan) → All IsSegment (segments_of kind spans)
unfolding segments_of
segments_of-IsSegment kind [] = tt
segments_of-IsSegment kind (span ∷ spans) =
    All-append IsSegment _ (segments_of kind spans)
      (segment_at-IsSegment kind (pos (pos_part (unwrap_or span.start_ms (pos 0))))
        (end_of span.end_ms) (omega arith))
      (segments_of-IsSegment kind spans)

-- The segments are those of the intros, the recaps, the previews and the credits, in this order,
-- each of its own span and none lost but those that end no later than they start; each starts at
-- zero or later and ends, if at all, later than it starts.
pub normalized_lem :
    (t : MediaTimestamps)
    → (normalized t
        ≡ segments_of SegmentKind.intro t.intro
          ++ (segments_of SegmentKind.recap t.recap
              ++ (segments_of SegmentKind.preview t.preview
                  ++ segments_of SegmentKind.credits t.credits)))
      × All IsSegment (normalized t)
unfolding normalized
normalized_lem t =
    let i = segments_of SegmentKind.intro t.intro in
    let r = segments_of SegmentKind.recap t.recap in
    let p = segments_of SegmentKind.preview t.preview in
    let c = segments_of SegmentKind.credits t.credits in
    let parts : normalized t ≡ i ++ (r ++ (p ++ c)) =
      push_kind_lem _ SegmentKind.credits t.credits
      ∙ ap (λ l. l ++ c)
          (push_kind_lem _ SegmentKind.preview t.preview
            ∙ ap (λ l. l ++ p)
                (push_kind_lem _ SegmentKind.recap t.recap
                  ∙ ap (λ l. l ++ r) (push_kind_lem [] SegmentKind.intro t.intro)))
      ∙ append_assoc (i ++ r) p c
      ∙ append_assoc i r (p ++ c) in
    (
      parts,
      rw parts (
          All-append IsSegment i _ (segments_of-IsSegment SegmentKind.intro t.intro) (
            All-append IsSegment r _ (segments_of-IsSegment SegmentKind.recap t.recap) (
              All-append IsSegment p c (segments_of-IsSegment SegmentKind.preview t.preview)
                (segments_of-IsSegment SegmentKind.credits t.credits)))),
    )

-- ===== src/Segments.antt =====
-- backend/src/introdb.rs: the parts of an episode that a player may skip.
pub mod Laws
mod Tests
use peanut_butter.Prelude.{
  Bool, Option, none, some, List, [], ◌∷◌, ◌++◌, if◌then◌else◌, ℤ, pos, leb_ℤ, pos_part, unwrap_or,
}
use peanut_butter.Text.{Text, codes}

-- No start is the start of the media, no end is its end.
pub record RawSpan : Type 0 where
  pub start_ms : Option ℤ
  pub end_ms : Option ℤ

pub data SegmentKind : Type 0 where
  intro : SegmentKind
  recap : SegmentKind
  credits : SegmentKind
  preview : SegmentKind

unfoldable pub as_str : SegmentKind → Text
as_str SegmentKind.intro = codes "INTRO"
as_str SegmentKind.recap = codes "RECAP"
as_str SegmentKind.credits = codes "CREDITS"
as_str SegmentKind.preview = codes "PREVIEW"

unfoldable pub skip_label : SegmentKind → Text
skip_label SegmentKind.intro = codes "Skip Intro"
skip_label SegmentKind.recap = codes "Skip Recap"
skip_label SegmentKind.credits = codes "Skip Credits"
skip_label SegmentKind.preview = codes "Skip Preview"

pub record NormalizedSegment : Type 0 where
  pub kind : SegmentKind
  pub start_ms : ℤ
  pub end_ms : Option ℤ

-- The fields of `MediaTimestamps` that hold spans.
pub record MediaTimestamps : Type 0 where
  pub intro : List RawSpan
  pub recap : List RawSpan
  pub credits : List RawSpan
  pub preview : List RawSpan

-- `filter(|e| *e >= 0)`.
unfoldable pub end_of : Option ℤ → Option ℤ
end_of none = none
end_of (some e) = if leb_ℤ (pos 0) e then some e else none

-- One round: a span that is empty or inverted is left out.
unfoldable pub push_span :
    List NormalizedSegment → SegmentKind → ℤ → Option ℤ → List NormalizedSegment
push_span out kind start none = out ++ record { kind = kind; start_ms = start; end_ms = none } ∷ []
push_span out kind start (some end) =
    if leb_ℤ end start
    then out
    else out ++ record { kind = kind; start_ms = start; end_ms = some end } ∷ []

unfoldable pub push_kind :
    List NormalizedSegment → SegmentKind → List RawSpan → List NormalizedSegment
unfolding end_of push_span
push_kind out kind [] = out
push_kind out kind (span ∷ spans) =
    push_kind
      (push_span out kind (pos (pos_part (unwrap_or span.start_ms (pos 0)))) (end_of span.end_ms))
      kind spans

unfoldable pub normalized : MediaTimestamps → List NormalizedSegment
unfolding push_kind
normalized t =
    push_kind
      (push_kind (push_kind (push_kind [] SegmentKind.intro t.intro) SegmentKind.recap t.recap)
        SegmentKind.preview t.preview)
      SegmentKind.credits t.credits

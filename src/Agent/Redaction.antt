-- ===== src/Agent/Redaction.antt =====
-- `redact` of src/moc/agent/guards.py: the spans that the patterns match, and the text without them.
-- A text is its list of code points. `finditer` is the regular expression engine, on the text with its
-- digits normalized, and `placeholder` is the configured text that names a label.
pub mod Spans
mod Tests
use moreofchat.Prelude.{
  ℕ, ◌-◌, String, Bool, true, false, ◌&&◌, ◌||◌, List, [], ◌∷◌, ◌++◌, ltb, leb, ◌==◌, any, take,
  drop, map, if◌then◌else◌,
}

pub record Span : Type 0 where
  pub start : ℕ
  pub end : ℕ
  pub label : String

unfoldable pub overlaps : Span → Span → Bool
overlaps m taken = ltb m.start taken.end && ltb taken.start m.end

-- A match that overlaps a span taken before is passed over.
unfoldable pub add_match : List Span → Span → List Span
add_match spans m = if any (overlaps m) spans then spans else spans ++ (m ∷ [])

unfoldable pub collect : List Span → List Span → List Span
collect spans [] = spans
collect spans (m ∷ matches) = collect (add_match spans m) matches

-- `spans.sort()`: two spans taken have different starts.
unfoldable pub insert_span : Span → List Span → List Span
insert_span m [] = m ∷ []
insert_span m (s ∷ spans) =
    let rest = insert_span m spans in if leb m.start s.start then m ∷ (s ∷ spans) else s ∷ rest

unfoldable pub sort_spans : List Span → List Span
sort_spans [] = []
sort_spans (m ∷ spans) = insert_span m (sort_spans spans)

module _ (placeholder : String → List ℕ) where
  -- The pieces of the text between the spans, each span replaced.
  unfoldable pub rebuild : List ℕ → ℕ → List Span → List ℕ
  rebuild text cursor [] = drop cursor text
  rebuild text cursor (s ∷ spans) =
      take (s.start - cursor) (drop cursor text)
      ++ (placeholder s.label ++ rebuild text s.end spans)

  module _ {P : Type 0} (finditer : P → List ℕ → List Span)
      (normalize_digits : List ℕ → List ℕ) where
    unfoldable pub matches_of : List P → List ℕ → List Span
    matches_of [] normalized = []
    matches_of (p ∷ patterns) normalized = finditer p normalized ++ matches_of patterns normalized

    unfoldable pub redact : List P → List ℕ → List ℕ × List String
    redact patterns text =
        let spans = sort_spans (collect [] (matches_of patterns (normalize_digits text))) in
        (rebuild text 0 spans, map (λ s. s.label) spans)

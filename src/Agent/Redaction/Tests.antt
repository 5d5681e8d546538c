-- ===== src/Agent/Redaction/Tests.antt =====
-- Redaction run on ten code points, with two patterns that overlap and one that matches before them.
use moreofchat.Prelude.{ℕ, ◌≡◌, refl, String, List, [], ◌∷◌}
use moreofchat.Agent.Redaction.{
  Span, overlaps, add_match, collect, insert_span, sort_spans, rebuild, matches_of, redact,
}

abbrev span : ℕ → ℕ → String → Span
span start end label = record { start = start; end = end; label = label }

abbrev found : List Span
found = span 4 7 "phone" ∷ (span 5 8 "student_id" ∷ (span 0 2 "national_id" ∷ []))

-- A pattern is the list of its matches.
redact_run :
    redact
      (λ label. 99 ∷ [])
      (λ pattern text. pattern)
      (λ text. text)
      ((span 4 7 "phone" ∷ []) ∷ ((span 5 8 "student_id" ∷ (span 0 2 "national_id" ∷ [])) ∷ []))
      (0 ∷ (1 ∷ (2 ∷ (3 ∷ (4 ∷ (5 ∷ (6 ∷ (7 ∷ (8 ∷ (9 ∷ []))))))))))
    ≡ (99 ∷ (2 ∷ (3 ∷ (99 ∷ (7 ∷ (8 ∷ (9 ∷ [])))))), "national_id" ∷ ("phone" ∷ []))
unfolding redact matches_of collect add_match overlaps sort_spans insert_span rebuild
redact_run = refl

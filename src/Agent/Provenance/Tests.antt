-- ===== src/Agent/Provenance/Tests.antt =====
-- The trace of a short reply (src/moc/agent/provenance.py).
use moreofchat.Prelude.{◌≡◌, none, some, List, [], ◌∷◌, map, is_empty, all}
use moreofchat.Str.{Text}
use moreofchat.Arabic.Numerals.{Ratio, normalize_digits}
use moreofchat.Arabic.Numerals.Samples.{unicode, lexicon}
use moreofchat.Agent.Guards.{Numerals, check_numeric_grounding}
use moreofchat.Agent.Guards.Reading.{arabic_numerals}
use moreofchat.Agent.Provenance.{Passage, Row, trace_figures}
use moreofchat.Agent.Provenance.Agreement.{trace_figures-agrees}

abbrev numerals : Numerals Ratio Text
numerals = arabic_numerals unicode lexicon (λ values. values)

abbrev readable : Ratio → Text
readable r = (r.num ∷ [])

-- "1400 12"
abbrev reply : Text
reply = 49 ∷ 52 ∷ 48 ∷ 48 ∷ 32 ∷ 49 ∷ 50 ∷ []

abbrev passages : List Passage
passages =
    record { chunk_id = 99 ∷ []; content = 49 ∷ 44 ∷ 52 ∷ 48 ∷ 48 ∷ []; title = none; as_of = none }
    ∷ []

abbrev rows : List (Row Ratio)
rows =
    record {
      unit_id = 117 ∷ [];
      values = (112 ∷ [], some (record { num = 12; den = 1 })) ∷ ((113 ∷ [], none) ∷ []);
      title = none;
      as_of = none;
    }
    ∷ []

trace_figures-agrees_example :
    is_empty
      (check_numeric_grounding numerals reply (map (λ p. p.content) passages) []).orphan_numbers
    ≡ all
        (λ f. f.grounded)
        (trace_figures numerals readable (normalize_digits lexicon) reply passages [] [] [])
trace_figures-agrees_example =
    trace_figures-agrees numerals readable (normalize_digits lexicon) reply passages []

-- ===== src/Agent/Guards/Tests.antt =====
-- The gates run on a reply kept as its figures, each hedged or not.
use moreofchat.Prelude.{
  Bool, false, ℕ, ◌==◌, String, ◌≡◌, refl, ◌↔◌, true, ◌&&◌, List, [], ◌∷◌, not, map, All,
}
use moreofchat.Str.{Text}
use moreofchat.Arabic.Numerals.{normalize_digits}
use moreofchat.Arabic.Numerals.Samples.{unicode, lexicon, lexicon-IsClosed}
use moreofchat.Agent.Guards.Reading.{arabic_numerals, check_numeric_grounding-normalize_digits}
use moreofchat.Agent.Guards.{
  Quantity, Constant, figure, Numerals, check_numeric_grounding, unique, collect_sources,
  of_passages, of_constants, of_constant, orphans_of, hedged_of, is_grounded,
}
use moreofchat.Agent.Guards.Gates.{stated, grounding-passes}

abbrev Reply : Type 0
Reply = List (ℕ × Bool)

abbrev fee : ℕ → ℕ × Bool
fee value = (value, false)

abbrev about : ℕ → ℕ × Bool
about value = (value, true)

abbrev to_quantity : ℕ × Bool → Quantity ℕ Reply
to_quantity f = record { value = f.0; raw = f ∷ []; approximate = f.1 }

abbrev numerals : Numerals ℕ Reply
numerals = record {
  same = λ a b. a == b;
  extract_quantities = λ reply. map to_quantity reply;
  extract_numbers = λ text. map (λ (f : ℕ × Bool). f.0) text;
  sort = λ values. values;
}

abbrev passages : List Reply
passages = (fee 1400 ∷ []) ∷ ((fee 2000 ∷ (fee 3 ∷ [])) ∷ [])

abbrev constants : List (Constant ℕ Reply)
constants = figure 500 ∷ []

hedged_and_orphan :
    check_numeric_grounding numerals (fee 1400 ∷ (about 500 ∷ (about 7 ∷ []))) passages constants
    ≡ record {
      passed = false;
      orphan_numbers = 7 ∷ [];
      hedged_numbers = 500 ∷ [];
      reply_numbers = 1400 ∷ (500 ∷ (7 ∷ []));
      source_numbers = 1400 ∷ (2000 ∷ (3 ∷ (500 ∷ [])));
    }
unfolding check_numeric_grounding orphans_of hedged_of is_grounded collect_sources unique
    of_passages of_constants of_constant
hedged_and_orphan = refl

grounding-passes_example :
    ((check_numeric_grounding numerals (fee 1400 ∷ (fee 500 ∷ [])) passages constants).passed
      ≡ true)
    ↔ All
        (λ (q : Quantity ℕ Reply).
          (stated numerals q.value passages constants && not q.approximate) ≡ true)
        (map to_quantity (fee 1400 ∷ (fee 500 ∷ [])))
grounding-passes_example = grounding-passes numerals (fee 1400 ∷ (fee 500 ∷ [])) passages constants

abbrev units : List (String × String)
units = ("u1", "chalet") ∷ (("u2", "townhouse") ∷ [])

-- "1,400" in Arabic digits.
abbrev written : Text
written = 1633 ∷ 1644 ∷ 1636 ∷ 1632 ∷ 1632 ∷ []

check_numeric_grounding-normalize_digits_example :
    check_numeric_grounding
      (arabic_numerals unicode lexicon (λ values. values))
      (normalize_digits lexicon written)
      ((49 ∷ 52 ∷ 48 ∷ 48 ∷ []) ∷ [])
      []
    ≡ check_numeric_grounding
        (arabic_numerals unicode lexicon (λ values. values))
        written
        ((49 ∷ 52 ∷ 48 ∷ 48 ∷ []) ∷ [])
        []
check_numeric_grounding-normalize_digits_example =
    check_numeric_grounding-normalize_digits unicode lexicon (λ values. values) written
      ((49 ∷ 52 ∷ 48 ∷ 48 ∷ []) ∷ []) [] lexicon-IsClosed

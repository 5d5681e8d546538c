-- ===== src/Agent/Guards/Reading.antt =====
-- The gates with the reader of Arabic numbers (src/moc/agent/guards.py, src/moc/arabic/numerals.py).
use moreofchat.Prelude.{◌≡◌, List, map}
use moreofchat.Str.{Text}
use moreofchat.Arabic.Numerals.{Ratio, Lexicon, Unicode, ratio_eq, normalize_digits}
use moreofchat.Arabic.Numerals as Arabic
use moreofchat.Arabic.Numerals.Scan.{extract_quantities, extract_numbers}
use moreofchat.Arabic.Numerals.Digits.{IsClosed, extract_quantities-normalize_digits}
use moreofchat.Agent.Guards.{Quantity, Constant, Numerals, check_numeric_grounding}

abbrev of_quantity : Arabic.Quantity → Quantity Ratio Text
of_quantity q = record { value = q.value; raw = q.raw; approximate = q.approximate }

-- What the gates read numbers with; `sort` is `sorted`.
abbrev pub arabic_numerals : Unicode → Lexicon → (List Ratio → List Ratio) → Numerals Ratio Text
arabic_numerals u lex sort = record {
  same = ratio_eq;
  extract_quantities = λ text. map of_quantity (extract_quantities u lex text);
  extract_numbers = extract_numbers u lex;
  sort = sort;
}

-- The grounding gate gives the same verdict, orphans and hedges on a reply written in Arabic digits as
-- on the same reply in Latin digits, whatever the passages and constants are.
pub check_numeric_grounding-normalize_digits :
    (u : Unicode) (lex : Lexicon) (sort : List Ratio → List Ratio) (reply : Text)
    (passages : List Text) (constants : List (Constant Ratio Text))
    → IsClosed lex.digit_map lex.digit_map
    → check_numeric_grounding
        (arabic_numerals u lex sort)
        (normalize_digits lex reply)
        passages
        constants
      ≡ check_numeric_grounding (arabic_numerals u lex sort) reply passages constants
unfolding check_numeric_grounding
check_numeric_grounding-normalize_digits u lex sort reply passages constants closed =
    rw (extract_quantities-normalize_digits u lex reply closed).1

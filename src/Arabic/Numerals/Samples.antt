-- ===== src/Arabic/Numerals/Samples.antt =====
-- Digits, separators and a few words of the configuration, to run the reader of numbers on
-- (src/config/arabic/numerals.yaml has the full lists).
use moreofchat.Prelude.{ℕ, Bool, ◌&&◌, ◌||◌, ◌-◌, [], ◌∷◌, leb, refl, if◌then◌else◌}
use Prim.{tt}
use moreofchat.Arabic.Numerals.{Unicode, Lexicon, map_digit}
use moreofchat.Arabic.Numerals.Digits.{IsClosed}

abbrev latin_digit : ℕ → Bool
latin_digit c = leb 48 c && leb c 57

abbrev arabic_digit : ℕ → Bool
arabic_digit c = leb 1632 c && leb c 1641

abbrev pub unicode : Unicode
unicode = record {
  is_decimal = λ c. latin_digit c || arabic_digit c;
  digit_value = λ c. if arabic_digit c then c - 1632 else c - 48;
  is_alpha = λ c. (leb 65 c && leb c 90) || (leb 97 c && leb c 122);
  fold = λ s. s;
}

abbrev pub lexicon : Lexicon
lexicon = record {
  digit_map =
      (1632, 48)
      ∷ (1633, 49)
      ∷ (1634, 50)
      ∷ (1635, 51)
      ∷ (1636, 52)
      ∷ (1637, 53)
      ∷ (1638, 54)
      ∷ (1639, 55)
      ∷ (1640, 56)
      ∷ (1641, 57)
      ∷ [];
  thousands = 44 ∷ 1644 ∷ [];
  decimals = 46 ∷ 1643 ∷ [];
  separators = 44 ∷ 1644 ∷ 46 ∷ 1643 ∷ [];
  group_size = 3;
  trim = 46 ∷ 44 ∷ [];
  list_markers = 46 ∷ 41 ∷ [];
  list_marker_max_digits = 2;
  line_prefixes = 42 ∷ 45 ∷ [];
  units = [];
  fractions = [];
  conjunctions = [];
  ordinals = [];
  floors = [];
  places = [];
  forms = [];
  durations = [];
  approximations = [];
  currencies = ((69 ∷ 71 ∷ 80 ∷ []) ∷ []) ∷ [];
  percents = (37 ∷ []) ∷ [];
  counts = [];
  year_min = 1990;
  year_max = 2060;
  year_digits = 4;
  year_markers = [];
}

pub lexicon-IsClosed : IsClosed lexicon.digit_map lexicon.digit_map
unfolding map_digit
lexicon-IsClosed =
    (refl, (refl, (refl, (refl, (refl, (refl, (refl, (refl, (refl, (refl, tt))))))))))

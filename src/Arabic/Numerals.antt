-- ===== src/Arabic/Numerals.antt =====
-- src/moc/arabic/numerals.py: the quantities that a text states. The lexicon is the record of what the
-- code reads of its configuration, with the words already folded; a float is a fraction of whole
-- numbers. `Unicode` is the character data of the standard library.
pub mod Parse
pub mod Scan
pub mod Digits
pub mod Grouping
pub mod Samples
mod Tests
use moreofchat.Prelude.{
  ℕ, ◌+◌, ◌*◌, ◌%◌, Bool, true, false, Option, none, some, List, [], ◌∷◌, ◌==◌, if◌then◌else◌,
}
use moreofchat.Str.{Text}

-- `num / den`, with `den` not zero.
pub record Ratio : Type 0 where
  pub num : ℕ
  pub den : ℕ

unfoldable pub ratio_eq : Ratio → Ratio → Bool
ratio_eq a b = a.num * b.den == b.num * a.den

unfoldable pub add_ratio : Ratio → Ratio → Ratio
add_ratio a b = record { num = a.num * b.den + b.num * a.den; den = a.den * b.den }

-- `value == int(value)`
unfoldable pub is_whole : Ratio → Bool
is_whole a = a.num % a.den == 0

pub data QuantityKind : Type 0 where
  bare currency percent count : QuantityKind

pub record Quantity : Type 0 where
  pub value : Ratio
  pub kind : QuantityKind
  pub raw : Text
  pub approximate : Bool

pub record Unicode : Type 0 where
  pub is_decimal : ℕ → Bool
  pub digit_value : ℕ → ℕ
  pub is_alpha : ℕ → Bool
  pub fold : Text → Text

pub record Lexicon : Type 0 where
  pub digit_map : List (ℕ × ℕ)
  pub thousands : Text
  pub decimals : Text
  pub separators : Text
  pub group_size : ℕ
  pub trim : Text
  pub list_markers : Text
  pub list_marker_max_digits : ℕ
  pub line_prefixes : Text
  pub units : List (Text × ℕ)
  pub fractions : List (Text × Ratio)
  pub conjunctions : List Text
  pub ordinals : List Text
  pub floors : List Text
  pub places : List Text
  pub forms : List Text
  pub durations : List Text
  pub approximations : List (List Text)
  pub currencies : List (List Text)
  pub percents : List Text
  pub counts : List Text
  pub year_min : ℕ
  pub year_max : ℕ
  pub year_digits : ℕ
  pub year_markers : List Text

-- `digit_map.get(c, c)`
unfoldable pub map_digit : List (ℕ × ℕ) → ℕ → ℕ
map_digit [] c = c
map_digit ((glyph, latin) ∷ rest) c =
    let later = map_digit rest c in if c == glyph then latin else later

unfoldable pub normalize_digits : Lexicon → Text → Text
normalize_digits lex [] = []
normalize_digits lex (c ∷ rest) = map_digit lex.digit_map c ∷ normalize_digits lex rest

-- ===== src/Arabic/Script.antt =====
-- src/moc/arabic/script.py: the language of a text by its letters, and Arabic in Latin letters.
pub mod Dominant
mod Tests
use moreofchat.Prelude.{
  ℕ, ◌+◌, ◌<◌, String, str_eq, Bool, true, false, ◌&&◌, ◌||◌, Option, none, some, List, [], ◌∷◌,
  leb, ltb, ◌==◌, if◌then◌else◌, not, any, keep, is_empty, length, map,
}
use moreofchat.Str.{Text, contains_char, one_of, split_at}

-- A language and the ranges of its letters.
pub record Scripts : Type 0 where
  pub languages : List (String × List (ℕ × ℕ))
  pub franco_markers : List Text

unfoldable pub in_ranges : List (ℕ × ℕ) → ℕ → Bool
in_ranges ranges point = any (λ (r : ℕ × ℕ). leb r.0 point && leb point r.1) ranges

unfoldable pub zero_counts : List (String × List (ℕ × ℕ)) → List (String × ℕ)
zero_counts languages = map (λ (l : String × List (ℕ × ℕ)). (l.0, 0)) languages

-- One more for the first language that has the letter.
unfoldable pub tally : List (String × List (ℕ × ℕ)) → ℕ → List (String × ℕ) → List (String × ℕ)
tally [] point counts = counts
tally (l ∷ languages) point [] = []
tally (l ∷ languages) point ((name, n) ∷ counts) =
    let others = tally languages point counts in
    if in_ranges l.1 point then (name, n + 1) ∷ counts else (name, n) ∷ others

-- `max` over the counts: the first that no other exceeds.
unfoldable pub best_of : String → ℕ → List (String × ℕ) → String × ℕ
best_of name n [] = (name, n)
best_of name n ((other, m) ∷ counts) =
    if ltb n m then best_of other m counts else best_of name n counts

unfoldable pub dominant : List (String × ℕ) → Option String
dominant [] = none
dominant ((name, n) ∷ counts) =
    let best = best_of name n counts in if best.1 == 0 then none else some best.0

module _ (is_alpha : ℕ → Bool) (scripts : Scripts) where
  unfoldable pub count_letters : Text → List (String × ℕ) → List (String × ℕ)
  count_letters [] counts = counts
  count_letters (c ∷ rest) counts =
      count_letters rest (if is_alpha c then tally scripts.languages c counts else counts)

  unfoldable pub script_counts : Text → List (String × ℕ)
  script_counts text = count_letters text (zero_counts scripts.languages)

  unfoldable pub detect_language : Text → Option String
  detect_language text = dominant (script_counts text)

  abbrev franco_tokens : ℕ
  franco_tokens = 2

  -- "2345789"
  abbrev franco_digits : Text
  franco_digits = 50 ∷ 51 ∷ 52 ∷ 53 ∷ 55 ∷ 56 ∷ 57 ∷ []

  unfoldable pub is_ascii_alnum : ℕ → Bool
  is_ascii_alnum c = (leb 48 c && leb c 57) || (leb 65 c && leb c 90) || (leb 97 c && leb c 122)

  unfoldable pub letter_first : Text → Bool
  letter_first [] = false
  letter_first (c ∷ rest) = is_alpha c

  -- A digit that stands for a consonant touches a letter; `before` is what precedes it, or nothing.
  unfoldable pub has_substitute : Text → Text → Bool
  has_substitute before [] = false
  has_substitute before (c ∷ rest) =
      (contains_char franco_digits c && (letter_first before || letter_first rest))
      || has_substitute (c ∷ []) rest

  unfoldable pub is_substituted : Text → Bool
  is_substituted token =
      not (ltb (length token) franco_tokens) && any is_alpha token && has_substitute [] token

  unfoldable pub lower : ℕ → ℕ
  lower c = if leb 65 c && leb c 90 then c + 32 else c

  unfoldable pub is_english : Option String → Bool
  is_english none = false
  is_english (some l) = str_eq l "en"

  unfoldable pub is_franco : Text → Bool
  is_franco text =
      let tokens = keep (λ t. not (is_empty t)) (split_at (λ c. not (is_ascii_alnum c)) text) in
      is_english (detect_language text)
      && (leb franco_tokens (length (keep is_substituted tokens))
          || leb franco_tokens
              (length (keep (λ t. one_of scripts.franco_markers (map lower t)) tokens)))

  unfoldable pub reply_language : Text → Option String
  reply_language text = if is_franco text then some "ar" else detect_language text

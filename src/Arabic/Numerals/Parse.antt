-- ===== src/Arabic/Numerals/Parse.antt =====
-- A number with its separators, and what is welded to it (src/moc/arabic/numerals.py).
use moreofchat.Prelude.{
  ℕ, ◌+◌, ◌*◌, Bool, false, ◌&&◌, ◌||◌, Option, none, some, List, [], ◌∷◌, ◌++◌, ltb, ◌==◌,
  if◌then◌else◌, not, any, all, keep, is_empty, length, reverse, concat, is_some,
}
use moreofchat.Str.{
  Text, contains_char, text_eq, one_of, take_while, drop_while, split_at, is_space,
}
use moreofchat.Arabic.Numerals.{Ratio, Lexicon, Unicode}

-- A lookup in a list of folded words.
unfoldable pub find_word {ℓ} : {A : Type ℓ} → Text → List (Text × A) → Option A
find_word w [] = none
find_word w ((v, a) ∷ rest) = let later = find_word w rest in if text_eq w v then some a else later

unfoldable pub rstrip_of : Text → Text → Text
rstrip_of set s = reverse (drop_while (contains_char set) (reverse s))

unfoldable pub strip_of : Text → Text → Text
strip_of set s = rstrip_of set (drop_while (contains_char set) s)

unfoldable pub shave : Lexicon → Text → Text
shave lex token = rstrip_of lex.separators (strip_of lex.trim token)

module _ (u : Unicode) (lex : Lexicon) where
  -- The digit run with its separators at the front of a token.
  unfoldable pub in_body : ℕ → Bool
  in_body c = u.is_decimal c || contains_char lex.separators c

  unfoldable pub no_digits : Text → Bool
  no_digits suffix = all (λ c. not (u.is_decimal c || is_space c)) suffix

  -- `_number_pattern().fullmatch`: the body and the suffix.
  unfoldable pub match_number : Text → Option (Text × Text)
  match_number [] = none
  match_number (c ∷ rest) =
      let suffix = drop_while in_body rest in
      if u.is_decimal c && no_digits suffix
      then some (c ∷ take_while in_body rest, suffix)
      else none

  unfoldable pub natural_from : ℕ → Text → ℕ
  natural_from acc [] = acc
  natural_from acc (c ∷ rest) = natural_from (acc * 10 + u.digit_value c) rest

  unfoldable pub power_of_ten : Text → ℕ
  power_of_ten [] = 1
  power_of_ten (c ∷ rest) = 10 * power_of_ten rest

  unfoldable pub whole : Text → Ratio
  whole digits = record { num = natural_from 0 digits; den = 1 }

  unfoldable pub is_grouped : List Text → Bool
  is_grouped groups = not (is_empty groups) && all (λ g. length g == lex.group_size) groups

  -- `f"{head}.{rest[0]}"` as a float, where one separator stands in the body.
  unfoldable pub decimal : Text → List Text → Option Ratio
  decimal head [] = none
  decimal head (fraction ∷ others) =
      some (record { num = natural_from 0 (head ++ fraction); den = power_of_ten fraction })

  unfoldable pub from_groups : Text → List Text → Option Ratio
  from_groups found [] = none
  from_groups found (head ∷ rest) =
      if is_grouped rest && all (contains_char lex.thousands) found
      then some (whole (head ++ concat rest))
      else if length found == 1 && all (contains_char lex.decimals) found
      then decimal head rest
      else none

  unfoldable pub parse_body : Text → Option Ratio
  parse_body body =
      let found = keep (contains_char lex.separators) body in
      if is_empty body
      then none
      else if is_empty found
      then some (whole body)
      else from_groups found (split_at (contains_char lex.separators) body)

  unfoldable pub parse_number : Text → Option Ratio
  parse_number raw = parse_body (rstrip_of lex.separators raw)

  unfoldable pub is_latin_letter : ℕ → Bool
  is_latin_letter c = u.is_alpha c && ltb c 128

  unfoldable pub is_franco_consonant : Text → Bool
  is_franco_consonant suffix =
      if is_empty suffix || is_some (find_word suffix lex.units) || one_of lex.percents suffix
      then false
      else any is_latin_letter suffix

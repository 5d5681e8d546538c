-- ===== src/Arabic/Numerals/Scan.antt =====
-- Which of the numbers of a text are quantities, and of what (src/moc/arabic/numerals.py). A position
-- in a list of tokens is the folded tokens before it, nearest first, and those after it.
use moreofchat.Prelude.{
  ℕ, ◌*◌, Bool, true, false, ◌&&◌, ◌||◌, Option, none, some, List, [], ◌∷◌, ◌++◌, map, leb, ◌==◌,
  if◌then◌else◌, not, any, all, keep, is_empty, length, reverse, is_some,
}
use moreofchat.Str.{
  Text, contains_char, text_eq, one_of, take_while, drop_while, split_at, words, is_line_end,
}
use moreofchat.Arabic.Numerals.{
  Ratio, add_ratio, is_whole, QuantityKind, bare, currency, percent, count, Quantity, Lexicon,
  Unicode, normalize_digits,
}
use moreofchat.Arabic.Numerals.Parse.{
  find_word, shave, match_number, parse_number, is_franco_consonant,
}

pub record Token : Type 0 where
  pub raw : Text
  pub folded : Text
  pub marker : Bool

-- The phrase is what the words begin with.
unfoldable pub begins : List Text → List Text → Bool
begins phrase [] = is_empty phrase
begins [] (w ∷ rest) = true
begins (p ∷ phrase) (w ∷ rest) = text_eq w p && begins phrase rest

-- The first word, or the empty text.
unfoldable pub first_word : List Text → Text
first_word [] = []
first_word (w ∷ rest) = w

module _ (u : Unicode) (lex : Lexicon) where
  -- `_marker_pattern().fullmatch`
  unfoldable pub is_one_of : Text → Text → Bool
  is_one_of set [] = false
  is_one_of set (c ∷ []) = contains_char set c
  is_one_of set (c ∷ (d ∷ rest)) = false

  unfoldable pub is_list_marker : Text → Bool
  is_list_marker token =
      let digits = take_while u.is_decimal token in
      not (is_empty digits)
      && leb (length digits) lex.list_marker_max_digits
      && is_one_of lex.list_markers (drop_while u.is_decimal token)

  unfoldable pub is_prefix : Text → Bool
  is_prefix token = not (is_empty token) && all (contains_char lex.line_prefixes) token

  unfoldable pub to_token : Bool → Text → Token
  to_token marker raw = record { raw = raw; folded = u.fold (shave lex raw); marker = marker }

  -- The tokens of a line: the first that is no decoration may number an item.
  unfoldable pub line_tokens : List Text → List Token
  line_tokens [] = []
  line_tokens (w ∷ rest) =
      let later = line_tokens rest in
      if is_prefix w
      then to_token false w ∷ later
      else to_token (is_list_marker w) w ∷ map (to_token false) rest

  unfoldable pub tokens_of : List Text → List Token
  tokens_of [] = []
  tokens_of (line ∷ lines) = line_tokens (words line) ++ tokens_of lines

  unfoldable pub tokenize : Text → List Token
  tokenize text = tokens_of (split_at is_line_end text)

  -- `[conjunction] [fraction] unit` after the figure: what to add and what to multiply by.
  unfoldable pub skip_conjunction : List Text → List Text
  skip_conjunction [] = []
  skip_conjunction (w ∷ rest) = if one_of lex.conjunctions w then rest else w ∷ rest

  unfoldable pub unit_at : Ratio → List Text → Option (Ratio × ℕ)
  unit_at fraction [] = none
  unit_at fraction (w ∷ rest) = elim (find_word w lex.units) [
    | none ↦ none
    | some multiplier ↦ some (fraction, multiplier)
  ]

  unfoldable pub fraction_at : List Text → Option (Ratio × ℕ)
  fraction_at [] = none
  fraction_at (w ∷ rest) = elim (find_word w lex.fractions) [
    | none ↦ unit_at (record { num = 0; den = 1 }) (w ∷ rest)
    | some fraction ↦ unit_at fraction rest
  ]

  unfoldable pub unit_span : List Text → Option (Ratio × ℕ)
  unit_span after = fraction_at (skip_conjunction after)

  unfoldable pub times : Ratio → ℕ → Ratio
  times value multiplier = record { num = value.num * multiplier; den = value.den }

  unfoldable pub apply_units : Ratio → List Text → Text → Ratio
  apply_units value after suffix = elim (find_word suffix lex.units) [
    | some multiplier ↦ times value multiplier
    | none ↦ elim (unit_span after) [
      | none ↦ value
      | some (fraction, multiplier) ↦ times (add_ratio value fraction) multiplier
    ]
  ]

  unfoldable pub follows : List Text → List (List Text) → Bool
  follows after phrases = any (λ phrase. begins phrase after) phrases

  unfoldable pub classify : List Text → Text → QuantityKind
  classify after suffix =
      if not (is_empty suffix) && one_of lex.percents suffix
      then percent
      else if follows after lex.currencies
      then currency
      else if one_of lex.percents (first_word after)
      then percent
      else if one_of lex.counts (first_word after)
      then count
      else bare

  unfoldable pub is_bare : QuantityKind → Bool
  is_bare bare = true
  is_bare currency = false
  is_bare percent = false
  is_bare count = false

  unfoldable pub in_years : Text → Ratio → Bool
  in_years body value =
      length (keep u.is_decimal body) == lex.year_digits
      && is_whole value
      && leb (lex.year_min * value.den) value.num
      && leb value.num (lex.year_max * value.den)

  unfoldable pub is_year : List Text → List Text → Text → Text → Ratio → Bool
  is_year before after body suffix value =
      if not (is_bare (classify after suffix)) || is_some (unit_span after)
      then false
      else (not (is_empty before) && one_of lex.year_markers (first_word before))
        || in_years body value

  unfoldable pub is_rejected : List Text → List Text → Text → Text → Ratio → Bool
  is_rejected before after body suffix value =
      one_of lex.floors (first_word before)
      || one_of lex.places (first_word before)
      || one_of lex.forms (first_word before)
      || one_of lex.durations (first_word after)
      || is_year before after body suffix value

  unfoldable pub is_approximated : List Text → Bool
  is_approximated before = any (λ marker. begins (reverse marker) before) lex.approximations

  unfoldable pub accepted : List Text → List Text → Text → Text → Text → Ratio → Option Quantity
  accepted before after raw body suffix value =
      if is_rejected before after body suffix value
      then none
      else some (record {
        value = apply_units value after suffix;
        kind = classify after suffix;
        raw = raw;
        approximate = is_approximated before;
      })

  unfoldable pub of_match : List Text → List Text → Text → Option (Text × Text) → Option Quantity
  of_match before after raw none = none
  of_match before after raw (some (body, welded)) =
      let suffix = u.fold welded in
      if is_franco_consonant u lex suffix then none else elim (parse_number u lex body) [
        | none ↦ none
        | some value ↦ accepted before after raw body suffix value
      ]

  -- The quantity that a token states, if any.
  unfoldable pub quantity_at : List Text → Token → List Text → Option Quantity
  quantity_at before t after =
      if t.marker then none else of_match before after t.raw (match_number u lex (shave lex t.raw))

  unfoldable pub collect : Option Quantity → List Quantity → List Quantity
  collect none rest = rest
  collect (some q) rest = q ∷ rest

  unfoldable pub scan : List Text → List Token → List Quantity
  scan before [] = []
  scan before (t ∷ later) =
      collect (quantity_at before t (map (λ x. x.folded) later)) (scan (t.folded ∷ before) later)

  unfoldable pub extract_quantities : Text → List Quantity
  extract_quantities text = scan [] (tokenize (normalize_digits lex text))

  unfoldable pub extract_numbers : Text → List Ratio
  extract_numbers text = map (λ q. q.value) (extract_quantities text)

  unfoldable pub contains_ordinal : Text → Bool
  contains_ordinal text = any (λ w. one_of lex.ordinals (u.fold (shave lex w))) (words text)

-- ===== src/Arabic/Numerals/Tests.antt =====
-- The reader of numbers on short texts (src/moc/arabic/numerals.py).
use moreofchat.Prelude.{◌≡◌, refl, some, [], ◌∷◌, ◌++◌, concat}
use Prim.{tt}
use moreofchat.Str.{Text, contains_char}
use moreofchat.Arabic.Numerals.Samples.{unicode, lexicon}
use moreofchat.Arabic.Numerals.Parse.{parse_number, whole}
use moreofchat.Arabic.Numerals.Grouping.{print_groups, parse_number-print_groups}

-- "1,400 EGP" in Arabic digits.
abbrev fee : Text
fee = 1633 ∷ 1644 ∷ 1636 ∷ 1632 ∷ 1632 ∷ 32 ∷ 69 ∷ 71 ∷ 80 ∷ []

-- 12,500,000
parse_number-print_groups_example :
    parse_number unicode lexicon
      (print_groups 44 (49 ∷ 50 ∷ []) ((53 ∷ 48 ∷ 48 ∷ []) ∷ (48 ∷ 48 ∷ 48 ∷ []) ∷ []))
    ≡ some (
        whole unicode lexicon
          ((49 ∷ 50 ∷ []) ++ concat ((53 ∷ 48 ∷ 48 ∷ []) ∷ (48 ∷ 48 ∷ 48 ∷ []) ∷ [])))
unfolding contains_char
parse_number-print_groups_example =
    parse_number-print_groups unicode lexicon 44 (49 ∷ 50 ∷ []) (53 ∷ 48 ∷ 48 ∷ [])
      ((48 ∷ 48 ∷ 48 ∷ []) ∷ []) refl refl refl (refl, (refl, tt))
      ((refl, (refl, (refl, (refl, tt)))), ((refl, (refl, (refl, (refl, tt)))), tt)) refl

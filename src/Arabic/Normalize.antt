-- ===== src/Arabic/Normalize.antt =====
-- src/moc/arabic/normalize.py: the form of a text that retrieval matches. The decomposition, the
-- combining marks and the case folding are the character data of the standard library.
use moreofchat.Prelude.{ℕ, Bool, Option, none, some, List, [], ◌∷◌, ◌==◌, if◌then◌else◌, not, keep}
use moreofchat.Str.{Text, words, join}
use moreofchat.Arabic.Numerals.{Lexicon, normalize_digits}

-- `table` maps a code point to another or, with `none`, to nothing.
pub record Rules : Type 0 where
  pub table : List (ℕ × Option ℕ)
  pub strip_marks : Bool
  pub casefold : Bool
  pub collapse : Bool

pub record CharacterData : Type 0 where
  pub nfd : Text → Text
  pub is_combining : ℕ → Bool
  pub casefold : Text → Text

unfoldable pub target_of : List (ℕ × Option ℕ) → ℕ → Option ℕ
target_of [] c = some c
target_of ((source, target) ∷ rest) c =
    let later = target_of rest c in if c == source then target else later

unfoldable pub put_char : Option ℕ → Text → Text
put_char none rest = rest
put_char (some c) rest = c ∷ rest

unfoldable pub translate : List (ℕ × Option ℕ) → Text → Text
translate table [] = []
translate table (c ∷ rest) = put_char (target_of table c) (translate table rest)

unfoldable pub normalize : CharacterData → Lexicon → Rules → Text → Text
normalize data_of lex rules text =
    let bare =
      if rules.strip_marks
      then keep (λ c. not (data_of.is_combining c)) (data_of.nfd text)
      else text in
    let translated = translate rules.table bare in
    let folded = if rules.casefold then data_of.casefold translated else translated in
    let latin = normalize_digits lex folded in if rules.collapse then join (words latin) else latin

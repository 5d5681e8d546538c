-- ===== src/Arabic/Numerals/Digits.antt =====
-- A text says the same in every script of digits (src/moc/arabic/numerals.py).
use moreofchat.Prelude.{
  ℕ, ◌≡◌, refl, ap, ◌⊎◌, inl, inr, List, [], ◌∷◌, ◌==◌, if-elim, length, All, arith,
}
use moreofchat.Str.{Text}
use moreofchat.Arabic.Numerals.{Lexicon, Unicode, map_digit, normalize_digits}
use moreofchat.Arabic.Numerals.Scan.{extract_quantities, tokenize, scan}

-- No Latin digit is the glyph of another: mapping what the map gives changes nothing.
abbrev pub IsClosed : List (ℕ × ℕ) → List (ℕ × ℕ) → Type 0
IsClosed m entries = All (λ (e : ℕ × ℕ). map_digit m e.1 ≡ e.1) entries

map_digit-settles :
    (m entries : List (ℕ × ℕ)) (c : ℕ)
    → IsClosed m entries
    → (map_digit entries c ≡ c) ⊎ (map_digit m (map_digit entries c) ≡ map_digit entries c)
unfolding map_digit
map_digit-settles m [] c closed = inl refl
map_digit-settles m ((glyph, latin) ∷ rest) c closed =
    if-elim (λ (d : ℕ). (d ≡ c) ⊎ (map_digit m d ≡ d)) (c == glyph) (λ hit. inr closed.0)
      (λ miss. map_digit-settles m rest c closed.1)

map_digit-twice :
    (m : List (ℕ × ℕ)) (c : ℕ) → IsClosed m m → map_digit m (map_digit m c) ≡ map_digit m c
map_digit-twice m c closed = elim (map_digit-settles m m c closed) [
  | inl same ↦ ap (map_digit m) same
  | inr settled ↦ settled
]

pub normalize_digits-length :
    (lex : Lexicon) (s : Text) → length (normalize_digits lex s) ≡ length s
unfolding normalize_digits
normalize_digits-length lex [] = refl
normalize_digits-length lex (c ∷ rest) = omega (arith, normalize_digits-length lex rest)

normalize_digits-twice :
    (lex : Lexicon) (s : Text)
    → IsClosed lex.digit_map lex.digit_map
    → normalize_digits lex (normalize_digits lex s) ≡ normalize_digits lex s
unfolding normalize_digits
normalize_digits-twice lex [] closed = refl
normalize_digits-twice lex (c ∷ rest) closed =
    cc (map_digit-twice lex.digit_map c closed, normalize_digits-twice lex rest closed)

-- Rewriting the digits of a text in Latin ones moves no character and changes none of the quantities:
-- value, kind, hedge and the text quoted are those of the original.
pub extract_quantities-normalize_digits :
    (u : Unicode) (lex : Lexicon) (s : Text)
    → IsClosed lex.digit_map lex.digit_map
    → (length (normalize_digits lex s) ≡ length s)
      × (extract_quantities u lex (normalize_digits lex s) ≡ extract_quantities u lex s)
unfolding extract_quantities
extract_quantities-normalize_digits u lex s closed = (
  normalize_digits-length lex s,
  ap (λ t. scan u lex [] (tokenize u lex t)) (normalize_digits-twice lex s closed),
)

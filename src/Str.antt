-- ===== src/Str.antt =====
-- Python's `str` as the list of its code points, with the operations that several parts of the program
-- use.
mod Tests
use moreofchat.Prelude.{
  ℕ, ◌+◌, ◌*◌, ◌-◌, Bool, true, false, ◌&&◌, ◌||◌, List, [], ◌∷◌, ◌++◌, leb, ◌==◌, if◌then◌else◌,
  not, any, is_empty, keep, reverse,
}

abbrev pub Text : Type 0
Text = List ℕ

-- `str.isspace` of one code point, which is also what `\s` matches.
unfoldable pub is_space : ℕ → Bool
is_space c =
    (leb 9 c && leb c 13)
    || (leb 28 c && leb c 32)
    || c == 133
    || c == 160
    || c == 5760
    || (leb 8192 c && leb c 8202)
    || c == 8232
    || c == 8233
    || c == 8239
    || c == 8287
    || c == 12288

unfoldable pub lstrip : Text → Text
lstrip [] = []
lstrip (c ∷ rest) = let stripped = lstrip rest in if is_space c then stripped else c ∷ rest

unfoldable pub strip : Text → Text
strip s = reverse (lstrip (reverse (lstrip s)))

unfoldable pub starts_with : Text → Text → Bool
starts_with s [] = true
starts_with [] (c ∷ prefix) = false
starts_with (d ∷ s) (c ∷ prefix) = c == d && starts_with s prefix

-- `" ".join(sentences)`
unfoldable pub join : List Text → Text
join [] = []
join (s ∷ []) = s
join (s ∷ (next ∷ others)) = s ++ (32 ∷ join (next ∷ others))

-- The characters that stand at the front while the test holds, and the rest.
unfoldable pub take_while : (ℕ → Bool) → Text → Text
take_while p [] = []
take_while p (c ∷ rest) = let taken = c ∷ take_while p rest in if p c then taken else []

unfoldable pub drop_while : (ℕ → Bool) → Text → Text
drop_while p [] = []
drop_while p (c ∷ rest) = let dropped = drop_while p rest in if p c then dropped else c ∷ rest

unfoldable pub contains_char : Text → ℕ → Bool
contains_char set c = any (λ d. c == d) set

unfoldable pub text_eq : Text → Text → Bool
text_eq [] [] = true
text_eq [] (c ∷ t) = false
text_eq (c ∷ s) [] = false
text_eq (c ∷ s) (d ∷ t) = c == d && text_eq s t

unfoldable pub one_of : List Text → Text → Bool
one_of set s = any (text_eq s) set

unfoldable pub push_char : ℕ → List Text → List Text
push_char c [] = (c ∷ []) ∷ []
push_char c (piece ∷ pieces) = (c ∷ piece) ∷ pieces

-- The pieces between the characters that are separators, empty ones included.
unfoldable pub split_at : (ℕ → Bool) → Text → List Text
split_at is_separator [] = [] ∷ []
split_at is_separator (c ∷ rest) =
    let pieces = split_at is_separator rest in
    if is_separator c then [] ∷ pieces else push_char c pieces

-- `s.split()`
unfoldable pub words : Text → List Text
words s = keep (λ w. not (is_empty w)) (split_at is_space s)

-- The ends of a line that `splitlines` knows.
unfoldable pub is_line_end : ℕ → Bool
is_line_end c =
    (leb 10 c && leb c 13) || (leb 28 c && leb c 30) || c == 133 || c == 8232 || c == 8233

-- ===== src/Retrieval/Chunker/Sentences.antt =====
-- Where `split_sentences` cuts a text (src/moc/retrieval/chunker.py).
use moreofchat.Prelude.{ℕ, ◌≡◌, refl, Bool, true, List, [], ◌∷◌, ◌++◌, ◌==◌, if-elim, any, arith}
use moreofchat.Str.{Text, is_space}
use moreofchat.Retrieval.Chunker.{ends_here, push, split}

pub blank_or_end : Text → Bool
blank_or_end [] = true
blank_or_end (c ∷ rest) = is_space c

-- The pieces are the text, cut at no place but between a terminator and whitespace or the end.
pub data IsCut (terminators : List ℕ) : Text → List Text → Type 0 where
  whole : (piece : Text) → IsCut terminators piece (piece ∷ [])
  cut_after :
      (body : Text) (t : ℕ) (next : Text) (pieces : List Text)
      → any (λ u. t == u) terminators ≡ true
      → blank_or_end next ≡ true
      → IsCut terminators next pieces
      → IsCut terminators ((body ++ (t ∷ [])) ++ next) ((body ++ (t ∷ [])) ∷ pieces)

push-IsCut :
    (terminators : List ℕ) (c : ℕ) {text : Text} {pieces : List Text}
    → IsCut terminators text pieces
    → IsCut terminators (c ∷ text) (push c pieces)
unfolding push
push-IsCut terminators c (whole piece) = whole (c ∷ piece)
push-IsCut terminators c (cut_after body t next pieces stops blank rest) =
    cut_after (c ∷ body) t next pieces stops blank rest

ends_here-cut :
    (terminators : List ℕ) (c : ℕ) (rest : Text)
    → ends_here terminators c rest ≡ true
    → (any (λ u. c == u) terminators ≡ true) × (blank_or_end rest ≡ true)
unfolding ends_here blank_or_end
ends_here-cut terminators c [] ends = (ends, refl)
ends_here-cut terminators c (next ∷ rest) ends = ground arith

-- The text is cut into consecutive pieces, nothing added or dropped, and only between a terminator
-- and whitespace or the end: the decimal 6.5 or the address su.edu.eg stays in one piece.
pub split-IsCut :
    (terminators : List ℕ) (text : Text) → IsCut terminators text (split terminators text)
unfolding split
split-IsCut terminators [] = whole []
split-IsCut terminators (c ∷ rest) =
    if-elim (IsCut terminators (c ∷ rest)) (ends_here terminators c rest)
      (λ ends.
        let here = ends_here-cut terminators c rest ends in
        cut_after [] c rest (split terminators rest) here.0 here.1 (split-IsCut terminators rest))
      (λ goes_on. push-IsCut terminators c (split-IsCut terminators rest))

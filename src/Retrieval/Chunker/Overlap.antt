-- ===== src/Retrieval/Chunker/Overlap.antt =====
-- What `_overlap_tail` repeats of the chunk before (src/moc/retrieval/chunker.py).
use moreofchat.Prelude.{
  ℕ, ◌+◌, ◌≤◌, ◌<◌, ◌≡◌, refl, sym, ap, ◌∙◌, ◌⊎◌, inr, false, ◌&&◌, List, [], ◌∷◌, ◌++◌, ltb, ◌==◌,
  not, if-elim, length, is_empty, reverse, reverse-cons, reverse-reverse, append_assoc, append-nil,
  arith,
}
use moreofchat.Str.{Text}
use moreofchat.Retrieval.Chunker.{cost, tail_loop, overlap_tail}

-- Within the budget, but for the last separator and for a sentence alone.
pub InBudget : ℕ → List Text → Type 0
InBudget budget tail = (cost tail ≤ budget + 1) ⊎ (length tail ≤ 1)

tail_loop-suffix :
    (budget : ℕ) (tail : List Text) (used : ℕ) (earlier : List Text)
    → (front : List Text) × (reverse earlier ++ tail ≡ front ++ tail_loop budget tail used earlier)
unfolding tail_loop
tail_loop-suffix budget tail used [] = ([], refl)
tail_loop-suffix budget tail used (s ∷ earlier) =
    let rest = tail_loop-suffix budget (s ∷ tail) (used + length s + 1) earlier in
    let here : reverse (s ∷ earlier) ++ tail ≡ reverse earlier ++ (s ∷ tail) =
      ap (λ r. r ++ tail) (reverse-cons s earlier) ∙ append_assoc (reverse earlier) (s ∷ []) tail in
    if-elim (λ (r : List Text). (front : List Text) × (reverse (s ∷ earlier) ++ tail ≡ front ++ r))
      (not (is_empty tail) && ltb budget (used + length s)) (λ stop. (reverse (s ∷ earlier), refl))
      (λ go. (rest.0, here ∙ rest.1))

tail_loop-InBudget :
    (budget : ℕ) (tail : List Text) (used : ℕ) (earlier : List Text)
    → used ≡ cost tail
    → InBudget budget tail
    → InBudget budget (tail_loop budget tail used earlier)
unfolding tail_loop InBudget cost
tail_loop-InBudget budget tail used [] counted fits = fits
tail_loop-InBudget budget [] used (s ∷ earlier) counted fits =
    tail_loop-InBudget budget (s ∷ []) (used + length s + 1) earlier (omega arith)
      (inr (omega arith))
tail_loop-InBudget budget (t ∷ tail) used (s ∷ earlier) counted fits =
    let rest = tail_loop-InBudget budget (s ∷ (t ∷ tail)) (used + length s + 1) earlier in
    ground arith

tail_loop-length :
    (budget : ℕ) (tail : List Text) (used : ℕ) (earlier : List Text)
    → length tail ≤ length (tail_loop budget tail used earlier)
unfolding tail_loop
tail_loop-length budget tail used [] = omega arith
tail_loop-length budget tail used (s ∷ earlier) =
    let rest = tail_loop-length budget (s ∷ tail) (used + length s + 1) earlier in ground arith

-- The overlap is made of whole sentences at the end of the chunk before, in their order: that chunk
-- is some sentences and then the overlap.
pub overlap_tail-suffix :
    (sentences : List Text) (budget : ℕ)
    → (front : List Text) × (sentences ≡ front ++ overlap_tail sentences budget)
unfolding overlap_tail
overlap_tail-suffix sentences budget =
    let rest = tail_loop-suffix budget [] 0 (reverse sentences) in
    if-elim (λ (r : List Text). (front : List Text) × (sentences ≡ front ++ r)) (budget == 0)
      (λ off. (sentences, sym (append-nil sentences)))
      (λ on. (
        rest.0,
        sym (reverse-reverse sentences) ∙ sym (append-nil (reverse (reverse sentences))) ∙ rest.1,
      ))

is_empty_of_length : (items : List Text) → 1 ≤ length items → is_empty items ≡ false
is_empty_of_length [] h = grind arith
is_empty_of_length (item ∷ items) h = refl

is_empty-append : (items : List Text) (item : Text) → is_empty (items ++ (item ∷ [])) ≡ false
is_empty-append [] item = refl
is_empty-append (first ∷ items) item = refl

is_empty-reverse : (items : List Text) → is_empty items ≡ false → is_empty (reverse items) ≡ false
is_empty-reverse [] filled = filled
is_empty-reverse (item ∷ items) filled =
    ap is_empty (reverse-cons item items) ∙ is_empty-append (reverse items) item

tail_loop-is_empty :
    (budget : ℕ) (earlier : List Text)
    → is_empty earlier ≡ false
    → is_empty (tail_loop budget [] 0 earlier) ≡ false
unfolding tail_loop
tail_loop-is_empty budget [] filled = filled
tail_loop-is_empty budget (s ∷ earlier) filled =
    is_empty_of_length (tail_loop budget (s ∷ []) (0 + length s + 1) earlier)
      (tail_loop-length budget (s ∷ []) (0 + length s + 1) earlier)

-- With a budget above 0, the overlap of a chunk that has sentences has at least one; and it keeps to
-- the budget, the separator after it aside, unless it is a single sentence.
pub overlap_tail_bounds :
    (sentences : List Text) (budget : ℕ)
    → 0 < budget
    → is_empty sentences ≡ false
    → (is_empty (overlap_tail sentences budget) ≡ false)
      × InBudget budget (overlap_tail sentences budget)
unfolding overlap_tail cost InBudget
overlap_tail_bounds sentences budget positive filled =
    if-elim (λ (r : List Text). (is_empty r ≡ false) × InBudget budget r) (budget == 0)
      (λ off. grind arith)
      (λ on. (
        tail_loop-is_empty budget (reverse sentences) (is_empty-reverse sentences filled),
        tail_loop-InBudget budget [] 0 (reverse sentences) refl (inr (omega arith)),
      ))

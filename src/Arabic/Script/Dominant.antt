-- ===== src/Arabic/Script/Dominant.antt =====
-- The language that `detect_language` names (src/moc/arabic/script.py).
use moreofchat.Prelude.{
  ℕ, ◌≤◌, ◌<◌, String, ◌≡◌, refl, Bool, true, false, none, some, List, [], ◌∷◌, ◌⊎◌, inl, inr,
  Bool-cases, subst, ltb, ◌==◌, if-elim, All, arith,
}
use Prim.{⊥, tt}
use moreofchat.Str.{Text}
use moreofchat.Arabic.Script.{Scripts, best_of, dominant, script_counts, detect_language}

-- One of the counts, which none exceeds.
abbrev pub IsIn : String × ℕ → List (String × ℕ) → Type 0
IsIn p [] = ⊥
IsIn p (q ∷ rest) = (p ≡ q) ⊎ IsIn p rest

abbrev pub Exceeds : ℕ → List (String × ℕ) → Type 0
Exceeds n counts = All (λ (q : String × ℕ). q.1 ≤ n) counts

below : (n m b : ℕ) → ltb n m ≡ true → m ≤ b → n ≤ b
below n m b more at_least = ground arith

above : (n m b : ℕ) → ltb n m ≡ false → n ≤ b → m ≤ b
above n m b less at_least = ground arith

among :
    (b p q : String × ℕ) (rest : List (String × ℕ)) → IsIn b (p ∷ rest) → IsIn b (p ∷ (q ∷ rest))
among b p q rest (inl first) = inl first
among b p q rest (inr later) = inr (inr later)

best_of-lem :
    (name : String) (n : ℕ) (counts : List (String × ℕ))
    → IsIn (best_of name n counts) ((name, n) ∷ counts)
      × (n ≤ (best_of name n counts).1)
      × Exceeds (best_of name n counts).1 counts
unfolding best_of
best_of-lem name n [] = (inl refl, omega arith, tt)
best_of-lem name n ((other, m) ∷ counts) =
    let swapped = best_of-lem other m counts in
    let kept = best_of-lem name n counts in
    let whole : List (String × ℕ) = (name, n) ∷ ((other, m) ∷ counts) in
    if-elim (λ (b : String × ℕ). IsIn b whole × (n ≤ b.1) × Exceeds b.1 ((other, m) ∷ counts))
      (ltb n m)
      (λ more. (
        inr swapped.0,
        below n m (best_of other m counts).1 more swapped.1,
        (swapped.1, swapped.2),
      ))
      (λ less. (
        among (best_of name n counts) (name, n) (other, m) counts kept.0,
        kept.1,
        (above n m (best_of name n counts).1 less kept.1, kept.2),
      ))

zero_of : (n : ℕ) → n == 0 ≡ true → n ≡ 0
zero_of n empty = ground arith

at_zero : (n : ℕ) (counts : List (String × ℕ)) → n == 0 ≡ true → Exceeds n counts → Exceeds 0 counts
at_zero n counts empty exceeds = subst (λ (k : ℕ). Exceeds k counts) (zero_of n empty) exceeds

positive : (n : ℕ) → n == 0 ≡ false → 0 < n
positive n found = ground arith

dominant-cases :
    (counts : List (String × ℕ))
    → ((name : String) × (n : ℕ) × (dominant counts ≡ some name)
        × (0 < n)
        × IsIn (name, n) counts
        × Exceeds n counts)
      ⊎ ((dominant counts ≡ none) × Exceeds 0 counts)
unfolding dominant
dominant-cases [] = inr (refl, tt)
dominant-cases ((name, n) ∷ counts) =
    let best = best_of-lem name n counts in
    let b : String × ℕ = best_of name n counts in
    elim (Bool-cases (b.1 == 0)) [
      | inl empty ↦ inr (rw empty refl, at_zero b.1 ((name, n) ∷ counts) empty (best.1, best.2))
      | inr found ↦ inl (b.0, b.1, rw found refl, positive b.1 found, best.0, (best.1, best.2))
    ]

-- Where a language is detected, it has at least one letter of the text and no other language has more.
-- Where none is, no language has a letter.
pub detect_language-IsDominant :
    (is_alpha : ℕ → Bool) (scripts : Scripts) (text : Text)
    → ((name : String) × (n : ℕ) × (detect_language is_alpha scripts text ≡ some name)
        × (0 < n)
        × IsIn (name, n) (script_counts is_alpha scripts text)
        × Exceeds n (script_counts is_alpha scripts text))
      ⊎ ((detect_language is_alpha scripts text ≡ none)
          × Exceeds 0 (script_counts is_alpha scripts text))
unfolding detect_language
detect_language-IsDominant is_alpha scripts text =
    dominant-cases (script_counts is_alpha scripts text)

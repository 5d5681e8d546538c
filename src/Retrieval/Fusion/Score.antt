-- ===== src/Retrieval/Fusion/Score.antt =====
-- The fused score of a chunk (src/moc/retrieval/fusion.py).
use moreofchat.Prelude.{
  ◌*◌, ◌+◌, eq_iff, ℕ, Bool, ◌≡◌, refl, List, [], ◌∷◌, ◌++◌, if◌then◌else◌, String, str_eq, Option,
  none, some, ◌∙◌, Bool-cases, inl, inr,
}
use moreofchat.Dict.{get, put, get-put}
use moreofchat.Arabic.Numerals.{Ratio, add_ratio}
use moreofchat.Retrieval.Fusion.{
  FusedHit, Candidate, add_arm, add_arms, reciprocal, seen_or_new, first_seen, absorb,
}

abbrev pub plus : Ratio → Ratio → Ratio
plus a b = record { num = a.num * b.den + b.num * a.den; den = a.den * b.den }

-- The sum of the fractions, from the left; none of no fraction.
abbrev pub sum_onto : Option Ratio → List Ratio → Option Ratio
sum_onto held [] = held
sum_onto none (r ∷ rest) = sum_onto (some r) rest
sum_onto (some total) (r ∷ rest) = sum_onto (some (plus total r)) rest

sum_onto-append :
    (held : Option Ratio) (xs ys : List Ratio)
    → sum_onto held (xs ++ ys) ≡ sum_onto (sum_onto held xs) ys
sum_onto-append held [] ys = refl
sum_onto-append none (r ∷ xs) ys = sum_onto-append (some r) xs ys
sum_onto-append (some total) (r ∷ xs) ys = sum_onto-append (some (plus total r)) xs ys

module _ {R : Type 0} where
  -- 1 / (k + rank) for each time the list names the chunk.
  abbrev pub reciprocals : ℕ → String → List (Candidate R) → List Ratio
  reciprocals k id [] = []
  reciprocals k id (c ∷ candidates) =
      let rest = reciprocals k id candidates in
      if str_eq c.chunk_id id then record { num = 1; den = k + c.rank } ∷ rest else rest

  abbrev pub all_reciprocals : ℕ → String → List (String × List (Candidate R)) → List Ratio
  all_reciprocals k id [] = []
  all_reciprocals k id ((arm, candidates) ∷ arms) =
      reciprocals k id candidates ++ all_reciprocals k id arms

  abbrev pub score_of : Option (FusedHit R) → Option Ratio
  score_of none = none
  score_of (some h) = some h.score

  seen_or_new-score :
      (below : R → R → Bool) (k : ℕ) (arm : String) (c : Candidate R) (held : Option (FusedHit R))
      (rest : List Ratio)
      → sum_onto (score_of (some (seen_or_new below k arm c held))) rest
        ≡ sum_onto (score_of held) (record { num = 1; den = k + c.rank } ∷ rest)
  unfolding seen_or_new first_seen absorb reciprocal add_ratio
  seen_or_new-score below k arm c none rest = refl
  seen_or_new-score below k arm c (some h) rest = refl

  add_arm-score :
      (below : R → R → Bool) (k : ℕ) (arm id : String) (candidates : List (Candidate R))
      (hits : List (String × FusedHit R))
      → score_of (get id (add_arm below k arm candidates hits))
        ≡ sum_onto (score_of (get id hits)) (reciprocals k id candidates)
  unfolding add_arm
  add_arm-score below k arm id [] hits = refl
  add_arm-score below k arm id (c ∷ candidates) hits =
      let hit = seen_or_new below k arm c (get c.chunk_id hits) in
      add_arm-score below k arm id candidates (put c.chunk_id hit hits)
      ∙ (let scored =
            seen_or_new-score below k arm c (get c.chunk_id hits) (reciprocals k id candidates) in
          elim (Bool-cases (str_eq c.chunk_id id)) [
            | inl same ↦
                rw (get-put c.chunk_id id hit hits, same, scored, (eq_iff c.chunk_id id).0 same)
            | inr other ↦ rw (get-put c.chunk_id id hit hits, other)
          ])

  add_arms-score :
      (below : R → R → Bool) (k : ℕ) (id : String) (arms : List (String × List (Candidate R)))
      (hits : List (String × FusedHit R))
      → score_of (get id (add_arms below k arms hits))
        ≡ sum_onto (score_of (get id hits)) (all_reciprocals k id arms)
  unfolding add_arms
  add_arms-score below k id [] hits = refl
  add_arms-score below k id ((arm, candidates) ∷ arms) hits =
      add_arms-score below k id arms (add_arm below k arm candidates hits)
      ∙ rw (add_arm-score below k arm id candidates hits, sum_onto-append)

  -- The score that the arms collect for a chunk is the sum of 1 / (k + rank) over every place where
  -- an arm names it, in the order of the arms, and a chunk that no arm names has no score: whatever
  -- the other chunks are and however often the chunk comes.
  pub add_arms-reciprocals :
      (below : R → R → Bool) (k : ℕ) (id : String) (arms : List (String × List (Candidate R)))
      → score_of (get id (add_arms below k arms [])) ≡ sum_onto none (all_reciprocals k id arms)
  unfolding get
  add_arms-reciprocals below k id arms = add_arms-score below k id arms []

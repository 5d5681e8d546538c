-- ===== src/Retrieval/Fusion/Gate.antt =====
-- The confidence gate (src/moc/retrieval/fusion.py).
use moreofchat.Prelude.{
  ℕ, zero, suc, ◌≤◌, Bool, true, false, ◌≡◌, refl, List, [], ◌∷◌, if-elim, any, take, not, Option,
  none, ◌||◌, length, arith, ◌++◌, String, some, is_empty, ◌⊎◌, inl, inr, Bool-cases,
}
use Prim.{Unit, tt, ⊥}
use moreofchat.Str.{strip}
use moreofchat.Retrieval.Fusion.{
  FusionResult, FusedHit, Candidate, Settings, fuse, has_content, is_below, reciprocal_rank_fusion,
  confidence_of, rerank_with, available,
}

length-take_le {ℓ} : {A : Type ℓ} (n : ℕ) (xs : List A) → length (take n xs) ≤ n
length-take_le zero xs = omega arith
length-take_le (suc n) [] = omega arith
length-take_le (suc n) (x ∷ xs) = omega (arith, length-take_le n xs)

-- The arm's candidates, cut to the number that the settings allow, where the arm is up.
abbrev pub arm_of :
    {R : Type 0}
    → Settings R
    → String
    → Option (List (Candidate R))
    → List (String × List (Candidate R))
arm_of s name none = []
arm_of s name (some candidates) = (name, take s.candidates_per_arm candidates) ∷ []

-- The ranking that the gate judges.
abbrev pub ranking :
    {R : Type 0}
    → (R → R → Bool)
    → Settings R
    → Option (List (Candidate R))
    → Option (List (Candidate R))
    → List (FusedHit R)
ranking below s dense sparse =
    reciprocal_rank_fusion below s.rrf_k (arm_of s "dense" dense ++ arm_of s "sparse" sparse)

abbrev pub best_relevance : {R : Type 0} → List (FusedHit R) → Option R
best_relevance [] = none
best_relevance (best ∷ hits) = best.relevance

abbrev pub has_text : {R : Type 0} → FusedHit R → Bool
has_text h = not (is_empty (strip h.content))

-- A relevance that is none is not judged.
abbrev pub IsReached : {R : Type 0} → (R → R → Bool) → R → Option R → Type 0
IsReached below floor none = Unit {0}
IsReached below floor (some r) = below r floor ≡ false

abbrev pub IsMissed : {R : Type 0} → (R → R → Bool) → R → Option R → Type 0
IsMissed below floor none = ⊥
IsMissed below floor (some r) = below r floor ≡ true

pub data IsGated {R : Type 0} (below : R → R → Bool) (s : Settings R) (hits : List (FusedHit R))
    (result : FusionResult R) : Type 0 where
  gate_open :
      result.gate_closed ≡ false
      → result.hits ≡ take s.final_k hits
      → length result.hits ≤ s.final_k
      → any has_text result.hits ≡ true
      → result.confidence ≡ best_relevance hits
      → IsReached below s.min_score (best_relevance hits)
      → IsGated below s hits result
  gate_shut :
      result.gate_closed ≡ true
      → result.hits ≡ []
      → result.confidence ≡ best_relevance hits
      → (any has_text (take s.final_k hits) ≡ false)
        ⊎ IsMissed below s.min_score (best_relevance hits)
      → IsGated below s hits result

module _ {R : Type 0} (below : R → R → Bool) where
  confidence_of-best : (hits : List (FusedHit R)) → confidence_of below hits ≡ best_relevance hits
  unfolding confidence_of
  confidence_of-best [] = refl
  confidence_of-best (h ∷ hits) = refl

  is_below-IsReached :
      (floor : R) (o : Option R) → is_below below o floor ≡ false → IsReached below floor o
  unfolding is_below
  is_below-IsReached floor none reached = tt
  is_below-IsReached floor (some r) reached = reached

  is_below-IsMissed :
      (floor : R) (o : Option R) → is_below below o floor ≡ true → IsMissed below floor o
  unfolding is_below
  is_below-IsMissed floor none missed = cc
  is_below-IsMissed floor (some r) missed = missed

  available-arm_of :
      (s : Settings R) (name : String) (candidates : Option (List (Candidate R)))
      → available below s.candidates_per_arm name candidates ≡ arm_of s name candidates
  unfolding available
  available-arm_of s name none = refl
  available-arm_of s name (some candidates) = refl

  any-has_text : (hits : List (FusedHit R)) → any (has_content below) hits ≡ any has_text hits
  unfolding has_content
  any-has_text [] = refl
  any-has_text (h ∷ hits) = refl

  gate_shut_of :
      (s : Settings R) (hits : List (FusedHit R))
      → (not (any has_text (take s.final_k hits))
          || is_below below (best_relevance hits) s.min_score)
        ≡ true
      → (any has_text (take s.final_k hits) ≡ false)
        ⊎ IsMissed below s.min_score (best_relevance hits)
  gate_shut_of s hits shut = elim (Bool-cases (any has_text (take s.final_k hits))) [
    | inl present ↦
        inr (is_below-IsMissed s.min_score (best_relevance hits) (ground (arith, shut, present)))
    | inr empty ↦ inl empty
  ]

-- Where no reranker is configured, `fuse` ranks the candidates of the arms that are up and either lets
-- the first `final_k` of them through or returns no hit at all. It lets them through only where one of
-- them has text and the relevance of the first hit, where it has one, is not below the floor; and it
-- returns none only where none of them has text or that relevance is below the floor. The confidence
-- is that relevance on both paths.
pub fuse-IsGated :
    {R : Type 0} (below : R → R → Bool) (s : Settings R)
    (dense sparse : Option (List (Candidate R)))
    → IsGated below s (ranking below s dense sparse) (fuse below s none dense sparse)
unfolding fuse rerank_with
fuse-IsGated below s dense sparse =
    let hits = ranking below s dense sparse in
    rw
      (
        available-arm_of below s "dense" dense,
        available-arm_of below s "sparse" sparse,
        confidence_of-best below hits,
        any-has_text below (take s.final_k hits),
      )
      (if-elim (IsGated below s hits)
        (not (any has_text (take s.final_k hits))
          || is_below below (best_relevance hits) s.min_score)
        (λ shut. gate_shut refl refl refl (gate_shut_of below s hits shut))
        (λ through.
          gate_open refl refl (length-take_le s.final_k hits) (ground (arith, through)) refl
            (is_below-IsReached below s.min_score (best_relevance hits) (ground (arith, through)))))

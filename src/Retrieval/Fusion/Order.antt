-- ===== src/Retrieval/Fusion/Order.antt =====
-- The order of the fused list (src/moc/retrieval/fusion.py).
use moreofchat.Prelude.{ℕ, Bool, true, false, ◌≡◌, List, [], ◌∷◌, if-elim, String, arith}
use mathlib.Core.List.{Perm}
use mathlib.Core.List.Perm as Permutation
use moreofchat.Retrieval.Fusion.{
  FusedHit, precedes, insert_hit, sort_hits, reciprocal_rank_fusion, Candidate, ratio_lt, values,
  add_arms,
}

-- No hit has a higher score than the hit before it.
pub data IsRanked {R : Type 0} : List (FusedHit R) → Type 0 where
  ranked_none : IsRanked []
  ranked_one : (h : FusedHit R) → IsRanked (h ∷ [])
  ranked_next :
      (h g : FusedHit R) (hits : List (FusedHit R))
      → ratio_lt h.score g.score ≡ false
      → IsRanked (g ∷ hits)
      → IsRanked (h ∷ (g ∷ hits))

precedes_score :
    {R : Type 0} (below : R → R → Bool) (g h : FusedHit R)
    → precedes below g h ≡ true
    → ratio_lt g.score h.score ≡ false
unfolding precedes ratio_lt
precedes_score below g h first = ground (arith, first)

follows_score :
    {R : Type 0} (below : R → R → Bool) (g h : FusedHit R)
    → precedes below g h ≡ false
    → ratio_lt h.score g.score ≡ false
unfolding precedes
follows_score below g h later = ground (arith, later)

tail-IsRanked :
    {R : Type 0} {g : FusedHit R} {hits : List (FusedHit R)} → IsRanked (g ∷ hits) → IsRanked hits
tail-IsRanked (ranked_one _) = ranked_none
tail-IsRanked (ranked_next _ _ _ step ranked) = ranked

-- An insertion after `g` is ranked.
insert_after :
    {R : Type 0} (below : R → R → Bool) (g h : FusedHit R) (hits : List (FusedHit R))
    → ratio_lt g.score h.score ≡ false
    → IsRanked (g ∷ hits)
    → IsRanked (insert_hit below h hits)
    → IsRanked (g ∷ insert_hit below h hits)
unfolding insert_hit
insert_after below g h [] lower ranked later = ranked_next g h [] lower later
insert_after {R = R} below g h (f ∷ hits) lower (ranked_next _ _ _ step ranked) later =
    if-elim (λ (tail : List (FusedHit R)). IsRanked tail → IsRanked (g ∷ tail)) (precedes below f h)
      (λ first. ranked_next g f (insert_hit below h hits) step)
      (λ last. ranked_next g h (f ∷ hits) lower) later

insert_hit-IsRanked :
    {R : Type 0} (below : R → R → Bool) (h : FusedHit R) (hits : List (FusedHit R))
    → IsRanked hits
    → IsRanked (insert_hit below h hits)
unfolding insert_hit
insert_hit-IsRanked below h [] ranked = ranked_one h
insert_hit-IsRanked {R = R} below h (g ∷ hits) ranked =
    if-elim (λ (tail : List (FusedHit R)). IsRanked tail) (precedes below g h)
      (λ first.
        insert_after below g h hits (precedes_score below g h first) ranked
          (insert_hit-IsRanked below h hits (tail-IsRanked ranked)))
      (λ last. ranked_next h g hits (follows_score below g h last) ranked)

sort_hits-IsRanked :
    {R : Type 0} (below : R → R → Bool) (hits : List (FusedHit R)) → IsRanked (sort_hits below hits)
unfolding sort_hits
sort_hits-IsRanked below [] = ranked_none
sort_hits-IsRanked below (h ∷ hits) =
    insert_hit-IsRanked below h (sort_hits below hits) (sort_hits-IsRanked below hits)

insert_hit-Perm :
    {R : Type 0} (below : R → R → Bool) (h : FusedHit R) (hits : List (FusedHit R))
    → Perm (h ∷ hits) (insert_hit below h hits)
unfolding insert_hit
insert_hit-Perm below h [] = Permutation.refl (h ∷ [])
insert_hit-Perm {R = R} below h (g ∷ hits) =
    if-elim (λ (r : List (FusedHit R)). Perm (h ∷ (g ∷ hits)) r) (precedes below g h)
      (λ first.
        Permutation.trans (Permutation.swap _ _ _)
          (Permutation.cons _ (insert_hit-Perm below h hits)))
      (λ last. Permutation.refl (h ∷ (g ∷ hits)))

sort_hits-Perm :
    {R : Type 0} (below : R → R → Bool) (hits : List (FusedHit R))
    → Perm hits (sort_hits below hits)
unfolding sort_hits
sort_hits-Perm below [] = Permutation.nil
sort_hits-Perm below (h ∷ hits) =
    Permutation.trans (Permutation.cons _ (sort_hits-Perm below hits))
      (insert_hit-Perm below h (sort_hits below hits))

-- The fused list is in descending order of score and holds each chunk that the arms collected as
-- often as they collected it: the sort loses, repeats and invents no hit.
pub reciprocal_rank_fusion-IsRanked :
    {R : Type 0} (below : R → R → Bool) (k : ℕ) (arms : List (String × List (Candidate R)))
    → IsRanked (reciprocal_rank_fusion below k arms)
      × Perm (values below (add_arms below k arms [])) (reciprocal_rank_fusion below k arms)
unfolding reciprocal_rank_fusion
reciprocal_rank_fusion-IsRanked below k arms =
    let hits = values below (add_arms below k arms []) in
    (sort_hits-IsRanked below hits, sort_hits-Perm below hits)

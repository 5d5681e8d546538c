-- ===== src/Retrieval/Fusion/Tests.antt =====
-- Runs of the fusion on small lists (src/moc/retrieval/fusion.py).
use moreofchat.Prelude.{ℕ, ◌≡◌, refl, true, none, some, List, [], ◌∷◌, String, ltb, map}
use mathlib.Core.List.{Perm}
use moreofchat.Dict.{get, put}
use moreofchat.Arabic.Numerals.{add_ratio}
use moreofchat.Retrieval.Fusion.{
  Candidate, FusedHit, Settings, precedes, absorb, first_seen, fuse, reciprocal_rank_fusion, values,
  add_arms, add_arm, sort_hits, insert_hit, ratio_lt, seen_or_new, reciprocal, available,
}
use moreofchat.Retrieval.Fusion.Order.{IsRanked, reciprocal_rank_fusion-IsRanked}
use moreofchat.Retrieval.Fusion.Gate.{IsGated, ranking, fuse-IsGated}
use moreofchat.Retrieval.Fusion.Score.{score_of, sum_onto, all_reciprocals, add_arms-reciprocals}

abbrev candidate : String → ℕ → ℕ → Candidate ℕ
candidate id rank relevance = record {
  chunk_id = id;
  rank = rank;
  relevance = some relevance;
  content = 70 ∷ [];
  payload = [];
}

abbrev dense_list : List (Candidate ℕ)
dense_list = candidate "solo" 1 90 ∷ candidate "both" 2 60 ∷ []

abbrev sparse_list : List (Candidate ℕ)
sparse_list = candidate "both" 20 70 ∷ []

abbrev arm_lists : List (String × List (Candidate ℕ))
arm_lists = ("dense", dense_list) ∷ ("sparse", sparse_list) ∷ []

abbrev settings : Settings ℕ
settings = record { rrf_k = 60; candidates_per_arm = 20; final_k = 5; min_score = 35 }

abbrev ids : List (FusedHit ℕ) → List String
ids hits = map (λ h. h.chunk_id) hits

fused_ids : ids (reciprocal_rank_fusion ltb 60 arm_lists) ≡ "both" ∷ "solo" ∷ []
unfolding reciprocal_rank_fusion sort_hits values add_arms add_arm put insert_hit precedes ratio_lt
    seen_or_new get first_seen reciprocal absorb add_ratio
fused_ids = refl

no_arm_left : (fuse ltb settings none none none).gate_closed ≡ true
unfolding fuse reciprocal_rank_fusion sort_hits values add_arms available
no_arm_left = refl

reciprocal_rank_fusion-IsRanked_example :
    IsRanked (reciprocal_rank_fusion ltb 60 arm_lists)
    × Perm (values ltb (add_arms ltb 60 arm_lists [])) (reciprocal_rank_fusion ltb 60 arm_lists)
reciprocal_rank_fusion-IsRanked_example = reciprocal_rank_fusion-IsRanked ltb 60 arm_lists

fuse-IsGated_example :
    IsGated ltb settings
      (ranking ltb settings (some dense_list) none)
      (fuse ltb settings none (some dense_list) none)
fuse-IsGated_example = fuse-IsGated ltb settings (some dense_list) none

add_arms-reciprocals_example :
    score_of (get "both" (add_arms ltb 60 arm_lists []))
    ≡ sum_onto none (all_reciprocals 60 "both" arm_lists)
add_arms-reciprocals_example = add_arms-reciprocals ltb 60 "both" arm_lists

-- ===== src/Retrieval/Fusion.antt =====
-- src/moc/retrieval/fusion.py: two ranked lists combined by reciprocal rank, and the gate on the best
-- hit. A score is a fraction, where the code has floats; `R` is the type of relevances, with the code's
-- `<` on floats as `below`. The clock and the costs that a result carries are left out.
pub mod Order
pub mod Score
pub mod Gate
mod Tests
use moreofchat.Prelude.{
  ℕ, suc, ◌+◌, ◌*◌, String, Bool, true, false, ◌&&◌, ◌||◌, Option, none, some, List, [], ◌∷◌, ◌++◌,
  map, ltb, ◌==◌, if◌then◌else◌, not, any, take, is_empty, get_or,
}
use moreofchat.Str.{Text, strip}
use moreofchat.Dict.{Dict, get, put, has_key}
use moreofchat.Arabic.Numerals.{Ratio, add_ratio}
use Prim.Native.Nat.{Ordering}
use Prim.Native.String.{compare}

pub record Candidate (R : Type 0) : Type 0 where
  pub chunk_id : String
  pub rank : ℕ
  pub relevance : Option R
  pub content : Text
  pub payload : Dict Text

pub record FusedHit (R : Type 0) : Type 0 where
  pub chunk_id : String
  pub score : Ratio
  pub relevance : Option R
  pub content : Text
  pub arms : List String
  pub payload : Dict Text

pub record FusionResult (R : Type 0) : Type 0 where
  pub hits : List (FusedHit R)
  pub confidence : Option R
  pub degraded_arms : List String
  pub gate_closed : Bool

pub record Settings (R : Type 0) : Type 0 where
  pub rrf_k : ℕ
  pub candidates_per_arm : ℕ
  pub final_k : ℕ
  pub min_score : R

unfoldable pub ratio_lt : Ratio → Ratio → Bool
ratio_lt a b = ltb (a.num * b.den) (b.num * a.den)

unfoldable pub string_lt : String → String → Bool
string_lt s t = elim (compare s t) [ Ordering.lt ↦ true | _ ↦ false ]

-- `merged.setdefault(key, value)` for each pair.
unfoldable pub merge_payload : Dict Text → Dict Text → Dict Text
merge_payload held [] = held
merge_payload held ((key, value) ∷ rest) =
    merge_payload (if has_key key held then held else held ++ ((key, value) ∷ [])) rest

-- What an arm adds for a chunk at a rank: 1 / (k + rank).
unfoldable pub reciprocal : ℕ → ℕ → Ratio
reciprocal k rank = record { num = 1; den = k + rank }

module _ {R : Type 0} (below : R → R → Bool) where
  -- The better of two relevances; an arm with none says nothing.
  unfoldable pub max_relevance : Option R → Option R → Option R
  max_relevance held none = held
  max_relevance none (some r) = some r
  max_relevance (some h) (some r) = some (if below h r then r else h)

  -- A chunk seen for the first time.
  unfoldable pub first_seen : ℕ → String → Candidate R → FusedHit R
  first_seen k arm c = record {
    chunk_id = c.chunk_id;
    score = reciprocal k c.rank;
    relevance = c.relevance;
    content = c.content;
    arms = arm ∷ [];
    payload = merge_payload [] c.payload;
  }

  unfoldable pub absorb : ℕ → String → Candidate R → FusedHit R → FusedHit R
  absorb k arm c h = record h {
    score = add_ratio h.score (reciprocal k c.rank);
    relevance = max_relevance h.relevance c.relevance;
    content = if is_empty h.content then c.content else h.content;
    arms = h.arms ++ (arm ∷ []);
    payload = merge_payload h.payload c.payload;
  }

  unfoldable pub seen_or_new : ℕ → String → Candidate R → Option (FusedHit R) → FusedHit R
  seen_or_new k arm c none = first_seen k arm c
  seen_or_new k arm c (some h) = absorb k arm c h

  unfoldable pub add_arm : ℕ → String → List (Candidate R) → Dict (FusedHit R) → Dict (FusedHit R)
  add_arm k arm [] hits = hits
  add_arm k arm (c ∷ candidates) hits =
      add_arm k arm candidates (put c.chunk_id (seen_or_new k arm c (get c.chunk_id hits)) hits)

  unfoldable pub add_arms :
      ℕ → List (String × List (Candidate R)) → Dict (FusedHit R) → Dict (FusedHit R)
  add_arms k [] hits = hits
  add_arms k ((arm, candidates) ∷ arms) hits = add_arms k arms (add_arm k arm candidates hits)

  -- `(-score, chunk_id)` of the first is below that of the second.
  unfoldable pub precedes : FusedHit R → FusedHit R → Bool
  precedes a b =
      ratio_lt b.score a.score
      || (not (ratio_lt a.score b.score) && string_lt a.chunk_id b.chunk_id)

  unfoldable pub insert_hit : FusedHit R → List (FusedHit R) → List (FusedHit R)
  insert_hit h [] = h ∷ []
  insert_hit h (g ∷ hits) =
      let later = insert_hit h hits in if precedes g h then g ∷ later else h ∷ (g ∷ hits)

  unfoldable pub sort_hits : List (FusedHit R) → List (FusedHit R)
  sort_hits [] = []
  sort_hits (h ∷ hits) = insert_hit h (sort_hits hits)

  unfoldable pub values : Dict (FusedHit R) → List (FusedHit R)
  values [] = []
  values ((key, h) ∷ rest) = h ∷ values rest

  unfoldable pub reciprocal_rank_fusion : ℕ → List (String × List (Candidate R)) → List (FusedHit R)
  reciprocal_rank_fusion k arms = sort_hits (values (add_arms k arms []))

  unfoldable pub confidence_of : List (FusedHit R) → Option R
  confidence_of [] = none
  confidence_of (h ∷ hits) = h.relevance

  unfoldable pub available :
      ℕ → String → Option (List (Candidate R)) → List (String × List (Candidate R))
  available limit name none = []
  available limit name (some candidates) = (name, take limit candidates) ∷ []

  unfoldable pub degraded : String → Option (List (Candidate R)) → List String
  degraded name none = name ∷ []
  degraded name (some candidates) = []

  unfoldable pub is_below : Option R → R → Bool
  is_below none floor = false
  is_below (some r) floor = below r floor

  unfoldable pub has_content : FusedHit R → Bool
  has_content h = not (is_empty (strip h.content))

  unfoldable pub rerank_with :
      Option (List (FusedHit R) → ℕ → List (FusedHit R)) → ℕ → List (FusedHit R) → List (FusedHit R)
  rerank_with none top_k hits = hits
  rerank_with (some rerank) top_k hits = rerank hits top_k

  unfoldable pub fuse :
      Settings R
      → Option (List (FusedHit R) → ℕ → List (FusedHit R))
      → Option (List (Candidate R))
      → Option (List (Candidate R))
      → FusionResult R
  fuse s reranker dense sparse =
      let missing = degraded "dense" dense ++ degraded "sparse" sparse in
      let arms =
        available s.candidates_per_arm "dense" dense
        ++ available s.candidates_per_arm "sparse" sparse in
      let fused = reciprocal_rank_fusion s.rrf_k arms in
      let confidence = confidence_of fused in
      let top = take s.final_k fused in
      if not (any has_content top) || is_below confidence s.min_score
      then record {
        hits = [];
        confidence = confidence;
        degraded_arms = missing;
        gate_closed = true;
      }
      else record {
        hits = rerank_with reranker s.final_k top;
        confidence = confidence;
        degraded_arms = missing;
        gate_closed = false;
      }

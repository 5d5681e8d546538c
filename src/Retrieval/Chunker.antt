-- ===== src/Retrieval/Chunker.antt =====
-- src/moc/retrieval/chunker.py: a text is split into sentences, and these are packed into chunks.
-- A `str` is the list of its code points. The two ratios of the configuration are decimal fractions.
pub mod Sentences
pub mod Packing
pub mod Overlap
mod Tests
use moreofchat.Prelude.{
  ℕ, ◌+◌, ◌*◌, ◌/◌, Bool, true, false, ◌&&◌, ◌||◌, Option, none, some, List, [], ◌∷◌, ◌++◌, map,
  ltb, leb, ◌==◌, if◌then◌else◌, not, length, any, keep, is_empty, reverse,
}
use moreofchat.Str.{Text, is_space, lstrip, strip, starts_with, join}

-- The regular expression of `_splitter`: after a terminator that whitespace or the end follows.
unfoldable pub ends_here : List ℕ → ℕ → Text → Bool
ends_here terminators c [] = any (λ t. c == t) terminators
ends_here terminators c (next ∷ rest) = any (λ t. c == t) terminators && is_space next

unfoldable pub push : ℕ → List Text → List Text
push c [] = (c ∷ []) ∷ []
push c (piece ∷ pieces) = (c ∷ piece) ∷ pieces

-- `_splitter(terminators).split(text)`
unfoldable pub split : List ℕ → Text → List Text
split terminators [] = [] ∷ []
split terminators (c ∷ rest) =
    let pieces = split terminators rest in
    if ends_here terminators c rest then (c ∷ []) ∷ pieces else push c pieces

unfoldable pub split_sentences : Text → List ℕ → List Text
split_sentences text terminators = keep (λ s. not (is_empty s)) (map strip (split terminators text))

unfoldable pub embedding_text : Option Text → Text → Text
embedding_text none content = content
embedding_text (some title) content =
    let heading = strip title in
    if is_empty heading || starts_with (lstrip content) heading
    then content
    else heading ++ (10 ∷ content)

-- The length of the sentences with one separator after each.
unfoldable pub cost : List Text → ℕ
cost [] = 0
cost (s ∷ others) = length s + 1 + cost others

-- The loop of `_overlap_tail` over the reversed sentences.
unfoldable pub tail_loop : ℕ → List Text → ℕ → List Text → List Text
tail_loop budget tail used [] = tail
tail_loop budget tail used (s ∷ earlier) =
    let longer = tail_loop budget (s ∷ tail) (used + length s + 1) earlier in
    if not (is_empty tail) && ltb budget (used + length s) then tail else longer

unfoldable pub overlap_tail : List Text → ℕ → List Text
overlap_tail sentences budget =
    if budget == 0 then [] else tail_loop budget [] 0 (reverse sentences)

-- What one round of the loop of `chunk_text` leaves: the chunk it closed, if any, the chunk that is
-- open and the running length.
pub record Round : Type 0 where
  pub closed : List (List Text)
  pub current : List Text
  pub running : ℕ

unfoldable pub pack_one : ℕ → ℕ → List Text → ℕ → Text → Round
pack_one target budget current running s =
    let tail = overlap_tail current budget in
    if not (is_empty current) && ltb target (running + length s + 1)
    then record {
      closed = current ∷ [];
      current = tail ++ (s ∷ []);
      running = cost tail + length s + 1;
    }
    else record { closed = []; current = current ++ (s ∷ []); running = running + length s + 1 }

unfoldable pub pack : ℕ → ℕ → List Text → ℕ → List Text → List (List Text)
pack target budget current running [] = if is_empty current then [] else current ∷ []
pack target budget current running (s ∷ rest) =
    let r = pack_one target budget current running s in
    r.closed ++ pack target budget r.current r.running rest

pub record Ratio : Type 0 where
  pub num : ℕ
  pub den : ℕ

pub record Settings : Type 0 where
  pub target_tokens : ℕ
  pub chars_per_token : Ratio
  pub overlap_ratio : Ratio
  pub sentence_terminators : List ℕ

unfoldable pub target_of : Settings → ℕ
target_of c = c.target_tokens * c.chars_per_token.num / c.chars_per_token.den

unfoldable pub overlap_budget : Settings → ℕ
overlap_budget c = target_of c * c.overlap_ratio.num / c.overlap_ratio.den

pub record Chunk : Type 0 where
  pub ordinal : ℕ
  pub content : Text
  pub content_normalized : Text

-- `normalize` is the one of src/moc/arabic/normalize.py.
module _ (normalize : Text → Text) where
  unfoldable pub number_from : ℕ → List (List Text) → List Chunk
  number_from ordinal [] = []
  number_from ordinal (group ∷ groups) =
      let joined = join group in
      record { ordinal = ordinal; content = joined; content_normalized = normalize joined }
      ∷ number_from (ordinal + 1) groups

  unfoldable pub chunk_text : Settings → Text → List Chunk
  chunk_text settings text =
      let sentences = split_sentences text settings.sentence_terminators in
      if is_empty sentences
      then []
      else number_from 0 (pack (target_of settings) (overlap_budget settings) [] 0 sentences)

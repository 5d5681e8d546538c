-- ===== src/Retrieval/Chunker/Tests.antt =====
-- Chunking run on a concrete text, "A 6.5. Bb. Ccc", with chunks of twelve characters.
use moreofchat.Prelude.{◌≡◌, refl, some, List, [], ◌∷◌, ◌++◌, map}
use moreofchat.Str.{Text, join, is_space, strip, lstrip, starts_with}
use moreofchat.Retrieval.Chunker.{
  Settings, chunk_text, split, split_sentences, overlap_tail, embedding_text, target_of,
  overlap_budget, ends_here, push, number_from, pack, pack_one, tail_loop,
}
use moreofchat.Retrieval.Chunker.Sentences.{IsCut, split-IsCut}
use moreofchat.Retrieval.Chunker.Packing.{IsPacked, chunk_text-IsPacked}

abbrev settings : Settings
settings = record {
  target_tokens = 5;
  chars_per_token = record { num = 25; den = 10 };
  overlap_ratio = record { num = 25; den = 100 };
  sentence_terminators = 46 ∷ (33 ∷ []);
}

abbrev first_sentence : Text
first_sentence = 65 ∷ (32 ∷ (54 ∷ (46 ∷ (53 ∷ (46 ∷ [])))))

abbrev second_sentence : Text
second_sentence = 66 ∷ (98 ∷ (46 ∷ []))

abbrev third_sentence : Text
third_sentence = 67 ∷ (99 ∷ (99 ∷ []))

abbrev document : Text
document = join (first_sentence ∷ (second_sentence ∷ (third_sentence ∷ [])))

abbrev unchanged : Text → Text
unchanged s = s

split_document :
    split_sentences document settings.sentence_terminators
    ≡ first_sentence ∷ (second_sentence ∷ (third_sentence ∷ []))
unfolding split_sentences split join ends_here push is_space strip lstrip
split_document = refl

chunk_document :
    map (λ c. c.content) (chunk_text unchanged settings document)
    ≡ join (first_sentence ∷ (second_sentence ∷ []))
      ∷ (join (second_sentence ∷ (third_sentence ∷ [])) ∷ [])
unfolding chunk_text split_sentences split join ends_here push is_space strip lstrip number_from
    pack pack_one target_of overlap_tail overlap_budget tail_loop
chunk_document = refl

chunk_blank : chunk_text unchanged settings (32 ∷ (10 ∷ [])) ≡ []
unfolding chunk_text split_sentences split ends_here push strip lstrip is_space
chunk_blank = refl

embed_heading :
    embedding_text (some (32 ∷ second_sentence)) third_sentence
    ≡ second_sentence ++ (10 ∷ third_sentence)
unfolding embedding_text strip lstrip is_space starts_with
embed_heading = refl

embed_repeated_heading : embedding_text (some (67 ∷ (32 ∷ []))) third_sentence ≡ third_sentence
unfolding embedding_text strip lstrip is_space starts_with
embed_repeated_heading = refl

chunk_text-IsPacked_example :
    (groups : List (List Text)) × IsPacked
      (target_of settings)
      (overlap_budget settings)
      []
      groups
      (split_sentences document settings.sentence_terminators)
    × (map (λ c. c.content) (chunk_text unchanged settings document) ≡ map join groups)
chunk_text-IsPacked_example = chunk_text-IsPacked unchanged settings document

split-IsCut_example : IsCut (46 ∷ []) document (split (46 ∷ []) document)
split-IsCut_example = split-IsCut (46 ∷ []) document

-- ===== src/Retrieval/Chunker/Packing.antt =====
-- What `chunk_text` packs into its chunks (src/moc/retrieval/chunker.py).
use moreofchat.Prelude.{
  ℕ, map, ◌+◌, ◌≤◌, ◌≡◌, refl, sym, ap, subst, ◌∙◌, ◌⊎◌, inl, inr, false, ◌&&◌, List, [], ◌∷◌, ◌++◌,
  ltb, ◌==◌, if◌then◌else◌, not, if-elim, length, is_empty, append_assoc, arith,
}
use moreofchat.Str.{Text, join}
use moreofchat.Retrieval.Chunker.{
  Chunk, tail_loop, Round, Settings, cost, overlap_tail, pack_one, pack, number_from, chunk_text,
  target_of, overlap_budget, split_sentences,
}

-- The chunks `groups`, after the chunk `previous`, hold the sentences: each is the overlap with the
-- chunk before it and then the next sentences, at least one; and it is within the target unless it
-- adds a single sentence.
pub data IsPacked (target budget : ℕ) : List Text → List (List Text) → List Text → Type 0 where
  packed_end : (previous : List Text) → IsPacked target budget previous [] []
  packed_next :
      (previous fresh : List Text) (groups : List (List Text)) (rest : List Text)
      → is_empty fresh ≡ false
      → (cost (overlap_tail previous budget ++ fresh) ≤ target) ⊎ (length fresh ≤ 1)
      → IsPacked target budget (overlap_tail previous budget ++ fresh) groups rest
      → IsPacked target budget previous
          ((overlap_tail previous budget ++ fresh) ∷ groups)
          (fresh ++ rest)

cost-append_one :
    (front : List Text) (s : Text) → cost (front ++ (s ∷ [])) ≡ cost front + length s + 1
unfolding cost
cost-append_one [] s = omega arith
cost-append_one (first ∷ front) s = omega (arith, cost-append_one front s)

is_empty-append_right : (front : List Text) (s : Text) → is_empty (front ++ (s ∷ [])) ≡ false
is_empty-append_right [] s = refl
is_empty-append_right (first ∷ front) s = refl

is_empty-append :
    (front back : List Text) → is_empty back ≡ false → is_empty (front ++ back) ≡ false
is_empty-append [] back filled = filled
is_empty-append (first ∷ front) back filled = refl

in_target :
    (target total : ℕ) (current : List Text)
    → is_empty current ≡ false
    → (not (is_empty current) && ltb target total) ≡ false
    → total ≤ target
in_target target total [] filled within = grind arith
in_target target total (first ∷ current) filled within = ground arith

-- The loop from any point at which the open chunk is an overlap and then `fresh`.
pack-IsPacked :
    (target budget : ℕ) (previous fresh : List Text) (running : ℕ) (sentences : List Text)
    → running ≡ cost (overlap_tail previous budget ++ fresh)
    → is_empty fresh ≡ false
    → (cost (overlap_tail previous budget ++ fresh) ≤ target) ⊎ (length fresh ≤ 1)
    → IsPacked target budget previous
        (pack target budget (overlap_tail previous budget ++ fresh) running sentences)
        (fresh ++ sentences)
unfolding pack pack_one cost
pack-IsPacked target budget previous fresh running [] counted filled fits =
    let current = overlap_tail previous budget ++ fresh in
    if-elim (λ (groups : List (List Text)). IsPacked target budget previous groups (fresh ++ []))
      (is_empty current)
      (λ none_open. grind (arith, is_empty-append (overlap_tail previous budget) fresh filled))
      (λ some_open. packed_next previous fresh [] [] filled fits (packed_end current))
pack-IsPacked target budget previous fresh running (s ∷ sentences) counted filled fits =
    let tail = overlap_tail previous budget in
    let current = tail ++ fresh in
    let longer : (tail ++ fresh) ++ (s ∷ []) ≡ tail ++ (fresh ++ (s ∷ [])) =
      append_assoc tail fresh (s ∷ []) in
    let rest : (fresh ++ (s ∷ [])) ++ sentences ≡ fresh ++ (s ∷ sentences) =
      append_assoc fresh (s ∷ []) sentences in
    let total : running + length s + 1 ≡ cost (tail ++ (fresh ++ (s ∷ []))) =
      ap (λ n. n + length s + 1) counted ∙ sym (cost-append_one current s) ∙ ap cost longer in
    if-elim
      (λ (r : Round).
        IsPacked target budget previous
          (r.closed ++ pack target budget r.current r.running sentences) (fresh ++ (s ∷ sentences)))
      (not (is_empty current) && ltb target (running + length s + 1))
      (λ full.
        packed_next previous fresh
          (pack target budget (overlap_tail current budget ++ (s ∷ []))
            (cost (overlap_tail current budget) + length s + 1) sentences)
          (s ∷ sentences) filled fits
          (pack-IsPacked target budget current (s ∷ [])
            (cost (overlap_tail current budget) + length s + 1) sentences
            (sym (cost-append_one (overlap_tail current budget) s)) refl (inr (omega arith))))
      (λ fits_on.
        subst
          (λ (held : List Text).
            IsPacked target budget previous
              (pack target budget held (running + length s + 1) sentences)
              (fresh ++ (s ∷ sentences)))
          (sym longer)
          (subst
            (IsPacked target budget previous
              (pack target budget (tail ++ (fresh ++ (s ∷ []))) (running + length s + 1) sentences))
            rest
            (pack-IsPacked target budget previous (fresh ++ (s ∷ [])) (running + length s + 1)
              sentences total (is_empty-append_right fresh s)
              (inl (
                omega (
                  arith,
                  total,
                  in_target target (running + length s + 1) current
                      (is_empty-append tail fresh filled) fits_on,
                ))))))

number_from-content :
    (normalize : Text → Text) (ordinal : ℕ) (groups : List (List Text))
    → map (λ c. c.content) (number_from normalize ordinal groups) ≡ map join groups
unfolding number_from
number_from-content normalize ordinal [] = refl
number_from-content normalize ordinal (group ∷ groups) =
    ap (λ rest. join group ∷ rest) (number_from-content normalize (ordinal + 1) groups)

overlap_tail-nil : (budget : ℕ) → overlap_tail [] budget ≡ []
unfolding overlap_tail tail_loop
overlap_tail-nil budget =
    if-elim (λ (tail : List Text). tail ≡ []) (budget == 0) (λ off. refl) (λ on. refl)

pack-start :
    (target budget : ℕ) (sentences : List Text)
    → IsPacked target budget [] (pack target budget [] 0 sentences) sentences
unfolding pack pack_one cost
pack-start target budget [] = packed_end []
pack-start target budget (s ∷ sentences) =
    let opened : overlap_tail [] budget ++ (s ∷ []) ≡ s ∷ [] =
      ap (λ tail. tail ++ (s ∷ [])) (overlap_tail-nil budget) in
    let counted : 0 + length s + 1 ≡ cost (s ∷ []) = sym (cost-append_one [] s) in
    subst
      (λ (held : List Text).
        IsPacked target budget [] (pack target budget held (0 + length s + 1) sentences)
          (s ∷ sentences))
      opened
      (pack-IsPacked target budget [] (s ∷ []) (0 + length s + 1) sentences
        (counted ∙ ap cost (sym opened)) refl (inr (omega arith)))

chunks-content :
    (normalize : Text → Text) (target budget : ℕ) (sentences : List Text)
    → map
        (λ (c : Chunk). c.content)
        (if is_empty sentences
          then []
          else number_from normalize 0 (pack target budget [] 0 sentences))
      ≡ map join (pack target budget [] 0 sentences)
unfolding pack
chunks-content normalize target budget [] = refl
chunks-content normalize target budget (s ∷ sentences) =
    number_from-content normalize 0 (pack target budget [] 0 (s ∷ sentences))

-- The chunks of a text are its sentences packed in order: each chunk is the overlap with the chunk
-- before it and then the next sentences, at least one, joined by spaces; each sentence is whole, none
-- is lost, and a chunk that adds more than one sentence is within the target.
pub chunk_text-IsPacked :
    (normalize : Text → Text) (settings : Settings) (text : Text)
    → (groups : List (List Text)) × IsPacked
        (target_of settings)
        (overlap_budget settings)
        []
        groups
        (split_sentences text settings.sentence_terminators)
      × (map (λ c. c.content) (chunk_text normalize settings text) ≡ map join groups)
unfolding chunk_text
chunk_text-IsPacked normalize settings text =
    let sentences = split_sentences text settings.sentence_terminators in
    let target = target_of settings in
    let budget = overlap_budget settings in
    (
      pack target budget [] 0 sentences,
      pack-start target budget sentences,
      chunks-content normalize target budget sentences,
    )

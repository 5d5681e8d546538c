-- ===== src/Agent/Guards/Gates.antt =====
-- What it takes to pass the gates of src/moc/agent/guards.py.
use moreofchat.Prelude.{
  String, str_eq, eq_iff, ◌≡◌, refl, ap, sym, ◌↔◌, Bool, true, ◌&&◌, ◌||◌, ◌∙◌, Option, none, some,
  List, [], ◌∷◌, ◌++◌, not, any, keep, is_empty, All, length, ◌+◌, arith,
}
use moreofchat.Agent.Guards.{
  Quantity, Constant, Numerals, is_grounded, of_passages, of_constant, of_constants,
  collect_sources, orphans_of, hedged_of, check_numeric_grounding, check_type_substitution,
  check_named_entities,
}
use Prim.{tt}

module _ {A : Type 0} (p : A → Bool) where
  none_dropped :
      (items : List A)
      → (is_empty (keep (λ a. not (p a)) items) ≡ true) ↔ All (λ (a : A). p a ≡ true) items
  none_dropped [] = (λ _. tt, λ _. refl)
  none_dropped (item ∷ items) = let rest = none_dropped items in grind (arith, rest.0, rest.1)

module _ {A : Type 0} (p : A → Bool) where
  length-keep_both :
      (items : List A) → length (keep (λ a. not (p a)) items) + length (keep p items) ≡ length items
  length-keep_both [] = omega arith
  length-keep_both (item ∷ items) = ground (arith, length-keep_both items)

some-injective : {a b : String} → ◌≡◌ {A = Option String} (some a) (some b) → a ≡ b
some-injective h = cc

module _ {A : Type 0} (P Q : A → Type 0) where
  All-map : ((a : A) → P a → Q a) → (items : List A) → All P items → All Q items
  All-map step [] held = tt
  All-map step (item ∷ items) held = (step item held.0, All-map step items held.1)

module _ {A : Type 0} (p : A → Bool) where
  any-append : (front back : List A) → any p (front ++ back) ≡ (any p front || any p back)
  any-append [] back = refl
  any-append (item ∷ front) back = grind (arith, any-append front back)

module _ {N T : Type 0} (numerals : Numerals N T) where
  -- A passage or a constant states the figure.
  unfoldable pub stated : N → List T → List (Constant N T) → Bool
  stated value passages constants =
      any (λ passage. is_grounded numerals value (numerals.extract_numbers passage)) passages
      || any (λ constant. is_grounded numerals value (of_constant numerals constant)) constants

  grounded-passages :
      (value : N) (passages : List T)
      → is_grounded numerals value (of_passages numerals passages)
        ≡ any (λ passage. is_grounded numerals value (numerals.extract_numbers passage)) passages
  unfolding is_grounded of_passages
  grounded-passages value [] = refl
  grounded-passages value (passage ∷ passages) =
      any-append (numerals.same value) (numerals.extract_numbers passage)
        (of_passages numerals passages)
      ∙ ap (λ b. any (numerals.same value) (numerals.extract_numbers passage) || b)
          (grounded-passages value passages)

  pub grounded-constants :
      (value : N) (constants : List (Constant N T))
      → is_grounded numerals value (of_constants numerals constants)
        ≡ any (λ constant. is_grounded numerals value (of_constant numerals constant)) constants
  unfolding is_grounded of_constants
  grounded-constants value [] = refl
  grounded-constants value (constant ∷ constants) =
      any-append (numerals.same value) (of_constant numerals constant)
        (of_constants numerals constants)
      ∙ ap (λ b. any (numerals.same value) (of_constant numerals constant) || b)
          (grounded-constants value constants)

  grounded-append :
      (value : N) (front back : List N)
      → is_grounded numerals value (front ++ back)
        ≡ (is_grounded numerals value front || is_grounded numerals value back)
  unfolding is_grounded
  grounded-append value front back = any-append (numerals.same value) front back

  pub grounded-stated :
      (value : N) (passages : List T) (constants : List (Constant N T))
      → is_grounded numerals value (collect_sources numerals passages constants)
        ≡ stated value passages constants
  unfolding collect_sources stated
  grounded-stated value passages constants =
      grounded-append value (of_passages numerals passages) (of_constants numerals constants)
      ∙ ap (λ b. b || is_grounded numerals value (of_constants numerals constants))
          (grounded-passages value passages)
      ∙ ap
          (λ b.
            any (λ passage. is_grounded numerals value (numerals.extract_numbers passage)) passages
            || b)
          (grounded-constants value constants)

  -- Each figure is stated by a source and is not hedged.
  gate-lem :
      (sources : List N) (quantities : List (Quantity N T))
      → ((is_empty (orphans_of numerals sources quantities)
            && is_empty (hedged_of numerals sources quantities))
          ≡ true)
        ↔ All
            (λ (q : Quantity N T).
              (is_grounded numerals q.value sources && not q.approximate) ≡ true)
            quantities
  unfolding orphans_of hedged_of
  gate-lem sources [] = (λ _. tt, λ _. refl)
  gate-lem sources (q ∷ quantities) =
      let rest = gate-lem sources quantities in grind (arith, rest.0, rest.1)

  -- A reply passes the numeric gate exactly where every figure in it is stated, as it is, by a
  -- retrieved passage or a script constant, and is not hedged.
  pub grounding-passes :
      (reply : T) (passages : List T) (constants : List (Constant N T))
      → ((check_numeric_grounding numerals reply passages constants).passed ≡ true)
        ↔ All
            (λ (q : Quantity N T). (stated q.value passages constants && not q.approximate) ≡ true)
            (numerals.extract_quantities reply)
  unfolding check_numeric_grounding
  grounding-passes reply passages constants =
      let sources = collect_sources numerals passages constants in
      let gate = gate-lem sources (numerals.extract_quantities reply) in
      let same_test = λ (q : Quantity N T).
        ap (λ b. b && not q.approximate) (grounded-stated q.value passages constants) in
      (
        λ passed. All-map _ _ (λ q held. sym (same_test q) ∙ held) _ (gate.0 passed),
        λ held. gate.1 (All-map _ _ (λ q clean. same_test q ∙ clean) _ held),
      )

-- An offer passes exactly where a type was asked for and every unit presented is of that type: where
-- none was asked for, it does not pass, whatever was presented.
pub substitution-passes :
    (requested : Option String) (presented : List (String × String))
    → ((check_type_substitution requested presented).passed ≡ true)
      ↔ ((r : String) × (requested ≡ some r) × All (λ (u : String × String). u.1 ≡ r) presented)
unfolding check_type_substitution
substitution-passes none presented = (λ passed. cc, λ asked. cc (asked.1))
substitution-passes (some r) presented =
    let gate = none_dropped (λ (u : String × String). str_eq u.1 r) presented in
    (
      λ passed. (r, refl, All-map _ _ (λ u held. (eq_iff u.1 r).0 held) presented (gate.0 passed)),
      λ asked. gate.1 (
          All-map _ _ (λ u held. (eq_iff u.1 r).1 (held ∙ sym (some-injective asked.1))) presented
            asked.2),
    )

-- The names of a reply pass exactly where each is in the catalogue, letter by letter; each name is
-- reported as matched or as invented, and the invented ones are those that the catalogue lacks.
pub entities-passes :
    (named catalogue : List String)
    → (((check_named_entities named catalogue).passed ≡ true)
        ↔ All (λ (name : String). any (str_eq name) catalogue ≡ true) named)
      × (length (check_named_entities named catalogue).invented
            + length (check_named_entities named catalogue).matched
          ≡ length named)
unfolding check_named_entities
entities-passes named catalogue = (
  none_dropped (λ name. any (str_eq name) catalogue) named,
  length-keep_both (λ name. any (str_eq name) catalogue) named,
)

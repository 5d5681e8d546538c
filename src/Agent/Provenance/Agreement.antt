-- ===== src/Agent/Provenance/Agreement.antt =====
-- The trace of figures and the grounding gate decide the same (src/moc/agent/provenance.py).
use moreofchat.Prelude.{
  ◌≡◌, refl, sym, ◌∙◌, Bool, ◌||◌, Option, none, some, List, [], ◌∷◌, map, any, all, is_some,
  is_empty, arith,
}
use moreofchat.Str.{Text}
use moreofchat.Agent.Guards.{
  Quantity, Constant, Numerals, is_grounded, of_constants, orphans_of, collect_sources,
  check_numeric_grounding,
}
use moreofchat.Agent.Guards.Gates.{stated, grounded-constants, grounded-stated}
use moreofchat.Agent.Provenance.{
  Passage, Row, Computation, FigureSource, held_is, in_values, row_or, in_row, computation_or,
  in_computation, find, from_row, from_computation, from_passage, bare_source, from_constants,
  or_constants, or_passage, or_computation, trace_figures,
}

module _ {N : Type 0} (numerals : Numerals N Text) (readable : N → Text)
    (digits : Text → Text) where
  -- A field of a row or of a tool's output states the figure.
  pub in_fields : N → List (Text × Option N) → Bool
  in_fields value values =
      any (λ (f : Text × Option N). held_is numerals readable digits value f.1) values

  in_values-is_some :
      (value : N) (values : List (Text × Option N))
      → is_some (in_values numerals readable digits value values) ≡ in_fields value values
  unfolding in_values in_fields
  in_values-is_some value [] = refl
  in_values-is_some value ((field_name, held) ∷ rest) = ground (arith, in_values-is_some value rest)

  row_or-is_some :
      (row : Row N) (here : Option Text) (later : Option (Row N × Text))
      → is_some (row_or numerals readable digits row here later) ≡ (is_some here || is_some later)
  unfolding row_or
  row_or-is_some row none later = refl
  row_or-is_some row (some field_name) later = refl

  in_row-is_some :
      (value : N) (rows : List (Row N))
      → is_some (in_row numerals readable digits value rows)
        ≡ any (λ row. in_fields value row.values) rows
  unfolding in_row
  in_row-is_some value [] = refl
  in_row-is_some value (row ∷ rows) =
      row_or-is_some row (in_values numerals readable digits value row.values)
        (in_row numerals readable digits value rows)
      ∙ cc (in_values-is_some value row.values, in_row-is_some value rows)

  computation_or-is_some :
      (c : Computation N) (here : Option Text) (later : Option (Computation N × Text))
      → is_some (computation_or numerals readable digits c here later)
        ≡ (is_some here || is_some later)
  unfolding computation_or
  computation_or-is_some c none later = refl
  computation_or-is_some c (some field_name) later = refl

  in_computation-is_some :
      (value : N) (computations : List (Computation N))
      → is_some (in_computation numerals readable digits value computations)
        ≡ any (λ c. in_fields value c.values) computations
  unfolding in_computation
  in_computation-is_some value [] = refl
  in_computation-is_some value (c ∷ computations) =
      computation_or-is_some c (in_values numerals readable digits value c.values)
        (in_computation numerals readable digits value computations)
      ∙ cc (in_values-is_some value c.values, in_computation-is_some value computations)

  find-is_some :
      (value : N) (passages : List Passage)
      → is_some (find numerals readable digits value passages)
        ≡ any
            (λ content. is_grounded numerals value (numerals.extract_numbers content))
            (map (λ p. p.content) passages)
  unfolding find
  find-is_some value [] = refl
  find-is_some value (passage ∷ passages) = ground (arith, find-is_some value passages)

  from_constants-grounded :
      (q : Quantity N Text) (constants : List N)
      → (from_constants numerals readable digits q constants).grounded
        ≡ is_grounded numerals q.value constants
  unfolding from_constants bare_source
  from_constants-grounded q constants = ground arith

  or_constants-grounded :
      (q : Quantity N Text) (constants : List N) (found : Option (Passage × Text))
      → (or_constants numerals readable digits q constants found).grounded
        ≡ (is_some found || is_grounded numerals q.value constants)
  unfolding or_constants from_passage
  or_constants-grounded q constants none = from_constants-grounded q constants
  or_constants-grounded q constants (some (passage, excerpt)) = refl

  or_passage-grounded :
      (q : Quantity N Text) (passages : List Passage) (constants : List N)
      (found : Option (Computation N × Text))
      → (or_passage numerals readable digits q passages constants found).grounded ≡ (
          is_some found
          || (is_some (find numerals readable digits q.value passages)
              || is_grounded numerals q.value constants))
  unfolding or_passage from_computation
  or_passage-grounded q passages constants none =
      or_constants-grounded q constants (find numerals readable digits q.value passages)
  or_passage-grounded q passages constants (some (c, field_name)) = refl

  or_computation-grounded :
      (q : Quantity N Text) (computations : List (Computation N)) (passages : List Passage)
      (constants : List N) (found : Option (Row N × Text))
      → (or_computation numerals readable digits q computations passages constants found).grounded
        ≡ (is_some found
            || (is_some (in_computation numerals readable digits q.value computations)
                || (is_some (find numerals readable digits q.value passages)
                    || is_grounded numerals q.value constants)))
  unfolding or_computation from_row
  or_computation-grounded q computations passages constants none =
      or_passage-grounded q passages constants
        (in_computation numerals readable digits q.value computations)
  or_computation-grounded q computations passages constants (some (row, field_name)) = refl

  -- What the evidence of a turn states: a row, a tool's output, a passage or a script constant.
  unfoldable pub evidenced :
      List Passage → List (Constant N Text) → List (Row N) → List (Computation N) → N → Bool
  evidenced passages constants rows computations value =
      any (λ row. in_fields value row.values) rows
      || (any (λ c. in_fields value c.values) computations
          || stated numerals value (map (λ p. p.content) passages) constants)

  traced-evidenced :
      (q : Quantity N Text) (passages : List Passage) (constants : List (Constant N Text))
      (rows : List (Row N)) (computations : List (Computation N))
      → (or_computation numerals readable digits q computations passages
          (of_constants numerals constants)
          (in_row numerals readable digits q.value rows)).grounded
        ≡ evidenced passages constants rows computations q.value
  unfolding evidenced stated
  traced-evidenced q passages constants rows computations =
      or_computation-grounded q computations passages (of_constants numerals constants)
        (in_row numerals readable digits q.value rows)
      ∙ cc (
        in_row-is_some q.value rows,
        in_computation-is_some q.value computations,
        find-is_some q.value passages,
        grounded-constants numerals q.value constants,
      )

  map-traced :
      (passages : List Passage) (constants : List (Constant N Text)) (rows : List (Row N))
      (computations : List (Computation N)) (quantities : List (Quantity N Text))
      → map
          (λ (f : FigureSource N). f.grounded)
          (map
            (λ q.
              or_computation numerals readable digits q computations passages
                (of_constants numerals constants)
                (in_row numerals readable digits q.value rows))
            quantities)
        ≡ map (λ q. evidenced passages constants rows computations q.value) quantities
  map-traced passages constants rows computations [] = refl
  map-traced passages constants rows computations (q ∷ quantities) = cc (
    traced-evidenced q passages constants rows computations,
    map-traced passages constants rows computations quantities,
  )

  -- Every figure of a reply is in the trace, in order, and is shown as grounded exactly where a row, a
  -- tool's output, a retrieved passage or a script constant states it.
  pub trace_figures-grounded :
      (reply : Text) (passages : List Passage) (constants : List (Constant N Text))
      (rows : List (Row N)) (computations : List (Computation N))
      → map
          (λ f. f.grounded)
          (trace_figures numerals readable digits reply passages constants rows computations)
        ≡ map
            (λ q. evidenced passages constants rows computations q.value)
            (numerals.extract_quantities reply)
  unfolding trace_figures
  trace_figures-grounded reply passages constants rows computations =
      map-traced passages constants rows computations (numerals.extract_quantities reply)

  orphans-evidenced :
      (passages : List Passage) (constants : List (Constant N Text))
      (quantities : List (Quantity N Text))
      → is_empty (
          map
            (λ q. q.value)
            (orphans_of numerals
              (collect_sources numerals (map (λ p. p.content) passages) constants)
              quantities))
        ≡ all (λ q. evidenced passages constants [] [] q.value) quantities
  unfolding orphans_of evidenced
  orphans-evidenced passages constants [] = refl
  orphans-evidenced passages constants (q ∷ quantities) = ground (
    arith,
    grounded-stated numerals q.value (map (λ p. p.content) passages) constants,
    orphans-evidenced passages constants quantities,
  )

  all-traced :
      (passages : List Passage) (constants : List (Constant N Text)) (rows : List (Row N))
      (computations : List (Computation N)) (quantities : List (Quantity N Text))
      → all
          (λ (f : FigureSource N). f.grounded)
          (map
            (λ q.
              or_computation numerals readable digits q computations passages
                (of_constants numerals constants)
                (in_row numerals readable digits q.value rows))
            quantities)
        ≡ all (λ q. evidenced passages constants rows computations q.value) quantities
  all-traced passages constants rows computations [] = refl
  all-traced passages constants rows computations (q ∷ quantities) = cc (
    traced-evidenced q passages constants rows computations,
    all-traced passages constants rows computations quantities,
  )

  -- On a document answer, which has no inventory row and no tool output, the gate finds no orphan
  -- exactly where the trace shows every figure as grounded.
  pub trace_figures-agrees :
      (reply : Text) (passages : List Passage) (constants : List (Constant N Text))
      → is_empty
          (check_numeric_grounding numerals reply
            (map (λ p. p.content) passages)
            constants).orphan_numbers
        ≡ all
            (λ f. f.grounded)
            (trace_figures numerals readable digits reply passages constants [] [])
  unfolding trace_figures check_numeric_grounding
  trace_figures-agrees reply passages constants =
      orphans-evidenced passages constants (numerals.extract_quantities reply)
      ∙ sym (all-traced passages constants [] [] (numerals.extract_quantities reply))

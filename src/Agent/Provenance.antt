-- ===== src/Agent/Provenance.antt =====
-- src/moc/agent/provenance.py: the figures of a reply, each with what grounded it. The figures and
-- their extraction are the interface of the grounding gate; `readable` prints a figure, and `digits` is
-- the digit normalizer.
pub mod Agreement
mod Tests
use moreofchat.Prelude.{
  ℕ, Bool, true, false, Option, none, some, List, [], ◌∷◌, ◌++◌, map, ltb, ◌==◌, if◌then◌else◌,
}
use moreofchat.Str.{Text, contains_char, strip, join}
use moreofchat.Agent.Guards.{Quantity, Constant, Numerals, is_grounded, of_constants}

pub data Source : Type 0 where
  chunk script inventory calculator : Source

pub record Passage : Type 0 where
  pub chunk_id : Text
  pub content : Text
  pub title : Option Text
  pub as_of : Option Text

-- A field that is null holds no figure.
pub record Row (N : Type 0) : Type 0 where
  pub unit_id : Text
  pub values : List (Text × Option N)
  pub title : Option Text
  pub as_of : Option Text

-- The inputs are printed as `_readable` gives them.
pub record Computation (N : Type 0) : Type 0 where
  pub tool : Text
  pub values : List (Text × Option N)
  pub inputs : List (Text × Text)
  pub unit_id : Option Text
  pub as_of : Option Text

pub record FigureSource (N : Type 0) : Type 0 where
  pub value : N
  pub raw : Text
  pub grounded : Bool
  pub source : Option Source
  pub chunk_id : Option Text
  pub title : Option Text
  pub as_of : Option Text
  pub excerpt : Text

-- The order of texts by their code points.
unfoldable pub text_lt : Text → Text → Bool
text_lt s [] = false
text_lt [] (d ∷ t) = true
text_lt (c ∷ s) (d ∷ t) = let rest = text_lt s t in if c == d then rest else ltb c d

unfoldable pub insert_input : Text × Text → List (Text × Text) → List (Text × Text)
insert_input p [] = p ∷ []
insert_input p (q ∷ rest) =
    let later = insert_input p rest in if text_lt q.0 p.0 then q ∷ later else p ∷ (q ∷ rest)

unfoldable pub sort_inputs : List (Text × Text) → List (Text × Text)
sort_inputs [] = []
sort_inputs (p ∷ rest) = insert_input p (sort_inputs rest)

-- ", ".join(...)
unfoldable pub join_comma : List Text → Text
join_comma [] = []
join_comma (s ∷ []) = s
join_comma (s ∷ (next ∷ rest)) = s ++ (44 ∷ (32 ∷ join_comma (next ∷ rest)))

-- The endings of `_SENTENCE_ENDINGS`, Arabic ones included.
abbrev sentence_endings : Text
sentence_endings = 46 ∷ 33 ∷ 63 ∷ 1567 ∷ 1563 ∷ 1748 ∷ 10 ∷ []

-- The parts of `_split`, of which `current` is the one that is open.
unfoldable pub split_from : Text → Text → List Text
split_from [] [] = []
split_from (c ∷ current) [] = (c ∷ current) ∷ []
split_from current (c ∷ rest) =
    let closed = (current ++ (c ∷ [])) ∷ split_from [] rest in
    let going = split_from (current ++ (c ∷ [])) rest in
    if contains_char sentence_endings c then closed else going

module _ {N : Type 0} (numerals : Numerals N Text) (readable : N → Text)
    (digits : Text → Text) where
  unfoldable pub held_is : N → Option N → Bool
  held_is value none = false
  held_is value (some held) = is_grounded numerals value (held ∷ [])

  -- The first field that states the figure.
  unfoldable pub in_values : N → List (Text × Option N) → Option Text
  in_values value [] = none
  in_values value ((field_name, held) ∷ rest) =
      let later = in_values value rest in if held_is value held then some field_name else later

  unfoldable pub row_or : Row N → Option Text → Option (Row N × Text) → Option (Row N × Text)
  row_or row (some field_name) later = some (row, field_name)
  row_or row none later = later

  unfoldable pub in_row : N → List (Row N) → Option (Row N × Text)
  in_row value [] = none
  in_row value (row ∷ rows) = row_or row (in_values value row.values) (in_row value rows)

  unfoldable pub computation_or :
      Computation N → Option Text → Option (Computation N × Text) → Option (Computation N × Text)
  computation_or c (some field_name) later = some (c, field_name)
  computation_or c none later = later

  unfoldable pub in_computation : N → List (Computation N) → Option (Computation N × Text)
  in_computation value [] = none
  in_computation value (c ∷ computations) =
      computation_or c (in_values value c.values) (in_computation value computations)

  -- `f"{field_name} = {_readable(value)}"`
  unfoldable pub equation : Text → N → Text
  equation field_name value = field_name ++ (32 ∷ 61 ∷ 32 ∷ readable value)

  unfoldable pub from_row : Quantity N Text → Row N × Text → FigureSource N
  from_row q (row, field_name) = record {
    value = q.value;
    raw = q.raw;
    grounded = true;
    source = some inventory;
    chunk_id = some row.unit_id;
    title = row.title;
    as_of = row.as_of;
    excerpt = equation field_name q.value;
  }

  -- The inputs as name=value, in the order of their names.
  unfoldable pub arguments : Computation N → Text
  arguments c = join_comma (map (λ (p : Text × Text). p.0 ++ (61 ∷ p.1)) (sort_inputs c.inputs))

  unfoldable pub from_computation : Quantity N Text → Computation N × Text → FigureSource N
  from_computation q (c, field_name) = record {
    value = q.value;
    raw = q.raw;
    grounded = true;
    source = some calculator;
    chunk_id = c.unit_id;
    title = none;
    as_of = c.as_of;
    excerpt =
        equation field_name q.value
        ++ (32 ∷ 8212 ∷ 32 ∷ (c.tool ++ (40 ∷ (arguments c ++ (41 ∷ [])))));
  }

  -- The first sentence that states the figure, or the whole content.
  unfoldable pub sentence_or : N → Text → List Text → Text
  sentence_or value content [] = strip content
  sentence_or value content (s ∷ sentences) =
      let later = sentence_or value content sentences in
      if is_grounded numerals value (numerals.extract_numbers s) then strip s else later

  unfoldable pub excerpt_of : N → Text → Text
  excerpt_of value content = sentence_or value content (split_from [] (digits content))

  unfoldable pub find : N → List Passage → Option (Passage × Text)
  find value [] = none
  find value (passage ∷ passages) =
      let later = find value passages in
      if is_grounded numerals value (numerals.extract_numbers passage.content)
      then some (passage, excerpt_of value passage.content)
      else later

  unfoldable pub from_passage : Quantity N Text → Passage × Text → FigureSource N
  from_passage q (passage, excerpt) = record {
    value = q.value;
    raw = q.raw;
    grounded = true;
    source = some chunk;
    chunk_id = some passage.chunk_id;
    title = passage.title;
    as_of = passage.as_of;
    excerpt = excerpt;
  }

  unfoldable pub bare_source : Quantity N Text → Bool → Option Source → FigureSource N
  bare_source q grounded source = record {
    value = q.value;
    raw = q.raw;
    grounded = grounded;
    source = source;
    chunk_id = none;
    title = none;
    as_of = none;
    excerpt = [];
  }

  unfoldable pub from_constants : Quantity N Text → List N → FigureSource N
  from_constants q constants =
      if is_grounded numerals q.value constants
      then bare_source q true (some script)
      else bare_source q false none

  unfoldable pub or_constants : Quantity N Text → List N → Option (Passage × Text) → FigureSource N
  or_constants q constants (some found) = from_passage q found
  or_constants q constants none = from_constants q constants

  unfoldable pub or_passage :
      Quantity N Text → List Passage → List N → Option (Computation N × Text) → FigureSource N
  or_passage q passages constants (some found) = from_computation q found
  or_passage q passages constants none = or_constants q constants (find q.value passages)

  unfoldable pub or_computation :
      Quantity N Text
      → List (Computation N)
      → List Passage
      → List N
      → Option (Row N × Text)
      → FigureSource N
  or_computation q computations passages constants (some found) = from_row q found
  or_computation q computations passages constants none =
      or_passage q passages constants (in_computation q.value computations)

  unfoldable pub trace_figures :
      Text
      → List Passage
      → List (Constant N Text)
      → List (Row N)
      → List (Computation N)
      → List (FigureSource N)
  trace_figures reply passages constants rows computations =
      map
        (λ q.
          or_computation q computations passages (of_constants numerals constants)
            (in_row q.value rows))
        (numerals.extract_quantities reply)

-- ===== src/Agent/Guards.antt =====
-- src/moc/agent/guards.py: the gates that a reply passes before it is sent. `N` is the type of the
-- figures, `same` their equality as floats, and `T` that of texts; `extract_quantities` and
-- `extract_numbers` are the two of src/moc/arabic/numerals.py, and `sort` is the order of the report.
pub mod Gates
pub mod Reading
mod Tests
use moreofchat.Prelude.{
  String, str_eq, Bool, true, false, ◌&&◌, Option, none, some, List, [], ◌∷◌, ◌++◌, map, not, any,
  keep, is_empty, if◌then◌else◌,
}

pub record Quantity (N T : Type 0) : Type 0 where
  pub value : N
  pub raw : T
  pub approximate : Bool

-- A constant of a script: a number from a tool, or a text that may hold several.
pub data Constant (N T : Type 0) : Type 0 where
  figure : N → Constant N T
  written : T → Constant N T

pub record GroundingResult (N : Type 0) : Type 0 where
  pub passed : Bool
  pub orphan_numbers : List N
  pub hedged_numbers : List N
  pub reply_numbers : List N
  pub source_numbers : List N

pub record Numerals (N T : Type 0) : Type 0 where
  pub same : N → N → Bool
  pub extract_quantities : T → List (Quantity N T)
  pub extract_numbers : T → List N
  pub sort : List N → List N

module _ {N T : Type 0} (numerals : Numerals N T) where
  unfoldable pub is_grounded : N → List N → Bool
  is_grounded value sources = any (numerals.same value) sources

  unfoldable pub of_passages : List T → List N
  of_passages [] = []
  of_passages (passage ∷ passages) = numerals.extract_numbers passage ++ of_passages passages

  unfoldable pub of_constant : Constant N T → List N
  of_constant (figure value) = value ∷ []
  of_constant (written text) = numerals.extract_numbers text

  unfoldable pub of_constants : List (Constant N T) → List N
  of_constants [] = []
  of_constants (constant ∷ constants) = of_constant constant ++ of_constants constants

  -- One of each of the numbers, which is what the set holds.
  unfoldable pub unique : List N → List N
  unique [] = []
  unique (value ∷ values) =
      let rest = unique values in if is_grounded value rest then rest else value ∷ rest

  -- The numbers in the order in which they are added to the set, which holds one of each.
  unfoldable pub collect_sources : List T → List (Constant N T) → List N
  collect_sources passages constants = of_passages passages ++ of_constants constants

  unfoldable pub orphans_of : List N → List (Quantity N T) → List (Quantity N T)
  orphans_of sources quantities = keep (λ q. not (is_grounded q.value sources)) quantities

  unfoldable pub hedged_of : List N → List (Quantity N T) → List (Quantity N T)
  hedged_of sources quantities =
      keep (λ q. q.approximate) (keep (λ q. is_grounded q.value sources) quantities)

  unfoldable pub check_numeric_grounding : T → List T → List (Constant N T) → GroundingResult N
  check_numeric_grounding reply passages constants =
      let quantities = numerals.extract_quantities reply in
      let sources = collect_sources passages constants in
      let orphans = orphans_of sources quantities in
      let hedged = hedged_of sources quantities in
      record {
        passed = is_empty orphans && is_empty hedged;
        orphan_numbers = map (λ q. q.value) orphans;
        hedged_numbers = map (λ q. q.value) hedged;
        reply_numbers = map (λ q. q.value) quantities;
        source_numbers = numerals.sort (unique sources);
      }

pub record SubstitutionResult : Type 0 where
  pub passed : Bool
  pub requested_type : Option String
  pub substituted : List (String × String)

-- `presented` pairs the id of each unit offered with its property type.
unfoldable pub check_type_substitution : Option String → List (String × String) → SubstitutionResult
check_type_substitution none presented = record {
  passed = false;
  requested_type = none;
  substituted = [];
}
check_type_substitution (some requested) presented =
    let wrong = keep (λ (u : String × String). not (str_eq u.1 requested)) presented in
    record { passed = is_empty wrong; requested_type = some requested; substituted = wrong }

pub record EntityGroundingResult : Type 0 where
  pub passed : Bool
  pub invented : List String
  pub matched : List String

unfoldable pub check_named_entities : List String → List String → EntityGroundingResult
check_named_entities named catalogue =
    let invented = keep (λ name. not (any (str_eq name) catalogue)) named in
    record {
      passed = is_empty invented;
      invented = invented;
      matched = keep (λ name. any (str_eq name) catalogue) named;
    }

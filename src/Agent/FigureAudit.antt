-- ===== src/Agent/FigureAudit.antt =====
-- src/moc/agent/figure_audit.py: the claims that a second model makes of a reply, checked against the
-- material. `C` is the type of completions. The prompt and the call are `complete`, which answers none
-- where it raises; `decode` is the fence and the JSON reader, and answers the items of the list under
-- `figures`, or none where the text is no such document; an item that is no object is none, and a span
-- that is empty or null is absent.
pub mod Verdict
mod Tests
use moreofchat.Prelude.{
  ℕ, Bool, true, false, ◌&&◌, ◌||◌, Option, none, some, List, [], ◌∷◌, ◌++◌, keep, length, not,
  is_empty, if◌then◌else◌, map,
}
use moreofchat.Str.{Text, starts_with}
use moreofchat.Arabic.Numerals.{Lexicon, Unicode, normalize_digits}
use moreofchat.Arabic.Numerals.Parse.{strip_of}
use moreofchat.Arabic.Numerals.Scan.{extract_quantities}

pub record UnsupportedClaim : Type 0 where
  pub figure : Text
  pub claim : Text
  pub span : Option Text

-- The keys of an item, each with its text.
pub record Item : Type 0 where
  pub figure : Option Text
  pub claim : Option Text
  pub span : Option Text

pub record FigureAudit (C : Type 0) : Type 0 where
  pub passed : Bool
  pub unsupported : List UnsupportedClaim
  pub checked : ℕ
  pub degraded : Bool
  pub completion : Option C

pub record Auditor (C : Type 0) : Type 0 where
  pub complete : List Text → Text → Option C
  pub text_of : C → Text
  pub decode : Text → Option (List (Option Item))

-- `needle in text`
unfoldable pub is_within : Text → Text → Bool
is_within needle [] = is_empty needle
is_within needle (c ∷ text) = starts_with (c ∷ text) needle || is_within needle text

-- "%", the Arabic percent sign, a space, a tab and a newline.
abbrev pub trim : Text
trim = 37 ∷ (1642 ∷ (32 ∷ (9 ∷ (10 ∷ []))))

-- "\n\n".join(...)
unfoldable pub join_material : List Text → Text
join_material [] = []
join_material (s ∷ []) = s
join_material (s ∷ (next ∷ rest)) = s ++ (10 ∷ (10 ∷ join_material (next ∷ rest)))

unfoldable pub add_claim :
    Option UnsupportedClaim → Option (List UnsupportedClaim) → Option (List UnsupportedClaim)
add_claim (some c) (some claims) = some (c ∷ claims)
add_claim _ _ = none

unfoldable pub claim_from : Option Text → Option Text → Option Text → Option UnsupportedClaim
claim_from (some figure) (some claim) span =
    some (record { figure = figure; claim = claim; span = span })
claim_from _ _ span = none

unfoldable pub claim_of : Option Item → Option UnsupportedClaim
claim_of none = none
claim_of (some item) = claim_from item.figure item.claim item.span

unfoldable pub claims_of : List (Option Item) → Option (List UnsupportedClaim)
claims_of [] = some []
claims_of (item ∷ items) = add_claim (claim_of item) (claims_of items)

unfoldable pub claims_in : Option (List (Option Item)) → Option (List UnsupportedClaim)
claims_in none = none
claims_in (some items) = claims_of items

module _ (u : Unicode) (lex : Lexicon) where
  unfoldable pub is_supported : Text → UnsupportedClaim → Bool
  is_supported haystack c = elim c.span [
    | none ↦ false
    | some span ↦
        not (is_empty span)
        && not (is_empty (strip_of trim (normalize_digits lex c.figure)))
        && is_within (normalize_digits lex span) haystack
        && is_within (strip_of trim (normalize_digits lex c.figure)) (normalize_digits lex span)
  ]

  module _ {C : Type 0} (auditor : Auditor C) where
    -- `_parse`
    unfoldable pub parse : Text → Option (List UnsupportedClaim)
    parse text = claims_in (auditor.decode text)

    unfoldable pub verdict : List Text → C → Option (List UnsupportedClaim) → FigureAudit C
    verdict material completion none = record {
      passed = true;
      unsupported = [];
      checked = 0;
      degraded = true;
      completion = some completion;
    }
    verdict material completion (some claims) =
        let unsupported =
          keep (λ c. not (is_supported (normalize_digits lex (join_material material)) c)) claims in
        record {
          passed = is_empty unsupported;
          unsupported = unsupported;
          checked = length claims;
          degraded = false;
          completion = some completion;
        }

    unfoldable pub of_call : List Text → Option C → FigureAudit C
    of_call material none = record {
      passed = true;
      unsupported = [];
      checked = 0;
      degraded = true;
      completion = none;
    }
    of_call material (some completion) =
        verdict material completion (parse (auditor.text_of completion))

    unfoldable pub audit_figures : Text → List Text → FigureAudit C
    audit_figures reply material =
        let asked = of_call material (auditor.complete material reply) in
        if is_empty (extract_quantities u lex reply)
        then record {
          passed = true;
          unsupported = [];
          checked = 0;
          degraded = false;
          completion = none;
        }
        else asked

-- ===== src/Agent/FigureAudit/Verdict.antt =====
-- What a clean audit says (src/moc/agent/figure_audit.py).
use moreofchat.Prelude.{◌≡◌, true, false, some, List, length, is_empty, All}
use moreofchat.Str.{Text}
use moreofchat.Arabic.Numerals.{Lexicon, Unicode, normalize_digits}
use moreofchat.Arabic.Numerals.Parse.{strip_of}
use moreofchat.Agent.FigureAudit.{
  trim, is_within, UnsupportedClaim, FigureAudit, Auditor, join_material, parse,
}

module _ (u : Unicode) (lex : Lexicon) {C : Type 0} (auditor : Auditor C) where
  -- The claim quotes a span of the material, and the span holds the figure.
  pub data IsQuoted (haystack : Text) (claim : UnsupportedClaim) : Type 0 where
    quoted :
        (span : Text)
        → claim.span ≡ some span
        → is_within (normalize_digits lex span) haystack ≡ true
        → is_within (strip_of trim (normalize_digits lex claim.figure)) (normalize_digits lex span)
          ≡ true
        → is_empty (strip_of trim (normalize_digits lex claim.figure)) ≡ false
        → IsQuoted haystack claim

  -- The audit read a document of claims, each of which quotes a span of the material that holds its
  -- figure, and counted them all.
  pub data IsVerified (material : List Text) (a : FigureAudit C) : Type 0 where
    verified :
        (c : C) (claims : List UnsupportedClaim)
        → parse u lex auditor (auditor.text_of c) ≡ some claims
        → All
            (λ (claim : UnsupportedClaim).
              IsQuoted (normalize_digits lex (join_material material)) claim)
            claims
        → a.checked ≡ length claims
        → IsVerified material a

-- ===== src/Agent/Redaction/Spans.antt =====
-- Which spans `redact` cuts out (src/moc/agent/guards.py).
use moreofchat.Prelude.{◌≡◌, false, List, [], ◌∷◌, any}
use moreofchat.Agent.Redaction.{Span, overlaps}
use Prim.{Unit}

-- No two of the spans overlap.
abbrev pub IsDisjoint : List Span → Type 0
IsDisjoint [] = Unit
IsDisjoint (s ∷ spans) = (any (overlaps s) spans ≡ false) × IsDisjoint spans

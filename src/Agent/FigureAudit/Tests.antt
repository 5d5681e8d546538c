-- ===== src/Agent/FigureAudit/Tests.antt =====
-- The audit of a short reply (src/moc/agent/figure_audit.py).
use moreofchat.Prelude.{ℕ, Option, some, List, [], ◌∷◌}
use moreofchat.Str.{Text}
use moreofchat.Agent.FigureAudit.{Item, FigureAudit, Auditor}

-- The auditor quotes the sentence "F 140" for the figure "140 ", in Arabic digits.
abbrev item : Option Item
item = some (record {
  figure = some (1633 ∷ (1636 ∷ (1632 ∷ (32 ∷ []))));
  claim = some (70 ∷ []);
  span = some (70 ∷ (32 ∷ (49 ∷ (52 ∷ (48 ∷ [])))));
})

abbrev auditor : Auditor ℕ
auditor = record {
  complete = λ material reply. some 1;
  text_of = λ c. [];
  decode = λ text. some (item ∷ []);
}

abbrev material : List Text
material = (65 ∷ (70 ∷ (32 ∷ (49 ∷ (52 ∷ (48 ∷ [])))))) ∷ []

abbrev reply : Text
reply = 49 ∷ (52 ∷ (48 ∷ []))

-- ===== src/Agent/State/Tests.antt =====
-- A conversation state written as the column holds it and read back.
use moreofchat.Prelude.{String, none, some, [], ◌∷◌}
use moreofchat.Agent.State.{ConversationState}

abbrev at_fees : ConversationState String
at_fees = record {
  script_id = "education";
  script_version = 3;
  node = some "fees";
  slots = ("faculty", "dentistry") ∷ [];
  consecutive_clarifications = 1;
  quoted_unit_id = none;
}

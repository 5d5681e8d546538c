-- ===== src/Agent/Conversations/Tests.antt =====
-- A thread saved and read back (src/moc/agent/conversations.py).
use moreofchat.Prelude.{ℕ, ◌≡◌, refl, String, Option, none, some, List, [], ◌∷◌, arith}
use moreofchat.Result.{ok}
use moreofchat.Agent.State.{ConversationState}
use moreofchat.Agent.Conversations.{Conversation, load, find, save}
use moreofchat.Agent.Conversations.Save.{IsSingle, save-load, save-others}

abbrev at_node : Option String → ConversationState ℕ
at_node node = record {
  script_id = "education";
  script_version = 2;
  node = node;
  slots = [];
  consecutive_clarifications = 0;
  quoted_unit_id = none;
}

abbrev rows : List (Conversation ℕ)
rows =
    record {
      id = "c1";
      channel = some "whatsapp";
      sender_ref = some "+20100";
      state = [];
      channel_account_id = none;
      last_inbound_at = some 5;
      contact_id = none;
    }
    ∷ []

save-load_example :
    (load "whatsapp" "+20100"
        (at_node none)
        (save "c2" "whatsapp" "+20100" none (some 9) (at_node (some "fees")) (some "p1") rows).0
      ≡ ok (at_node (some "fees")))
    × (find "whatsapp" "+20100"
          (save "c2" "whatsapp" "+20100" none (some 9) (at_node (some "fees")) (some "p1") rows).0
        ≡ ok (
            some
              (save "c2" "whatsapp" "+20100" none
                (some 9)
                (at_node (some "fees"))
                (some "p1")
                rows).1))
    × IsSingle "whatsapp" "+20100"
        (save "c2" "whatsapp" "+20100" none (some 9) (at_node (some "fees")) (some "p1") rows).0
save-load_example =
    save-load "c2" "whatsapp" "+20100" none (some 9) (at_node (some "fees")) (at_node none)
      (some "p1") rows (omega arith)

save-others_example :
    (load "telegram" "+20100"
        (at_node none)
        (save "c2" "whatsapp" "+20100" none (some 9) (at_node (some "fees")) (some "p1") rows).0
      ≡ load "telegram" "+20100" (at_node none) rows)
    × (find "telegram" "+20100"
          (save "c2" "whatsapp" "+20100" none (some 9) (at_node (some "fees")) (some "p1") rows).0
        ≡ find "telegram" "+20100" rows)
save-others_example =
    save-others "c2" "whatsapp" "+20100" "telegram" "+20100" none (some 9) (at_node (some "fees"))
      (at_node none) (some "p1") rows refl

-- ===== src/Workers/Inbound/Tests.antt =====
-- One message through the worker on small tables (src/moc/workers/inbound.py).
use moreofchat.Prelude.{ℕ, suc, ◌≡◌, refl, String, none, some, List, [], ◌∷◌, map, arith}
use Prim.{tt}
use moreofchat.Result.{ok}
use moreofchat.Dict.{Dict, get}
use moreofchat.Agent.State.{ConversationState}
use moreofchat.Agent.State.Json.{Json}
use moreofchat.Agent.Engine.{ScriptEngine, Script, start}
use moreofchat.Agent.Handoff.{Handoff, opened, live_for_conversation, one_or_none}
use moreofchat.Agent.Conversations.{Conversation, load, load_row, find, id_of, scalar_one_or_none}
use moreofchat.Workers.Inbound.{InboundMessage, TurnResult, World, Fresh, Served, InboundWorker}
use moreofchat.Workers.Inbound.Session.{live_handoff}
use moreofchat.Workers.Inbound.Handle.{
  served_for, retriever_for, current_engine, pinned_engine, handle,
}
use moreofchat.Workers.Inbound.Handled.{job_to, IsHandled, handle-IsHandled}
use moreofchat.Workers.Inbound.Suspended.{inbound_row}
use moreofchat.Workers.Inbound.Progress.{heard_at, handle-suspended, handle-answers}

abbrev script : Script
script = record {
  script_id = "education";
  version = 1;
  entry = some "greeting";
  max_consecutive_clarifications = none;
  referral_texts = [];
  slots = [];
  nodes = [];
}

abbrev engine : ScriptEngine ℕ
engine = record {
  script = script;
  max_clarifications = 2;
  confidence_threshold = 35;
  by_intent = [];
}

abbrev state : ConversationState ℕ
state = record {
  script_id = "education";
  script_version = 1;
  node = some "fees";
  slots = [];
  consecutive_clarifications = 0;
  quoted_unit_id = none;
}

abbrev result : TurnResult ℕ ℕ
result = record { state = state; reply = "1400"; provenance = none; timings = none }

-- The ledger counts the turns.
abbrev served : Served String ℕ ℕ ℕ ℕ ℕ
served = record { runner = λ e r s t c ledger. ok (suc ledger, result); engine = engine }

abbrev worker : InboundWorker String ℕ ℕ ℕ ℕ ℕ
worker = record {
  served = ("education", served) ∷ [];
  scripts = none;
  retrievers = none;
  xadd = λ job. none;
  isoformat = λ at. "2026-01-01T00:00:49+00:00";
}

-- The same worker while the server is down.
abbrev cut_off : InboundWorker String ℕ ℕ ℕ ℕ ℕ
cut_off = record worker { xadd = λ job. some "connection refused" }

abbrev fresh : Fresh
fresh = record { conversation = "c9"; contact = "p9"; inbound = "m1"; reply = "m2"; now = 50 }

abbrev message : InboundMessage
message = record {
  tenant_id = "t1";
  channel = "whatsapp";
  channel_account_id = "a1";
  sender_ref = "+20100";
  received_at = 49;
  thread_ref = none;
  text = some "fees?";
}

abbrev thread : Conversation ℕ
thread = record {
  id = "c1";
  channel = some "whatsapp";
  sender_ref = some "+20100";
  state = [];
  channel_account_id = none;
  last_inbound_at = some 5;
  contact_id = none;
}

abbrev handoff : Handoff (Dict (Json ℕ))
handoff = record {
  id = "h1";
  conversation_id = "c1";
  reason = "asked";
  status = opened;
  resume_state = [];
  opened_at = 6;
  claimed_at = none;
  claimed_by = none;
  returned_at = none;
  team = none;
  lead_qualified = none;
  lead_score = none;
}

abbrev world : List (Handoff (Dict (Json ℕ))) → World ℕ ℕ ℕ
world handoffs = record {
  db = record {
    vertical = some "education";
    conversations = thread ∷ [];
    handoffs = handoffs;
    messages = [];
    contacts = [];
    ledger = 7;
  };
  outbound = [];
}

handle-IsHandled_example :
    IsHandled cut_off.isoformat message (world []) (handle cut_off fresh message (world []))
handle-IsHandled_example = handle-IsHandled cut_off fresh message (world [])

handle-suspended_example :
    (handle worker fresh message (world (handoff ∷ [])) ≡ (
      record (world (handoff ∷ [])) {
        db = record (world (handoff ∷ [])).db {
          messages = inbound_row fresh message "c1" ∷ [];
          conversations = heard_at "c1" 49 (thread ∷ []);
        };
      },
      ok tt,
    ))
    × (map (λ (c : Conversation ℕ). c.state) (heard_at "c1" 49 (thread ∷ []))
        ≡ map (λ (c : Conversation ℕ). c.state) (thread ∷ []))
unfolding served_for get retriever_for current_engine pinned_engine load find load_row id_of
    scalar_one_or_none live_for_conversation one_or_none
handle-suspended_example =
    handle-suspended worker fresh message (world (handoff ∷ [])) served none engine engine
      (start engine) (some "c1") refl refl refl refl refl refl "c1" handoff refl refl

handle-answers_example :
    ((handle worker fresh message (world [])).1 ≡ ok tt)
    × ((handle worker fresh message (world [])).0.outbound
        ≡ job_to (worker.isoformat 49) message "1400" ∷ [])
    × ((handle worker fresh message (world [])).0.db.ledger ≡ 8)
    × (load "whatsapp" "+20100"
          (start engine)
          (handle worker fresh message (world [])).0.db.conversations
        ≡ ok state)
unfolding served_for get retriever_for current_engine pinned_engine load find load_row id_of
    scalar_one_or_none live_for_conversation one_or_none live_handoff
handle-answers_example =
    handle-answers worker fresh message (world []) served none engine engine (start engine)
      (some "c1") refl refl refl refl refl refl 8 result refl refl refl refl (omega arith)

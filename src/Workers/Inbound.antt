-- ===== src/Workers/Inbound.antt =====
-- src/moc/workers/inbound.py: one customer message through the agent worker. The turn runners, the
-- retrievers and the script resolver are parameters, and so is the type `W` of the usage ledger that a
-- runner writes; the decoding of the stream's payload and the typing indicator, whose failures the
-- code swallows, are left out. New ids are arguments.
pub mod Session
pub mod Handle
pub mod Suspended
pub mod Recorded
pub mod Progress
pub mod Logged
pub mod Turn
pub mod Handled
mod Tests
use moreofchat.Prelude.{
  ℕ, String, str_eq, Bool, true, false, ◌&&◌, Option, none, some, List, [], ◌∷◌, ◌++◌, map,
  if◌then◌else◌, ◌==◌, not, get_or, is_some,
}
use Prim.{Unit, tt}
use moreofchat.Result.{Result, ok, err, ◌>>=◌}
use moreofchat.Dict.{Dict, get}
use moreofchat.Agent.State.{ConversationState}
use moreofchat.Agent.State.Json.{Json}
use moreofchat.Agent.Engine.{ScriptEngine, start}
use moreofchat.Agent.Conversations.{Conversation, load, find, touch, save}
use moreofchat.Agent.Conversations as Conversations
use moreofchat.Agent.Handoff.{Handoff, Tables, StoreError, live_for_conversation}
use moreofchat.Agent.Messages.{Message, Contact, customer, bot, resolve, append}
use moreofchat.Agent.Messages as Messages
use moreofchat.Workers.Outbound.{OutboundJob}

pub record InboundMessage : Type 0 where
  pub tenant_id : String
  pub channel : String
  pub channel_account_id : String
  pub sender_ref : String
  pub received_at : ℕ
  pub thread_ref : Option String
  pub text : Option String

pub record TurnResult (V P : Type 0) : Type 0 where
  pub state : ConversationState V
  pub reply : String
  pub provenance : Option (Dict P)
  pub timings : Option (Dict P)

-- The rows of one tenant, as its session sees them.
pub record Db (V P W : Type 0) : Type 0 where
  pub vertical : Option String
  pub conversations : List (Conversation V)
  pub handoffs : List (Handoff (Dict (Json V)))
  pub messages : List (Message P)
  pub contacts : List Contact
  pub ledger : W

pub record World (V P W : Type 0) : Type 0 where
  pub db : Db V P W
  pub outbound : List OutboundJob

pub data Error (E : Type 0) : Type 0 where
  wrong_vertical : Option String → Error E
  conversation_error : Conversations.Error → Error E
  handoff_error : StoreError → Error E
  message_error : Messages.Error → Error E
  raised : E → Error E

-- The ids and the clock of one turn.
pub record Fresh : Type 0 where
  pub conversation : String
  pub contact : String
  pub inbound : String
  pub reply : String
  pub now : ℕ

-- A runner's `handle` on the engine, the retriever, the state, the text, the channel and the ledger.
abbrev pub Runner : Type 0 → Type 0 → Type 0 → Type 0 → Type 0 → Type 0 → Type 0
Runner E F R V P W =
    ScriptEngine F
    → Option R
    → ConversationState V
    → String
    → String
    → W
    → Result E (W × TurnResult V P)

pub record Served (E F R V P W : Type 0) : Type 0 where
  pub runner : Runner E F R V P W
  pub engine : ScriptEngine F

-- `current` and `at` of a tenant's scripts.
pub record ScriptResolver (E F : Type 0) : Type 0 where
  pub current : String → Result E (ScriptEngine F)
  pub at : String → String → ℕ → Result E (Option (ScriptEngine F))

pub record InboundWorker (E F R V P W : Type 0) : Type 0 where
  pub served : Dict (Served E F R V P W)
  pub scripts : Option (Dict (ScriptResolver E F))
  pub retrievers : Option (String → String → Result E R)
  pub xadd : OutboundJob → Option E
  pub isoformat : ℕ → String

abbrev pub lift : {E A X : Type 0} → (X → Error E) → Result X A → Result (Error E) A
lift wrap (ok a) = ok a
lift wrap (err x) = err (wrap x)

-- `{**...}.get(vertical)` where there are scripts at all.
abbrev pub resolver_of :
    {E F : Type 0} → Option (Dict (ScriptResolver E F)) → String → Option (ScriptResolver E F)
resolver_of none vertical = none
resolver_of (some scripts) vertical = get vertical scripts

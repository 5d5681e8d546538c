-- ===== src/Agent/State.antt =====
-- src/moc/agent/state.py: the conversation state, the turn contract and the engine's decision.
-- `V` is the type of slot values and `F` that of retrieval scores: the code only stores the first
-- and only compares the second. The field `usage`, which no code of the engine reads, is left out.
pub mod Json
mod Tests
use moreofchat.Prelude.{ℕ, String, Bool, Option, List}
use moreofchat.Dict.{Dict, merge, without}

pub data Action : Type 0 where
  answer clarify handoff refuse : Action

pub data Register : Type 0 where
  masri msa english : Register

pub record TurnInput (V F : Type 0) : Type 0 where
  pub intent : Option String
  pub slots : Dict V
  pub confidence : Option F
  pub grounded : Bool
  pub explicit_handoff_request : Bool
  pub cleared : List String
  pub language : Option String

pub record ConversationState (V : Type 0) : Type 0 where
  pub script_id : String
  pub script_version : ℕ
  pub node : Option String
  pub slots : Dict V
  pub consecutive_clarifications : ℕ
  pub quoted_unit_id : Option String

-- The slots held, less those the customer moved off, under the new ones.
abbrev pub with_slots :
    {V : Type 0} → ConversationState V → Dict V → List String → ConversationState V
with_slots s new cleared = record s { slots = merge (without cleared s.slots) new }

-- The diagnostic texts of a decision, with the values that they print.
pub data Reason (F : Type 0) : Type 0 where
  unstated : Reason F
  human_asked : Reason F
  clarification_loop : ℕ → Reason F
  handoff_node : Reason F
  nothing_retrieved : Reason F
  low_confidence : Option F → F → Reason F

pub record Decision (V F : Type 0) : Type 0 where
  pub action : Action
  pub register : Register
  pub node : String
  pub state : ConversationState V
  pub missing_slots : List String
  pub ask_for_slot : Option String
  pub grounding_required : Bool
  pub gate_closed : Bool
  pub reason : Reason F

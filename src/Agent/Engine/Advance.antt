-- ===== src/Agent/Engine/Advance.antt =====
-- `ScriptEngine.advance` and its outcomes. `below` is the comparison of two scores.
pub mod Gates
pub mod Counter
pub mod Keeps
pub mod Total
pub mod Tests
use moreofchat.Prelude.{
  ◌+◌, String, Bool, true, false, ◌&&◌, ◌||◌, Option, none, some, List, [], ◌++◌, leb, ◌==◌, str_eq,
  if◌then◌else◌, not, is_some, or_else, get_or, any, keep, is_empty,
}
use moreofchat.Result.{Result, ok, err, require, ◌>>=◌}
use moreofchat.Dict.{get, has_key}
use moreofchat.Agent.State.{
  Action, answer, clarify, handoff, refuse, TurnInput, ConversationState, with_slots, Reason,
  unstated, human_asked, clarification_loop, handoff_node, nothing_retrieved, low_confidence,
  Decision,
}
use moreofchat.Agent.Engine.{
  Error, key_error, wrong_version, NodeSpec, ScriptEngine, fallback_node, parse_register,
  node_action, node_register, clarify_register, resumes, stale,
}

abbrev pub Outcome : Type 0 → Type 0 → Type 0
Outcome V F = Result Error (Decision V F)

abbrev pub count_clarification : {V : Type 0} → ConversationState V → String → ConversationState V
count_clarification s name = record s {
  node = some name;
  consecutive_clarifications = s.consecutive_clarifications + 1;
}

abbrev pub reset_clarifications : {V : Type 0} → ConversationState V → String → ConversationState V
reset_clarifications s name = record s { node = some name; consecutive_clarifications = 0 }

-- Slots that the node requires and the state lacks.
pub missing_of : {V : Type 0} → NodeSpec → ConversationState V → List String
missing_of node s = keep (λ x. not (has_key x s.slots)) node.requires_slots

-- The node wants at least one of its slots, and the state has none.
pub wants_any : {V : Type 0} → NodeSpec → ConversationState V → Bool
wants_any node s =
    not (is_empty node.requires_any_slot)
    && not (any (λ x. has_key x s.slots) node.requires_any_slot)

known : {F : Type 0} → ScriptEngine F → Option String → Option String
known e none = none
known e (some n) = if has_key n e.script.nodes then some n else none

is_required : Option String → Bool
is_required none = false
is_required (some g) = str_eq g "required"

abbrev pub is_action : Action → Action → Bool
is_action answer answer = true
is_action clarify clarify = true
is_action handoff handoff = true
is_action refuse refuse = true
is_action _ _ = false

module _ {V F : Type 0} where
  pub do_clarify :
      ConversationState V → String → NodeSpec → List String → Bool → Reason F → Outcome V F
  do_clarify s name node missing closed why = do
    register ← clarify_register node
    ok (record {
      action = clarify;
      register = register;
      node = name;
      state = count_clarification s name;
      missing_slots = missing;
      ask_for_slot = if is_empty missing then none else node.clarify_spec.ask_for_slot;
      grounding_required = false;
      gate_closed = closed;
      reason = why;
    })

  pub do_handoff : ConversationState V → String → NodeSpec → Reason F → Outcome V F
  do_handoff s name node why = do
    register ← node_register node
    ok (record {
      action = handoff;
      register = register;
      node = name;
      state = reset_clarifications s name;
      missing_slots = [];
      ask_for_slot = none;
      grounding_required = false;
      gate_closed = false;
      reason = why;
    })

  -- The last return of `advance`: here `node["register"]` raises where the key is missing.
  pub do_act : ConversationState V → String → NodeSpec → Action → Outcome V F
  unfolding is_required
  do_act s name node action = do
    key ← require (key_error "register") node.register
    register ← parse_register key
    ok (record {
      action = action;
      register = register;
      node = name;
      state = reset_clarifications s name;
      missing_slots = [];
      ask_for_slot = none;
      grounding_required = is_required node.grounding;
      gate_closed = false;
      reason = unstated;
    })

  -- A turn that only clears slots goes on at the node where the conversation stands.
  pub continued : ScriptEngine F → ConversationState V → TurnInput V F → Option String
  unfolding known
  continued e s t =
      if not (is_some t.intent) && not (is_empty t.cleared) then known e s.node else none

  pub intent_node : ScriptEngine F → TurnInput V F → String
  intent_node e t = get_or (get (get_or t.intent "") e.by_intent) fallback_node

  -- The continued node, else the one that asked, else the intent's, else the fallback.
  pub choose : ScriptEngine F → ConversationState V → TurnInput V F → String
  unfolding continued intent_node
  choose e s t = get_or (or_else (continued e s t) (resumes e s t)) (intent_node e t)

  -- The state that the customer left behind: the new slots in, the cleared and stale ones out.
  pub merged : ScriptEngine F → ConversationState V → TurnInput V F → ConversationState V
  merged e s t = with_slots s t.slots (t.cleared ++ stale s.slots t.slots e.script.slots)

-- Only a score that was measured can be too low.
pub uncertain : {F : Type 0} → (F → F → Bool) → ScriptEngine F → Option F → Bool
uncertain below e none = false
uncertain below e (some c) = below c e.confidence_threshold

module _ {V F : Type 0} (below : F → F → Bool) where
  -- No passage to ground an answer in, or a score under the threshold.
  pub gate_closes : ScriptEngine F → TurnInput V F → Bool
  unfolding uncertain
  gate_closes e t = not t.grounded || uncertain below e t.confidence

  pub gate_reason : ScriptEngine F → TurnInput V F → Reason F
  gate_reason e t =
      if not t.grounded
      then nothing_retrieved
      else low_confidence t.confidence e.confidence_threshold

  -- From the slot checks on: `action` is the node's own.
  pub decide :
      ScriptEngine F
      → ConversationState V
      → TurnInput V F
      → String
      → NodeSpec
      → Action
      → Outcome V F
  unfolding gate_closes gate_reason wants_any
  decide e s t name node action =
      let missing = missing_of node s in
      if is_action action handoff
      then do_handoff s name node handoff_node
      else if not (is_empty missing)
      then do_clarify s name node missing false unstated
      else if wants_any node s
      then do_clarify s name node node.requires_any_slot false unstated
      else if is_action action answer && gate_closes e t
      then (do
        fallback ← require (key_error fallback_node) (get fallback_node e.script.nodes)
        do_clarify s fallback_node fallback [] true (gate_reason e t))
      else if is_action action clarify
      then do_clarify s name node [] false unstated
      else do_act s name node action

  -- What follows the choice of the node, over the merged state.
  pub advance_at :
      ScriptEngine F → ConversationState V → TurnInput V F → String → NodeSpec → Outcome V F
  advance_at e s t name node =
      if t.explicit_handoff_request
      then do_handoff s name node human_asked
      else if leb e.max_clarifications s.consecutive_clarifications
      then do_handoff s name node (clarification_loop s.consecutive_clarifications)
      else do action ← node_action node; decide e s t name node action

  pub advance : ScriptEngine F → ConversationState V → TurnInput V F → Outcome V F
  advance e s t =
      if not (s.script_version == e.script.version)
      then err (wrong_version s.script_version e.script.version)
      else do
        node ← require (key_error (choose e s t)) (get (choose e s t) e.script.nodes)
        advance_at e (merged e s t) t (choose e s t) node

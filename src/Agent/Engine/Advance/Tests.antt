-- ===== src/Agent/Engine/Advance/Tests.antt =====
-- A small fees script, a few of its turns, and each theorem about the engine at them.
use moreofchat.Prelude.{
  ℕ, ◌+◌, ◌≤◌, String, true, false, none, some, List, [], ◌∷◌, ◌≡◌, refl, arith, ltb, length,
  or_else, if◌then◌else◌, ◌||◌, ◌&&◌, any, str_eq,
}
use moreofchat.Result.{ok}
use moreofchat.Dict.{get, put, without, merge, contains}
use moreofchat.Agent.State.{
  answer, clarify, masri, msa, TurnInput, ConversationState, Decision, unstated, nothing_retrieved,
}
use moreofchat.Agent.Engine.{
  NodeSpec, Script, Defaults, ScriptEngine, new_engine, node_action, clarify_register,
  parse_register, resumes, stale,
}
use moreofchat.Agent.Engine.Advance.{
  advance, advance_at, decide, do_clarify, do_act, choose, continued, merged, missing_of, wants_any,
  gate_closes, gate_reason,
}
use moreofchat.Agent.Engine.Advance.Gates.{Supported, answer-Supported}
use moreofchat.Agent.Engine.Advance.Counter.{converse, converse-IsClarify_le}
use moreofchat.Agent.Engine.Advance.Keeps.{advance-state, is_renewed}
use moreofchat.Agent.Engine.Advance.Total.{IsComplete, converse-total}

abbrev plain : NodeSpec
plain = record {
  action = none;
  register = some "masri";
  intents = [];
  requires_slots = [];
  requires_any_slot = [];
  optional_slots = [];
  grounding = none;
  clarify_spec = record { register = none; ask_for_slot = none };
  offer = none;
}

abbrev fees_node : NodeSpec
fees_node = record plain {
  action = some "answer";
  register = some "msa";
  intents = "fees" ∷ [];
  requires_slots = "faculty" ∷ [];
  grounding = some "required";
  clarify_spec = record { register = some "masri"; ask_for_slot = some "faculty" };
}

abbrev script : Script
script = record {
  script_id = "education";
  version = 3;
  entry = some "fallback";
  max_consecutive_clarifications = none;
  referral_texts = [];
  slots = ("branch", some "city") ∷ [];
  nodes = ("fees", fees_node) ∷ ("fallback", plain) ∷ [];
}

abbrev defaults : Defaults ℕ
defaults = record { max_consecutive_clarifications = 3; confidence_threshold = 5 }

abbrev pub engine : ScriptEngine ℕ
engine = new_engine script defaults

abbrev fresh : ConversationState String
fresh = record {
  script_id = "education";
  script_version = 3;
  node = some "fallback";
  slots = [];
  consecutive_clarifications = 0;
  quoted_unit_id = some "U-7";
}

abbrev asks_fees : TurnInput String ℕ
asks_fees = record {
  intent = some "fees";
  slots = [];
  confidence = some 9;
  grounded = true;
  explicit_handoff_request = false;
  cleared = [];
  language = none;
}

abbrev pub names_faculty : TurnInput String ℕ
names_faculty = record asks_fees { intent = none; slots = ("faculty", "law") ∷ [] }

abbrev asks_ungrounded : TurnInput String ℕ
asks_ungrounded = record asks_fees { slots = ("faculty", "law") ∷ []; grounded = false }

abbrev pub asked : ConversationState String
asked = record fresh { node = some "fees"; consecutive_clarifications = 1 }

abbrev clarified : Decision String ℕ
clarified = record {
  action = clarify;
  register = masri;
  node = "fees";
  state = asked;
  missing_slots = "faculty" ∷ [];
  ask_for_slot = some "faculty";
  grounding_required = false;
  gate_closed = false;
  reason = unstated;
}

abbrev pub answered : Decision String ℕ
answered = record {
  action = answer;
  register = msa;
  node = "fees";
  state = record asked { slots = ("faculty", "law") ∷ []; consecutive_clarifications = 0 };
  missing_slots = [];
  ask_for_slot = none;
  grounding_required = true;
  gate_closed = false;
  reason = unstated;
}

abbrev closed : Decision String ℕ
closed = record {
  action = clarify;
  register = masri;
  node = "fallback";
  state = record fresh { slots = ("faculty", "law") ∷ []; consecutive_clarifications = 1 };
  missing_slots = [];
  ask_for_slot = none;
  grounding_required = false;
  gate_closed = true;
  reason = nothing_retrieved;
}

fees_without_faculty : advance ltb engine fresh asks_fees ≡ ok clarified
unfolding advance advance_at decide do_clarify choose continued resumes merged stale missing_of get
    put without merge new_engine node_action clarify_register
fees_without_faculty = refl

pub resumed_fees : resumes engine asked names_faculty ≡ some "fees"
unfolding resumes get new_engine
resumed_fees = refl

pub faculty_given : advance ltb engine asked names_faculty ≡ ok answered
unfolding advance advance_at decide do_act choose continued resumes merged stale missing_of
    wants_any gate_closes get put without merge new_engine node_action parse_register
faculty_given = refl

nothing_retrieved_run : advance ltb engine fresh asks_ungrounded ≡ ok closed
unfolding advance advance_at decide do_clarify choose continued resumes merged stale missing_of
    wants_any gate_closes gate_reason get put without merge new_engine node_action clarify_register
nothing_retrieved_run = refl

answer-Supported_example : Supported ltb engine asked names_faculty answered
answer-Supported_example =
    answer-Supported ltb engine asked names_faculty answered faculty_given refl

abbrev wants_human : TurnInput String ℕ
wants_human = record asks_fees { explicit_handoff_request = true }

one_turn : converse ltb engine fresh (asks_fees ∷ []) ≡ ok (clarified ∷ [])
unfolding converse
one_turn = rw fees_without_faculty

converse-IsClarify_le_example : 0 + 1 ≤ 3
unfolding new_engine
converse-IsClarify_le_example =
    converse-IsClarify_le ltb engine (asks_fees ∷ []) fresh (clarified ∷ []) (omega arith) one_turn
      (refl, tt)

advance-state_example :
    (answered.state.script_id ≡ asked.script_id)
    × (answered.state.script_version ≡ asked.script_version)
    × (answered.state.quoted_unit_id ≡ asked.quoted_unit_id)
    × (answered.state.node ≡ some answered.node)
    × ((k : String)
        → get k answered.state.slots
          ≡ or_else (get k names_faculty.slots) (
              if contains k names_faculty.cleared
                || any
                    (λ spec.
                      str_eq spec.0 k && is_renewed asked.slots names_faculty.slots spec.0 spec.1)
                    engine.script.slots
              then none
              else get k asked.slots))
advance-state_example = advance-state ltb engine asked names_faculty answered faculty_given

abbrev moves_off : TurnInput String ℕ
moves_off = record asks_fees { intent = none; cleared = "faculty" ∷ [] }

cleared_run :
    advance ltb engine asked moves_off
    ≡ ok (record clarified { state = record asked { consecutive_clarifications = 2 } })
unfolding advance advance_at decide do_clarify choose continued resumes merged stale missing_of get
    put without merge new_engine node_action clarify_register
cleared_run = refl

script-IsComplete : IsComplete script
unfolding get node_action clarify_register parse_register
script-IsComplete = record {
  fallback = plain;
  has_fallback = refl;
  playable = (
    record {
      action = answer;
      acts = refl;
      key = "msa";
      keyed = refl;
      register = msa;
      speaks = refl;
      asking = masri;
      asks = refl;
    },
    (
      record {
        action = clarify;
        acts = refl;
        key = "masri";
        keyed = refl;
        register = masri;
        speaks = refl;
        asking = masri;
        asks = refl;
      },
      tt,
    ),
  );
}

converse-total_example :
    (ds : List (Decision String ℕ)) × (converse ltb engine fresh (asks_fees ∷ names_faculty ∷ [])
      ≡ ok ds)
    × (length ds ≡ 2)
converse-total_example =
    converse-total ltb script defaults (asks_fees ∷ names_faculty ∷ []) fresh script-IsComplete refl

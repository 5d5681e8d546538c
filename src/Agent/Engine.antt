-- ===== src/Agent/Engine.antt =====
-- src/moc/agent/script_engine.py: the deterministic half of a turn. A script is the record of what
-- the engine reads of the YAML document; a key that is absent is `none` or an empty list.
pub mod Advance
use moreofchat.Prelude.{
  ℕ, String, str_eq, Bool, true, false, ◌&&◌, ◌||◌, Option, none, some, List, [], ◌∷◌, ◌++◌, leb,
  if◌then◌else◌, not, is_some, or_else, get_or, any, keep, is_empty,
}
use moreofchat.Result.{Result, ok, err, require}
use moreofchat.Dict.{Dict, contains, get, put, has_key}
use moreofchat.Agent.State.{
  Action, answer, clarify, handoff, refuse, Register, masri, msa, english, TurnInput,
  ConversationState,
}

-- A missing key, a text that is no member of the enum, and the pinned version check.
pub data Error : Type 0 where
  key_error : String → Error
  value_error : String → Error
  wrong_version : ℕ → ℕ → Error

pub record Clarify : Type 0 where
  pub register : Option String
  pub ask_for_slot : Option String

-- `offer` is `some none` where the key is there with the value null.
pub record NodeSpec : Type 0 where
  pub action : Option String
  pub register : Option String
  pub intents : List String
  pub requires_slots : List String
  pub requires_any_slot : List String
  pub optional_slots : List String
  pub grounding : Option String
  pub clarify_spec : Clarify
  pub offer : Option (Option (Dict String))

-- `slots` maps a slot to the one that it `narrows`, if any.
pub record Script : Type 0 where
  pub script_id : String
  pub version : ℕ
  pub entry : Option String
  pub max_consecutive_clarifications : Option ℕ
  pub referral_texts : Dict String
  pub slots : Dict (Option String)
  pub nodes : Dict NodeSpec

pub record Defaults (F : Type 0) : Type 0 where
  pub max_consecutive_clarifications : ℕ
  pub confidence_threshold : F

pub record ScriptEngine (F : Type 0) : Type 0 where
  pub script : Script
  pub max_clarifications : ℕ
  pub confidence_threshold : F
  pub by_intent : Dict String

abbrev pub fallback_node : String
fallback_node = "fallback"

index_intents : String → List String → Dict String → Dict String
index_intents name [] index = index
index_intents name (i ∷ intents) index = index_intents name intents (put i name index)

-- The dict comprehension of `__init__`: a later node takes over an intent that it names too.
index_nodes : Dict NodeSpec → Dict String → Dict String
unfolding index_intents
index_nodes [] index = index
index_nodes ((name, node) ∷ nodes) index = index_nodes nodes (index_intents name node.intents index)

pub new_engine : {F : Type 0} → Script → Defaults F → ScriptEngine F
unfolding index_nodes
new_engine script defaults = record {
  script = script;
  max_clarifications =
      get_or script.max_consecutive_clarifications defaults.max_consecutive_clarifications;
  confidence_threshold = defaults.confidence_threshold;
  by_intent = index_nodes script.nodes [];
}

-- `Action(text)` and `Register(text)`.
pub parse_action : String → Result Error Action
parse_action t =
    if str_eq t "answer"
    then ok answer
    else if str_eq t "clarify"
    then ok clarify
    else if str_eq t "handoff"
    then ok handoff
    else if str_eq t "refuse"
    then ok refuse
    else err (value_error t)

pub parse_register : String → Result Error Register
parse_register t =
    if str_eq t "masri"
    then ok masri
    else if str_eq t "msa"
    then ok msa
    else if str_eq t "english"
    then ok english
    else err (value_error t)

-- `x or y` where `x` is a text: the empty one is false.
abbrev nonempty : Option String → Option String
nonempty none = none
nonempty (some t) = if str_eq t "" then none else some t

pub node_action : NodeSpec → Result Error Action
unfolding parse_action
node_action node = parse_action (get_or node.action "clarify")

pub node_register : NodeSpec → Result Error Register
unfolding parse_register
node_register node = parse_register (get_or node.register "masri")

pub clarify_register : NodeSpec → Result Error Register
unfolding parse_register
clarify_register node =
    parse_register (get_or (or_else (nonempty node.clarify_spec.register) node.register) "masri")

referral : {F : Type 0} → ScriptEngine F → Option String → Option String
referral e lang =
    or_else (nonempty (get (get_or (nonempty lang) "ar") e.script.referral_texts))
      (get "ar" e.script.referral_texts)

pub start : {F V : Type 0} → ScriptEngine F → ConversationState V
start e = record {
  script_id = e.script.script_id;
  script_version = e.script.version;
  node = e.script.entry;
  slots = [];
  consecutive_clarifications = 0;
  quoted_unit_id = none;
}

-- The slots that a node reads, by whichever of the three keys.
abbrev pub declared : NodeSpec → List String
declared node = node.requires_slots ++ node.requires_any_slot ++ node.optional_slots

module _ {V : Type 0} where
  pub is_stale : Dict V → Dict V → String → Option String → Bool
  is_stale held new name none = false
  is_stale held new name (some wider) =
      has_key wider new && not (has_key name new) && has_key name held

  -- Held slots inside a wider one that this turn names anew.
  pub stale : Dict V → Dict V → Dict (Option String) → List String
  unfolding is_stale
  stale held new [] = []
  stale held new ((name, narrows) ∷ specs) =
      let rest = stale held new specs in
      if is_stale held new name narrows then name ∷ rest else rest

  resume_at : Option String → Dict V → Option NodeSpec → Option String
  resume_at cursor new none = none
  resume_at cursor new (some node) =
      if any (λ s. has_key s new) (declared node) then cursor else none

  -- The node that asked, when this turn is the answer to it.
  pub resumes : {F : Type 0} → ScriptEngine F → ConversationState V → TurnInput V F → Option String
  unfolding resume_at
  resumes e s t =
      if is_some t.intent || is_empty t.slots
      then none
      else resume_at s.node t.slots (get (get_or s.node "") e.script.nodes)

offers_of : Dict NodeSpec → List (String × Dict String)
offers_of [] = []
offers_of ((name, node) ∷ nodes) =
    let rest = offers_of nodes in
    elim node.offer [ some (some (w ∷ wordings)) ↦ (name, w ∷ wordings) ∷ rest | _ ↦ rest ]

abbrev is_answer : NodeSpec → Bool
is_answer node = elim node.action [ some a ↦ str_eq a "answer" | none ↦ false ]

unoffered : Dict NodeSpec → List String
unoffered [] = []
unoffered ((name, node) ∷ nodes) =
    let rest = unoffered nodes in
    if is_answer node && not (is_some node.offer) then name ∷ rest else rest

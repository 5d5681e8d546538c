-- ===== src/Agent/Engine/Advance/Total.antt =====
-- A script whose nodes can be played never makes the engine raise.
use moreofchat.Prelude.{
  suc, String, Bool, true, Option, none, some, List, [], ◌∷◌, ◌≡◌, refl, inl, inr, arith, eq_iff,
  or_else, Option-cases, get_or, length, ◌∙◌, ap,
}
use moreofchat.Result.{ok, is_ok, ok_of_is_ok}
use moreofchat.Dict.{Dict, get, put, has_key, AllValues, AllValues-get, AllValues-put}
use moreofchat.Agent.State.{Action, Register, TurnInput, ConversationState, Decision}
use moreofchat.Agent.Engine.{
  NodeSpec, Script, Defaults, ScriptEngine, new_engine, node_action, node_register,
  clarify_register, parse_register, fallback_node, resumes, index_nodes, index_intents,
}
use moreofchat.Agent.Engine.Advance.{
  do_clarify, do_handoff, do_act, choose, merged, decide, advance_at, advance, continued,
  intent_node,
}
use moreofchat.Agent.Engine.Advance.Counter.{converse}
use moreofchat.Agent.Engine.Advance.Keeps.{advance-state}

-- The node names a known action and known registers, the one that an answer needs included.
pub record IsPlayable (node : NodeSpec) : Type 0 where
  pub action : Action
  pub acts : node_action node ≡ ok action
  pub key : String
  pub keyed : node.register ≡ some key
  pub register : Register
  pub speaks : parse_register key ≡ ok register
  pub asking : Register
  pub asks : clarify_register node ≡ ok asking

pub record IsComplete (script : Script) : Type 0 where
  pub fallback : NodeSpec
  pub has_fallback : get fallback_node script.nodes ≡ some fallback
  pub playable : AllValues IsPlayable script.nodes

-- Names that are keys of `nodes`.
abbrev Named : Dict NodeSpec → String → Type 0
Named nodes name = has_key name nodes ≡ true

abbrev AllNamed : Dict NodeSpec → Dict NodeSpec → Type 0
AllNamed nodes [] = Unit
AllNamed nodes ((name, node) ∷ rest) = Named nodes name × AllNamed nodes rest

AllNamed-cons :
    (j : String) (w : NodeSpec) (nodes rest : Dict NodeSpec)
    → AllNamed nodes rest
    → AllNamed ((j, w) ∷ nodes) rest
unfolding get
AllNamed-cons j w nodes [] h = tt
AllNamed-cons j w nodes ((name, node) ∷ rest) h =
    (ground (arith, h.0), AllNamed-cons j w nodes rest h.1)

AllNamed-self : (nodes : Dict NodeSpec) → AllNamed nodes nodes
unfolding get
AllNamed-self [] = tt
AllNamed-self ((j, w) ∷ nodes) =
    (ground (arith, eq_iff j j), AllNamed-cons j w nodes nodes (AllNamed-self nodes))

module _ (nodes : Dict NodeSpec) where
  index_intents-Named :
      (name : String) (intents : List String) (index : Dict String)
      → Named nodes name
      → AllValues (Named nodes) index
      → AllValues (Named nodes) (index_intents name intents index)
  unfolding index_intents
  index_intents-Named name [] index n h = h
  index_intents-Named name (i ∷ intents) index n h =
      index_intents-Named name intents (put i name index) n
        (AllValues-put (Named nodes) i name index n h)

  index_nodes-Named :
      (rest : Dict NodeSpec) (index : Dict String)
      → AllNamed nodes rest
      → AllValues (Named nodes) index
      → AllValues (Named nodes) (index_nodes rest index)
  unfolding index_nodes
  index_nodes-Named [] index n h = h
  index_nodes-Named ((name, node) ∷ rest) index n h =
      index_nodes-Named rest (index_intents name node.intents index) n.1
        (index_intents-Named name node.intents index n.0 h)

pick-Named :
    (nodes : Dict NodeSpec) (a b : Option String) (c : String)
    → ((n : String) → a ≡ some n → Named nodes n)
    → ((n : String) → b ≡ some n → Named nodes n)
    → Named nodes c
    → Named nodes (get_or (or_else a b) c)
pick-Named nodes (some x) b c ha hb hc = ha x refl
pick-Named nodes none (some y) c ha hb hc = hb y refl
pick-Named nodes none none c ha hb hc = hc

by_intent-Named :
    {F : Type 0} (script : Script) (defaults : Defaults F)
    → AllValues (Named script.nodes) (new_engine script defaults).by_intent
unfolding new_engine
by_intent-Named script defaults =
    index_nodes-Named script.nodes script.nodes [] (AllNamed-self script.nodes) tt

module _ {V F : Type 0} (script : Script) (defaults : Defaults F) where
  intent_node-Named :
      (t : TurnInput V F)
      → Named script.nodes fallback_node
      → Named script.nodes (intent_node (new_engine script defaults) t)
  unfolding intent_node
  intent_node-Named t f =
      elim (Option-cases (get (get_or t.intent "") (new_engine script defaults).by_intent)) [
        | inl lost ↦ rw lost f
        | inr (n, found) ↦ rw found (
            AllValues-get (Named script.nodes) (get_or t.intent "")
              (new_engine script defaults).by_intent n (by_intent-Named script defaults) found)
      ]

  choose-Named :
      (s : ConversationState V) (t : TurnInput V F)
      → Named script.nodes fallback_node
      → Named script.nodes (choose (new_engine script defaults) s t)
  unfolding choose new_engine continued resumes
  choose-Named s t f =
      pick-Named script.nodes (continued (new_engine script defaults) s t)
        (resumes (new_engine script defaults) s t) (intent_node (new_engine script defaults) t)
        (λ n h. ground arith) (λ n h. ground arith) (intent_node-Named t f)

module _ {V F : Type 0} (below : F → F → Bool) (e : ScriptEngine F) where
  decide-is_ok :
      (s : ConversationState V) (t : TurnInput V F) (name : String) (node fallback : NodeSpec)
      (a : Action)
      → IsPlayable node
      → IsPlayable fallback
      → get fallback_node e.script.nodes ≡ some fallback
      → is_ok (decide below e s t name node a) ≡ true
  unfolding decide do_clarify do_handoff do_act node_register
  decide-is_ok s t name node fallback a p q found = ground arith

  advance_at-is_ok :
      (s : ConversationState V) (t : TurnInput V F) (name : String) (node fallback : NodeSpec)
      → IsPlayable node
      → IsPlayable fallback
      → get fallback_node e.script.nodes ≡ some fallback
      → is_ok (advance_at below e s t name node) ≡ true
  unfolding advance_at do_handoff node_register
  advance_at-is_ok s t name node fallback p q found =
      ground (arith, decide-is_ok s t name node fallback p.action p q found)

module _ {V F : Type 0} (below : F → F → Bool) (script : Script) (defaults : Defaults F) where
  advance-is_ok :
      (s : ConversationState V) (t : TurnInput V F)
      → IsComplete script
      → s.script_version ≡ script.version
      → is_ok (advance below (new_engine script defaults) s t) ≡ true
  unfolding advance new_engine
  advance-is_ok s t c pinned =
      elim (Option-cases (get (choose (new_engine script defaults) s t) script.nodes)) [
        | inl lost ↦ absurd (
            ground (arith, lost, choose-Named script defaults s t (ground (arith, c.has_fallback))))
        | inr (node, found) ↦
            let played =
              AllValues-get IsPlayable (choose (new_engine script defaults) s t) script.nodes node
                c.playable found in
            let safe =
              AllValues-get IsPlayable fallback_node script.nodes c.fallback c.playable
                c.has_fallback in
            let runs =
              advance_at-is_ok below (new_engine script defaults)
                (merged (new_engine script defaults) s t) t
                (choose (new_engine script defaults) s t) node c.fallback played safe
                c.has_fallback in
            ground (arith, pinned, found, runs)
      ]

  -- Over a complete script no turn raises, and a whole conversation gets one decision for each of
  -- its turns: from any state that is pinned to the engine's version, whatever the turns hold.
  pub converse-total :
      (ts : List (TurnInput V F)) (s : ConversationState V)
      → IsComplete script
      → s.script_version ≡ script.version
      → (ds : List (Decision V F)) × (converse below (new_engine script defaults) s ts ≡ ok ds)
        × (length ds ≡ length ts)
  unfolding converse
  converse-total [] s c pinned = ([], refl, refl)
  converse-total (t ∷ ts) s c pinned =
      let (d, first) = ok_of_is_ok _ (advance-is_ok s t c pinned) in
      let still : d.state.script_version ≡ script.version =
        (advance-state below (new_engine script defaults) s t d first).1 ∙ pinned in
      let (ds, rest, same) = converse-total ts d.state c still in
      (d ∷ ds, rw (first, rest) refl, ap suc same)

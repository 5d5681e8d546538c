-- ===== src/Agent/Engine/Advance/Keeps.antt =====
-- What a decision leaves of the state that it was taken from, and which node it speaks for.
use moreofchat.Prelude.{
  String, Bool, true, ◌&&◌, ◌||◌, Option, none, some, [], ◌∷◌, ◌≡◌, refl, ◌⊎◌, inl, inr, ◌≢◌, arith,
  str_eq, not, is_some, false, if◌then◌else◌, or_else, any, Option-cases,
}
use moreofchat.Result.{Result, ok, err, ◌>>=◌}
use moreofchat.Dict.{Dict, get, contains, contains-append, get-without, get-merge, has_key}
use moreofchat.Agent.State.{Action, TurnInput, ConversationState, Decision}
use moreofchat.Agent.Engine.{
  Error, NodeSpec, ScriptEngine, node_action, is_stale, stale, fallback_node, resumes, declared,
}
use moreofchat.Agent.Engine.Advance.{
  do_clarify, do_handoff, do_act, choose, merged, decide, advance_at, advance, continued,
}

-- `d` was decided over the state `s`: only the node and the counter differ.
pub record Kept {V F : Type 0} (s : ConversationState V) (d : Decision V F) : Type 0 where
  pub script_id : d.state.script_id ≡ s.script_id
  pub script_version : d.state.script_version ≡ s.script_version
  pub quoted_unit_id : d.state.quoted_unit_id ≡ s.quoted_unit_id
  pub slots : d.state.slots ≡ s.slots
  pub node : d.state.node ≡ some d.node

module _ {V : Type 0} where
  -- A held slot that this turn does not name, inside a wider one that it does name.
  abbrev pub is_renewed : Dict V → Dict V → String → Option String → Bool
  is_renewed held new name none = false
  is_renewed held new name (some wider) =
      is_some (get name held) && not (is_some (get name new)) && is_some (get wider new)

  is_stale-is_renewed :
      (held new : Dict V) (name : String) (narrows : Option String)
      → is_stale held new name narrows ≡ is_renewed held new name narrows
  unfolding is_stale
  is_stale-is_renewed held new name none = refl
  is_stale-is_renewed held new name (some wider) = ground arith

  contains-stale :
      (held new : Dict V) (specs : Dict (Option String)) (k : String)
      → contains k (stale held new specs)
        ≡ any (λ spec. str_eq spec.0 k && is_renewed held new spec.0 spec.1) specs
  unfolding contains stale
  contains-stale held new [] k = refl
  contains-stale held new ((name, narrows) ∷ specs) k =
      ground (arith, contains-stale held new specs k, is_stale-is_renewed held new name narrows)

module _ {V F : Type 0} (below : F → F → Bool) (e : ScriptEngine F) where
  decide-Kept :
      (s : ConversationState V) (t : TurnInput V F) (name : String) (node : NodeSpec)
      (m : Result Error Action) (d : Decision V F)
      → (m >>= decide below e s t name node) ≡ ok d
      → Kept s d × ((d.node ≡ name) ⊎ (d.node ≡ fallback_node))
  unfolding decide do_clarify do_handoff do_act
  decide-Kept s t name node (ok a) d h = ground arith
  decide-Kept s t name node (err x) d h = cc

  advance_at-Kept :
      (s : ConversationState V) (t : TurnInput V F) (name : String) (node : NodeSpec)
      (d : Decision V F)
      → advance_at below e s t name node ≡ ok d
      → Kept s d × ((d.node ≡ name) ⊎ (d.node ≡ fallback_node))
  unfolding advance_at do_handoff
  advance_at-Kept s t name node d h = ground (arith, decide-Kept s t name node (node_action node) d)

  advance-Kept :
      (s : ConversationState V) (t : TurnInput V F) (d : Decision V F)
      → advance below e s t ≡ ok d
      → Kept (merged e s t) d
        × ((d.node ≡ choose e s t) ⊎ (d.node ≡ fallback_node))
        × (s.script_version ≡ e.script.version)
  unfolding advance
  advance-Kept s t d h = elim (Option-cases (get (choose e s t) e.script.nodes)) [
    | inl lost ↦ absurd (ground (arith, h, lost))
    | inr (node, found) ↦
        let k = advance_at-Kept (merged e s t) t (choose e s t) node d (ground (arith, h, found)) in
        (k.0, k.1, ground (arith, h))
  ]

  -- Whatever the decision, a turn leaves the script, its pinned version and the quoted unit alone
  -- and moves the cursor to the node that it names; and a slot reads as this turn's value for it,
  -- else as the held value, unless the customer moved off it or this turn named the wider slot that it
  -- narrows and not the slot itself.
  pub advance-state :
      (s : ConversationState V) (t : TurnInput V F) (d : Decision V F)
      → advance below e s t ≡ ok d
      → (d.state.script_id ≡ s.script_id)
        × (d.state.script_version ≡ s.script_version)
        × (d.state.quoted_unit_id ≡ s.quoted_unit_id)
        × (d.state.node ≡ some d.node)
        × ((k : String)
            → get k d.state.slots
              ≡ or_else (get k t.slots) (
                  if contains k t.cleared
                    || any
                        (λ spec. str_eq spec.0 k && is_renewed s.slots t.slots spec.0 spec.1)
                        e.script.slots
                  then none
                  else get k s.slots))
  unfolding merged
  advance-state s t d h =
      let (kept, named, pinned) = advance-Kept s t d h in
      (
        kept.script_id,
        kept.script_version,
        kept.quoted_unit_id,
        kept.node,
        λ k. rw kept.slots (rw (get-merge, get-without, contains-append, contains-stale) refl),
      )

  -- A bare value, with no intent and nothing cleared, for a slot that the node which asked reads is
  -- the answer to it: the turn is decided at that node, unless the gate sends it to the fallback.
  pub bare_value-resumes :
      (s : ConversationState V) (t : TurnInput V F) (d : Decision V F) (asked : String)
      (node : NodeSpec)
      → advance below e s t ≡ ok d
      → t.intent ≡ none
      → t.cleared ≡ []
      → t.slots ≢ []
      → s.node ≡ some asked
      → get asked e.script.nodes ≡ some node
      → any (λ x. has_key x t.slots) (declared node) ≡ true
      → (d.node ≡ asked) ⊎ (d.node ≡ fallback_node)
  unfolding choose resumes continued
  bare_value-resumes s t d asked node h bare uncleared new at found reads =
      ground (arith, advance-Kept s t d h)

  -- A turn that only moves off slots goes on at the node where the conversation stands.
  pub cleared-continues :
      (s : ConversationState V) (t : TurnInput V F) (d : Decision V F) (asked : String)
      (node : NodeSpec)
      → advance below e s t ≡ ok d
      → t.intent ≡ none
      → t.cleared ≢ []
      → s.node ≡ some asked
      → get asked e.script.nodes ≡ some node
      → (d.node ≡ asked) ⊎ (d.node ≡ fallback_node)
  unfolding choose continued
  cleared-continues s t d asked node h bare moved at found = ground (arith, advance-Kept s t d h)

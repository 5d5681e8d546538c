-- ===== src/Agent/Engine/Advance/Gates.antt =====
-- What must hold of a turn before `advance` lets it be answered, and who gets a human.
use moreofchat.Prelude.{
  ◌<◌, ◌≤◌, String, Bool, true, false, none, some, List, [], ◌∷◌, ◌≡◌, refl, ◌⊎◌, inl, inr, arith,
  if◌then◌else◌, not, All, any, keep, Bool-cases, Option-cases,
}
use moreofchat.Result.{Result, ok, err, ◌>>=◌}
use moreofchat.Dict.{Dict, get, has_key}
use moreofchat.Agent.State.{
  Action, answer, clarify, handoff, TurnInput, ConversationState, Decision, Register, human_asked,
  clarification_loop,
}
use moreofchat.Agent.Engine.{
  Error, NodeSpec, ScriptEngine, fallback_node, node_action, node_register,
}
use moreofchat.Agent.Engine.Advance.{
  do_clarify, do_handoff, do_act, choose, merged, missing_of, wants_any, uncertain, gate_closes,
  decide, advance_at, advance, count_clarification, reset_clarifications,
}

none_missing :
    {V : Type 0} (m : Dict V) (xs : List String)
    → keep (λ x. not (has_key x m)) xs ≡ []
    → All (λ x. has_key x m ≡ true) xs
none_missing m [] h = tt
none_missing m (x ∷ xs) h = elim (Bool-cases (has_key x m)) [
  | inl held ↦ (held, none_missing m xs (ground (arith, h, held)))
  | inr lost ↦ absurd (ground (arith, h, lost))
]

module _ {V F : Type 0} (below : F → F → Bool) (e : ScriptEngine F) where
  -- What `decide` has checked of an answer, given the state that the decision leaves.
  record Passed (t : TurnInput V F) (node : NodeSpec) (d : Decision V F) : Type 0 where
    grounded : t.grounded ≡ true
    certain : uncertain below e t.confidence ≡ false
    complete : missing_of node d.state ≡ []
    narrowed : wants_any node d.state ≡ false

  decide-answer :
      (s : ConversationState V) (t : TurnInput V F) (name : String) (node : NodeSpec) (a : Action)
      (d : Decision V F)
      → decide below e s t name node a ≡ ok d
      → d.action ≡ answer
      → Passed t node d
  unfolding decide do_clarify do_handoff do_act missing_of
  decide-answer s t name node a d h ans = ground arith

  -- What `advance` has checked of an answer at the node that it names.
  pub record Supported (s : ConversationState V) (t : TurnInput V F) (d : Decision V F)
      : Type 0 where
    pub node : NodeSpec
    pub found : get d.node e.script.nodes ≡ some node
    pub unescalated : t.explicit_handoff_request ≡ false
    pub in_patience : s.consecutive_clarifications < e.max_clarifications
    pub grounded : t.grounded ≡ true
    pub certain : (c : F) → t.confidence ≡ some c → below c e.confidence_threshold ≡ false
    pub complete : All (λ x. has_key x d.state.slots ≡ true) node.requires_slots
    pub narrowed :
        (node.requires_any_slot ≡ [])
        ⊎ (any (λ x. has_key x d.state.slots) node.requires_any_slot ≡ true)

  act_answer :
      (s : ConversationState V) (t : TurnInput V F) (name : String) (node : NodeSpec)
      (m : Result Error Action) (d : Decision V F)
      → (m >>= decide below e s t name node) ≡ ok d
      → d.action ≡ answer
      → Passed t node d × (d.node ≡ name)
  unfolding decide do_clarify do_handoff do_act
  act_answer s t name node (ok a) d h ans = (decide-answer s t name node a d h ans, ground arith)
  act_answer s t name node (err x) d h ans = cc

  advance_at-answer :
      (s : ConversationState V) (t : TurnInput V F) (name : String) (node : NodeSpec)
      (d : Decision V F)
      → advance_at below e s t name node ≡ ok d
      → d.action ≡ answer
      → Passed t node d
        × (d.node ≡ name)
        × (t.explicit_handoff_request ≡ false)
        × (s.consecutive_clarifications < e.max_clarifications)
  unfolding advance_at do_handoff
  advance_at-answer s t name node d h ans =
      ground (arith, act_answer s t name node (node_action node) d)

  supported :
      (s : ConversationState V) (t : TurnInput V F) (node : NodeSpec) (d : Decision V F)
      → get (choose e s t) e.script.nodes ≡ some node
      → advance_at below e (merged e s t) t (choose e s t) node ≡ ok d
      → d.action ≡ answer
      → Supported s t d
  unfolding merged missing_of wants_any uncertain
  supported s t node d found h ans =
      let (p, at, calm, patient) = advance_at-answer (merged e s t) t (choose e s t) node d h ans in
      record {
        node = node;
        found = rw at found;
        unescalated = calm;
        in_patience = patient;
        grounded = p.grounded;
        certain = λ c m. ground (arith, p.certain, m);
        complete = none_missing d.state.slots node.requires_slots p.complete;
        narrowed = ground (arith, p.narrowed);
      }

  -- A decision to answer has been earned on every condition at once: nobody asked for a human, the
  -- limit of clarifications was not reached, retrieval found something to ground an answer in, no
  -- measured score is under the threshold, and at the node that the decision names every required
  -- slot is held and, where the node wants at least one of several, one of them is.
  pub answer-Supported :
      (s : ConversationState V) (t : TurnInput V F) (d : Decision V F)
      → advance below e s t ≡ ok d
      → d.action ≡ answer
      → Supported s t d
  unfolding advance
  answer-Supported s t d h ans = elim (Option-cases (get (choose e s t) e.script.nodes)) [
    | inl lost ↦ absurd (ground (arith, h, lost))
    | inr (node, found) ↦ supported s t node d found (ground (arith, h, found)) ans
  ]

  -- A customer who asks for a human, or one who met the limit of clarifications, gets a handoff from
  -- whichever node was chosen, with the counter back at zero: no slot, score or action of the node
  -- stands in the way.
  pub handoff_granted :
      (s : ConversationState V) (t : TurnInput V F) (node : NodeSpec) (r : Register)
      → s.script_version ≡ e.script.version
      → get (choose e s t) e.script.nodes ≡ some node
      → node_register node ≡ ok r
      → (t.explicit_handoff_request ≡ true) ⊎ (e.max_clarifications ≤ s.consecutive_clarifications)
      → (d : Decision V F) × (advance below e s t ≡ ok d)
        × (d.action ≡ handoff)
        × (d.state ≡ reset_clarifications (merged e s t) (choose e s t))
  unfolding advance advance_at do_handoff merged
  handoff_granted s t node r pinned found reg why = (
    record {
      action = handoff;
      register = r;
      node = choose e s t;
      state = reset_clarifications (merged e s t) (choose e s t);
      missing_slots = [];
      ask_for_slot = none;
      grounding_required = false;
      gate_closed = false;
      reason =
          if t.explicit_handoff_request
          then human_asked
          else clarification_loop s.consecutive_clarifications;
    },
    ground arith,
    refl,
    refl,
  )

  -- A turn that the gate closed on asks at the fallback node and says nothing else: it names no
  -- missing slot, counts as one clarification, and had nothing to ground on or too low a score.
  pub gate_closed-clarifies :
      (s : ConversationState V) (t : TurnInput V F) (d : Decision V F)
      → advance below e s t ≡ ok d
      → d.gate_closed ≡ true
      → (d.action ≡ clarify)
        × (d.node ≡ fallback_node)
        × (d.missing_slots ≡ [])
        × (d.state ≡ count_clarification (merged e s t) fallback_node)
        × ((t.grounded ≡ false) ⊎ (uncertain below e t.confidence ≡ true))
  unfolding advance advance_at decide do_clarify do_handoff do_act gate_closes merged
  gate_closed-clarifies s t d h closed = ground arith

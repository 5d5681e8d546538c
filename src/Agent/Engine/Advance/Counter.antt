-- ===== src/Agent/Engine/Advance/Counter.antt =====
-- The counter of consecutive clarifications, over one turn and over a conversation.
use moreofchat.Prelude.{
  ℕ, ◌+◌, ◌<◌, ◌≤◌, String, Bool, List, [], ◌∷◌, ◌≡◌, sym, ◌⊎◌, inl, inr, arith, All, length,
  Option-cases, ◌≢◌,
}
use mathlib.Core.Path.{subst}
use moreofchat.Result.{Result, ok, err, ◌>>=◌, >>=-eq-ok, ok-injective}
use moreofchat.Dict.{get}
use moreofchat.Agent.State.{Action, clarify, TurnInput, ConversationState, Decision}
use moreofchat.Agent.Engine.{Error, NodeSpec, ScriptEngine, node_action}
use moreofchat.Agent.Engine.Advance.{
  do_clarify, do_handoff, do_act, choose, merged, decide, advance_at, advance,
}

-- How a decision leaves the counter, which stood at `before`.
abbrev pub Counted : {V F : Type 0} → ℕ → ℕ → Decision V F → Type 0
Counted limit before d =
    ((d.action ≡ clarify) × (before < limit) × (d.state.consecutive_clarifications ≡ before + 1))
    ⊎ ((d.action ≢ clarify) × (d.state.consecutive_clarifications ≡ 0))

module _ {V F : Type 0} (below : F → F → Bool) (e : ScriptEngine F) where
  decide-Counted :
      (s : ConversationState V) (t : TurnInput V F) (name : String) (node : NodeSpec)
      (m : Result Error Action) (d : Decision V F)
      → (m >>= decide below e s t name node) ≡ ok d
      → s.consecutive_clarifications < e.max_clarifications
      → Counted e.max_clarifications s.consecutive_clarifications d
  unfolding decide do_clarify do_handoff do_act
  decide-Counted s t name node (ok clarify) d h room = ground arith
  decide-Counted s t name node (ok a) d h room = ground arith
  decide-Counted s t name node (err x) d h room = cc

  advance_at-Counted :
      (s : ConversationState V) (t : TurnInput V F) (name : String) (node : NodeSpec)
      (d : Decision V F)
      → advance_at below e s t name node ≡ ok d
      → Counted e.max_clarifications s.consecutive_clarifications d
  unfolding advance_at do_handoff
  advance_at-Counted s t name node d h =
      ground (arith, decide-Counted s t name node (node_action node) d)

  -- A turn that clarifies counts one up, and only from under the limit; any other decision sets the
  -- counter back to zero.
  pub advance-Counted :
      (s : ConversationState V) (t : TurnInput V F) (d : Decision V F)
      → advance below e s t ≡ ok d
      → Counted e.max_clarifications s.consecutive_clarifications d
  unfolding advance merged
  advance-Counted s t d h = elim (Option-cases (get (choose e s t) e.script.nodes)) [
    | inl lost ↦ absurd (ground (arith, h, lost))
    | inr (node, found) ↦
        advance_at-Counted (merged e s t) t (choose e s t) node d (ground (arith, h, found))
  ]

  -- Turn after turn, each from the state that the one before left.
  unfoldable pub converse :
      ConversationState V → List (TurnInput V F) → Result Error (List (Decision V F))
  converse s [] = ok []
  converse s (t ∷ ts) = do d ← advance below e s t; rest ← converse d.state ts; ok (d ∷ rest)

  abbrev pub IsClarify : Decision V F → Type 0
  IsClarify d = d.action ≡ clarify

  -- The clarifications that follow one another never pass the limit: with those already counted,
  -- an unbroken row of them is at most as long as the limit, so that the turn after it is decided
  -- otherwise.
  pub converse-IsClarify_le :
      (ts : List (TurnInput V F)) (s : ConversationState V) (ds : List (Decision V F))
      → s.consecutive_clarifications ≤ e.max_clarifications
      → converse s ts ≡ ok ds
      → All IsClarify ds
      → s.consecutive_clarifications + length ds ≤ e.max_clarifications
  unfolding converse
  converse-IsClarify_le [] s ds room h all = rw (← ok-injective h) (omega arith)
  converse-IsClarify_le (t ∷ ts) s ds room h all =
      let (d, first, h') = >>=-eq-ok (advance below e s t) _ h in
      let (rest, more, h'') = >>=-eq-ok (converse d.state ts) _ h' in
      let split : d ∷ rest ≡ ds = ok-injective h'' in
      let all' : All IsClarify (d ∷ rest) = subst (λ l. All IsClarify l) (sym split) all in
      let counted = advance-Counted s t d first in
      let up : d.state.consecutive_clarifications ≡ s.consecutive_clarifications + 1 =
        ground (arith, counted, all'.0) in
      let under : s.consecutive_clarifications < e.max_clarifications =
        ground (arith, counted, all'.0) in
      rw (← split) (
        omega (arith, converse-IsClarify_le ts d.state rest (omega (arith, up, under)) more all'.1))

  -- Whatever the turns, the counter never passes the limit in a state that a decision leaves.
  pub converse-counter_le :
      (ts : List (TurnInput V F)) (s : ConversationState V) (ds : List (Decision V F))
      → converse s ts ≡ ok ds
      → All (λ d. d.state.consecutive_clarifications ≤ e.max_clarifications) ds
  unfolding converse
  converse-counter_le [] s ds h = rw (← ok-injective h) tt
  converse-counter_le (t ∷ ts) s ds h =
      let (d, first, h') = >>=-eq-ok (advance below e s t) _ h in
      let (rest, more, h'') = >>=-eq-ok (converse d.state ts) _ h' in
      rw (← ok-injective h'')
        (ground (arith, advance-Counted s t d first), converse-counter_le ts d.state rest more)

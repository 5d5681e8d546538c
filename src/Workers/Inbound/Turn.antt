-- ===== src/Workers/Inbound/Turn.antt =====
-- What one message leaves behind (src/moc/workers/inbound.py).
use moreofchat.Prelude.{
  ◌≡◌, refl, sym, ap, ◌∙◌, String, Option, none, some, subst, get_or, is_some, if◌then◌else◌,
}
use moreofchat.Result.{Result, ok, err, >>=-eq-ok, ok-injective}
use moreofchat.Dict.{Dict}
use moreofchat.Agent.State.{ConversationState}
use moreofchat.Agent.Engine.{ScriptEngine, start}
use moreofchat.Agent.Conversations.{load, find}
use moreofchat.Agent.State.Json.{Json}
use moreofchat.Agent.Handoff.{Handoff, live_for_conversation}
use moreofchat.Workers.Inbound.{
  InboundMessage, Db, Error, Fresh, Served, InboundWorker, lift, raised, conversation_error,
  handoff_error, resolver_of,
}
use moreofchat.Workers.Inbound.Session.{tables, answer_or_suspend, live_handoff}
use moreofchat.Workers.Inbound.Handle.{
  served_for, retriever_for, current_engine, pinned_engine, answer, turn,
}
use moreofchat.Workers.Inbound.Logged.{
  IsKept, while_suspended, in_thread, record_turn-ok, suspend-ok,
}

lift-ok :
    {E X A : Type 0} (wrap : X → Error E) (r : Result X A) (a : A) → lift wrap r ≡ ok a → r ≡ ok a
lift-ok wrap (ok b) a same = ap (λ x. ok x) (ok-injective same)
lift-ok wrap (err x) a same = cc

some_live :
    {V : Type 0} (h : Option (Handoff (Dict (Json V)))) (i id : String)
    → (if is_some h then some i else none) ≡ some id
    → (g : Handoff (Dict (Json V))) × (h ≡ some g) × (i ≡ id)
some_live none i id here = cc
some_live (some g) i id here = (g, refl, cc)

-- The ledger has no part in what is kept.
from_ledger :
    {V P W : Type 0} (m : InboundMessage) (db : Db V P W) (ledger : W) (after : Db V P W)
    (reply : Option String)
    → IsKept m (record db { ledger = ledger }) after reply
    → IsKept m db after reply
from_ledger m db ledger after _ (while_suspended thread h found live logged) =
    while_suspended thread h found live logged
from_ledger m db ledger after _ (in_thread thread reply found logged) =
    in_thread thread reply found logged

module _ {E V P W : Type 0} where
  live_handoff-some :
      (existing : Option String) (id : String) (db : Db V P W)
      → live_handoff {E = E} existing db ≡ ok (some id)
      → (h : Handoff (Dict (Json V))) × (existing ≡ some id)
        × (live_for_conversation id (tables db) ≡ ok (some h))
  unfolding live_handoff
  live_handoff-some none id db live = cc
  live_handoff-some (some i) id db live =
      let read =
        >>=-eq-ok (lift {E = E} handoff_error (live_for_conversation i (tables db))) _ live in
      let h = some_live read.0 i id (ok-injective read.2) in
      (
        h.0,
        ap (λ k. some k) h.2,
        ap (λ k. live_for_conversation k (tables db)) (sym h.2)
            ∙ lift-ok handoff_error _ read.0 read.1
            ∙ ap (λ x. ok x) h.1,
      )

  answer_or_suspend-ok :
      (existing live : Option String) (answered : Result (Error E) (Db V P W × Option String))
      (fresh : Fresh) (m : InboundMessage) (db after : Db V P W) (reply : Option String)
      → find m.channel m.sender_ref db.conversations ≡ ok existing
      → live_handoff {E = E} existing db ≡ ok live
      → (answered ≡ ok (after, reply) → IsKept m db after reply)
      → answer_or_suspend live answered fresh m db ≡ ok (after, reply)
      → IsKept m db after reply
  unfolding answer_or_suspend
  answer_or_suspend-ok existing none answered fresh m db after reply found live answers done =
      answers done
  answer_or_suspend-ok existing (some id) answered fresh m db after reply found live answers done =
      let step = >>=-eq-ok _ _ done in
      let held = live_handoff-some existing id db live in
      subst (λ (r : Db V P W × Option String). IsKept m db r.0 r.1) (ok-injective step.2)
        (while_suspended id held.0 (found ∙ ap (λ o. ok o) held.1) held.2
          (suspend-ok fresh m id db step.0 step.1))

module _ {E F R V P W : Type 0} where
  answer-ok :
      (served : Served E F R V P W) (engine : ScriptEngine F) (retriever : Option R)
      (state : ConversationState V) (fresh : Fresh) (m : InboundMessage) (db after : Db V P W)
      (reply existing : Option String)
      → find m.channel m.sender_ref db.conversations ≡ ok existing
      → answer served engine retriever state fresh m db ≡ ok (after, reply)
      → IsKept m db after reply
  unfolding answer
  answer-ok served engine retriever state fresh m db after reply existing found done =
      let out =
        >>=-eq-ok
          (lift raised
            (served.runner engine retriever state (get_or m.text "") m.channel db.ledger))
          _ done in
      let recorded = >>=-eq-ok _ _ out.2 in
      let same = ok-injective recorded.2 in
      subst (λ (r : Db V P W × Option String). IsKept m db r.0 r.1) same
        (from_ledger m db out.0.0 recorded.0 (some out.0.1.reply) (
          record_turn-ok fresh m out.0.1 (record db { ledger = out.0.0 }) recorded.0 existing found
            recorded.1))

  pub turn-ok :
      (w : InboundWorker E F R V P W) (fresh : Fresh) (m : InboundMessage) (db after : Db V P W)
      (reply : Option String)
      → turn w fresh m db ≡ ok (after, reply)
      → IsKept m db after reply
  unfolding turn
  turn-ok w fresh m db after reply done =
      let served = >>=-eq-ok (served_for w db.vertical) _ done in
      let retriever = >>=-eq-ok (retriever_for w m.tenant_id (get_or db.vertical "")) _ served.2 in
      let engine =
        >>=-eq-ok
          (current_engine (resolver_of w.scripts (get_or db.vertical "")) served.0.engine
            m.tenant_id)
          _ retriever.2 in
      let state =
        >>=-eq-ok
          (lift conversation_error (load m.channel m.sender_ref (start engine.0) db.conversations))
          _ engine.2 in
      let pinned =
        >>=-eq-ok
          (pinned_engine (resolver_of w.scripts (get_or db.vertical "")) engine.0 state.0
            m.tenant_id)
          _ state.2 in
      let existing =
        >>=-eq-ok (lift conversation_error (find m.channel m.sender_ref db.conversations)) _
          pinned.2 in
      let live = >>=-eq-ok (live_handoff existing.0 db) _ existing.2 in
      let found = lift-ok conversation_error _ existing.0 existing.1 in
      answer_or_suspend-ok existing.0 live.0 _ fresh m db after reply found live.1
        (answer-ok served.0 pinned.0 retriever.0 state.0 fresh m db after reply existing.0 found)
        live.2

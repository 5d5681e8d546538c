-- ===== src/Workers/Inbound/Progress.antt =====
-- What the handler does once it knows the tenant's script and thread (src/moc/workers/inbound.py).
use moreofchat.Prelude.{
  ◌≡◌, refl, ap, ◌∙◌, String, str_eq, false, Option, none, some, [], ◌∷◌, ◌++◌, ℕ, List,
  if◌then◌else◌, map, get_or,
}
use Prim.{tt}
use moreofchat.Result.{ok, ◌>>=◌}
use moreofchat.Dict.{Dict}
use moreofchat.Agent.State.{ConversationState}
use moreofchat.Agent.State.Json.{Json}
use moreofchat.Agent.Engine.{ScriptEngine, start}
use moreofchat.Agent.Handoff.{Handoff, live_for_conversation}
use moreofchat.Agent.Conversations.{Conversation, load, find, touch}
use moreofchat.Agent.Conversations.Save.{IsSingle, save-load}
use moreofchat.Agent.Messages.{resolve}
use moreofchat.Workers.Inbound.{
  InboundMessage, World, Fresh, Served, InboundWorker, TurnResult, resolver_of,
}
use moreofchat.Workers.Inbound.Session.{tables, answer_or_suspend, live_handoff, publish}
use moreofchat.Workers.Inbound.Handle.{
  served_for, retriever_for, current_engine, pinned_engine, answer, turn, commit, enqueue_reply,
  handle,
}
use moreofchat.Workers.Inbound.Handled.{job_to}
use moreofchat.Workers.Inbound.Recorded.{record_turn-known}
use moreofchat.Workers.Inbound.Suspended.{inbound_row, suspend-known, find-contains, touch-state}

-- The rows with a new time of the last message for this conversation, and for no other.
abbrev pub heard_at : {V : Type 0} → String → ℕ → List (Conversation V) → List (Conversation V)
heard_at id at rows =
    map (λ c. if str_eq c.id id then record c { last_inbound_at = some at } else c) rows

module _ {E F R V P W : Type 0} (w : InboundWorker E F R V P W) (fresh : Fresh) (m : InboundMessage)
    (world : World V P W) (served : Served E F R V P W) (retriever : Option R)
    (engine pinned : ScriptEngine F) (state : ConversationState V) (existing : Option String)
    (serves : served_for w world.db.vertical ≡ ok served)
    (reads : retriever_for w m.tenant_id (get_or world.db.vertical "") ≡ ok retriever)
    (starts : current_engine
        (resolver_of w.scripts (get_or world.db.vertical ""))
        served.engine
        m.tenant_id
      ≡ ok engine)
    (loads : load m.channel m.sender_ref (start engine) world.db.conversations ≡ ok state)
    (pins : pinned_engine
        (resolver_of w.scripts (get_or world.db.vertical ""))
        engine
        state
        m.tenant_id
      ≡ ok pinned)
    (finds : find m.channel m.sender_ref world.db.conversations ≡ ok existing) where
  turn-known : turn w fresh m world.db ≡ (
      live_handoff existing world.db >>= λ live.
      answer_or_suspend live
        (answer served pinned retriever state fresh m world.db)
        fresh
        m
        world.db)
  unfolding turn
  turn-known = rw (serves, reads, starts, loads, pins, finds) refl

  -- Where the tenant's vertical is served, the retriever, the scripts and the stored thread are read with
  -- no exception, and the sender's conversation has a live handoff, open or claimed, a message of the
  -- customer is kept in that conversation, whose time of the last message becomes the message's own;
  -- nothing is sent, no conversation's state moves, and neither the runner nor the ledger has any part in
  -- it, whatever they would do.
  pub handle-suspended :
      (id : String) (h : Handoff (Dict (Json V)))
      → existing ≡ some id
      → live_for_conversation id (tables world.db) ≡ ok (some h)
      → (handle w fresh m world ≡ (
        record world {
          db = record world.db {
            messages = world.db.messages ++ (inbound_row fresh m id ∷ []);
            conversations = heard_at id m.received_at world.db.conversations;
          };
        },
        ok tt,
      ))
        × (map (λ c. c.state) (heard_at id m.received_at world.db.conversations)
            ≡ map (λ c. c.state) world.db.conversations)
  unfolding handle commit live_handoff answer_or_suspend touch
  handle-suspended id h here live =
      let known =
        find-contains m.channel m.sender_ref id world.db.conversations
          (finds ∙ ap (λ o. ok o) here) in
      (
        rw (turn-known, here, live, suspend-known {E = E} fresh m id world.db known) refl,
        touch-state id (some m.received_at) world.db.conversations,
      )

  -- Where the tenant's vertical is served, the retriever, the scripts and the stored thread are read with
  -- no exception, the sender has at most one conversation, and that one no live handoff, a runner that
  -- returns a reply that is not empty and a server that takes the job bring the turn to its end: no
  -- exception, one job more, of that reply to the sender on the message's tenant, channel and thread, the
  -- ledger as the runner left it, and the thread at the runner's state, which the next message loads.
  pub handle-answers :
      (ledger : W) (result : TurnResult V P)
      → live_handoff {E = E} existing world.db ≡ ok none
      → served.runner pinned retriever state (get_or m.text "") m.channel world.db.ledger
        ≡ ok (ledger, result)
      → str_eq result.reply "" ≡ false
      → w.xadd (job_to (w.isoformat m.received_at) m result.reply) ≡ none
      → IsSingle m.channel m.sender_ref world.db.conversations
      → ((handle w fresh m world).1 ≡ ok tt)
        × ((handle w fresh m world).0.outbound
            ≡ world.outbound ++ (job_to (w.isoformat m.received_at) m result.reply ∷ []))
        × ((handle w fresh m world).0.db.ledger ≡ ledger)
        × (load m.channel m.sender_ref (start engine) (handle w fresh m world).0.db.conversations
            ≡ ok result.state)
  unfolding handle commit answer_or_suspend answer enqueue_reply publish
  handle-answers ledger result free runs filled sends single =
      let recorded =
        record_turn-known {E = E} fresh m result (record world.db { ledger = ledger }) in
      rw (turn-known, free, runs, recorded.1, filled, sends)
        (
          refl,
          refl,
          refl,
          (save-load fresh.conversation m.channel m.sender_ref (some m.channel_account_id)
              (some m.received_at) result.state (start engine)
              (some (resolve fresh.contact m.sender_ref world.db.contacts).1) world.db.conversations
              single).0,
        )

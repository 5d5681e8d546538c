-- ===== src/Workers/Inbound/Session.antt =====
-- What a turn reads and writes of the tenant's rows, and the job that it publishes
-- (src/moc/workers/inbound.py).
use moreofchat.Prelude.{
  ℕ, String, str_eq, Option, none, some, List, [], ◌∷◌, ◌++◌, map, if◌then◌else◌, is_some,
}
use Prim.{Unit, tt}
use moreofchat.Result.{Result, ok, err, ◌>>=◌}
use moreofchat.Dict.{Dict}
use moreofchat.Agent.State.Json.{Json}
use moreofchat.Agent.Conversations.{touch, save}
use moreofchat.Agent.Handoff.{Tables, live_for_conversation}
use moreofchat.Agent.Messages.{customer, bot, resolve, append}
use moreofchat.Workers.Outbound.{OutboundJob}
use moreofchat.Workers.Inbound.{
  InboundMessage, TurnResult, Db, World, Error, message_error, handoff_error, raised, Fresh, lift,
}

-- The fields that a reply does not set keep their default, null.
abbrev pub reply_job : (ℕ → String) → InboundMessage → String → OutboundJob
reply_job isoformat m reply = record {
  tenant_id = m.tenant_id;
  channel = m.channel;
  to = m.sender_ref;
  text = some reply;
  template = none;
  template_variables = none;
  last_inbound_at = some (isoformat m.received_at);
  thread_ref = m.thread_ref;
}

module _ {V P W : Type 0} where
  abbrev pub ids : Db V P W → List String
  ids db = map (λ c. c.id) db.conversations

  abbrev pub tables : Db V P W → Tables (Dict (Json V))
  tables db = record {
    handoffs = db.handoffs;
    cursors = map (λ c. (c.id, c.state)) db.conversations;
  }

module _ {E V P W : Type 0} where
  abbrev pub log :
      String
      → String
      → String
      → Option String
      → Option (Dict P)
      → Option (Dict P)
      → InboundMessage
      → ℕ
      → Db V P W
      → Result (Error E) (Db V P W)
  log id conversation_id author body provenance timings m now db =
      lift message_error (
        append (ids db)
          (record {
            id = id;
            conversation_id = conversation_id;
            channel = m.channel;
            author = author;
            body = body;
            created_at = now;
            provenance = provenance;
            timings = timings;
          })
          db.messages)
      >>= λ messages. ok (record db { messages = messages })

  -- A human has the conversation: the message is kept, and the runner is not called.
  unfoldable pub suspend : Fresh → InboundMessage → String → Db V P W → Result (Error E) (Db V P W)
  suspend fresh m conversation_id db =
      log fresh.inbound conversation_id customer m.text none none m fresh.now db >>= λ db.
      ok (record db { conversations = touch conversation_id (some m.received_at) db.conversations })

  unfoldable pub log_reply :
      Fresh → InboundMessage → String → TurnResult V P → Db V P W → Result (Error E) (Db V P W)
  log_reply fresh m conversation_id result db =
      let logged =
        log fresh.reply conversation_id bot (some result.reply) result.provenance result.timings m
          fresh.now db in
      if str_eq result.reply "" then ok db else logged

  -- The contact, the conversation and both sides of the thread.
  unfoldable pub record_turn :
      Fresh → InboundMessage → TurnResult V P → Db V P W → Result (Error E) (Db V P W)
  record_turn fresh m result db =
      let contact = resolve fresh.contact m.sender_ref db.contacts in
      let saved =
        save fresh.conversation m.channel m.sender_ref (some m.channel_account_id)
          (some m.received_at) result.state (some contact.1) db.conversations in
      log fresh.inbound saved.1 customer m.text none none m fresh.now
        (record db { contacts = contact.0; conversations = saved.0 })
      >>= log_reply fresh m saved.1 result

  -- The conversation's handoff, where there is a conversation and it has a live one.
  unfoldable pub live_handoff : Option String → Db V P W → Result (Error E) (Option String)
  live_handoff none db = ok none
  live_handoff (some id) db = lift handoff_error (live_for_conversation id (tables db)) >>= λ h.
      ok (if is_some h then some id else none)

  unfoldable pub answer_or_suspend :
      Option String
      → Result (Error E) (Db V P W × Option String)
      → Fresh
      → InboundMessage
      → Db V P W
      → Result (Error E) (Db V P W × Option String)
  answer_or_suspend none answered fresh m db = answered
  answer_or_suspend (some id) answered fresh m db = suspend fresh m id db >>= λ db. ok (db, none)

  -- `outbound` is every job published: the server may trim the stream itself.
  unfoldable pub publish :
      Option E → OutboundJob → World V P W → World V P W × Result (Error E) (Unit {0})
  publish none job world = (record world { outbound = world.outbound ++ (job ∷ []) }, ok tt)
  publish (some e) job world = (world, err (raised e))

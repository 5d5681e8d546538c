-- ===== src/Workers/Inbound/Recorded.antt =====
-- The rows of a turn can always be written (src/moc/workers/inbound.py).
use moreofchat.Prelude.{
  ℕ, ◌≡◌, refl, String, str_eq, eq_refl, true, Option, none, some, List, [], ◌∷◌, map, if-elim,
  arith, ap, ◌++◌,
}
use moreofchat.Result.{Result, ok, ◌>>=◌}
use moreofchat.Dict.{Dict, contains}
use moreofchat.Agent.Conversations.{Conversation, is_thread, save, upsert, overwrite}
use moreofchat.Agent.Messages.{Message, customer, bot, agent, append, or_null, resolve}
use moreofchat.Agent.Messages as Messages
use moreofchat.Workers.Inbound.{InboundMessage, Db, Error, Fresh, TurnResult, lift, message_error}
use moreofchat.Workers.Inbound.Session.{ids, log, log_reply, record_turn}

upsert-contains :
    {V : Type 0} (channel sender_ref : String) (new : Conversation V) (rows : List (Conversation V))
    → contains
        (upsert channel sender_ref new rows).1
        (map (λ c. c.id) (upsert channel sender_ref new rows).0)
      ≡ true
unfolding upsert contains overwrite
upsert-contains channel sender_ref new [] = rw (eq_refl new.id) refl
upsert-contains {V = V} channel sender_ref new (c ∷ rows) =
    if-elim (λ (r : List (Conversation V) × String). contains r.1 (map (λ d. d.id) r.0) ≡ true)
      (is_thread channel sender_ref c) (λ own. rw (eq_refl c.id) refl)
      (λ other. ground (arith, upsert-contains channel sender_ref new rows))

append-known :
    {P : Type 0} (conversations : List String) (m : Message P) (messages : List (Message P))
    → contains m.author (customer ∷ (bot ∷ (agent ∷ []))) ≡ true
    → contains m.conversation_id conversations ≡ true
    → append conversations m messages
      ≡ ok (
          messages
          ++ (record m { provenance = or_null m.provenance; timings = or_null m.timings } ∷ []))
unfolding append
append-known conversations m messages one_of known = rw (one_of, known) refl

-- The rows after a turn of this state.
abbrev pub saved_rows :
    {V P W : Type 0}
    → Fresh
    → InboundMessage
    → TurnResult V P
    → Db V P W
    → List (Conversation V) × String
saved_rows fresh m result db =
    save fresh.conversation m.channel m.sender_ref (some m.channel_account_id) (some m.received_at)
      result.state (some (resolve fresh.contact m.sender_ref db.contacts).1) db.conversations

module _ {E V P W : Type 0} where
  log-known :
      (id conversation_id author : String) (body : Option String)
      (provenance timings : Option (Dict P)) (m : InboundMessage) (now : ℕ) (db : Db V P W)
      → contains author (customer ∷ (bot ∷ (agent ∷ []))) ≡ true
      → contains conversation_id (ids db) ≡ true
      → (messages : List (Message P)) × (log {E = E} id conversation_id author body provenance
            timings m now db
          ≡ ok (record db { messages = messages }))
  log-known id conversation_id author body provenance timings m now db one_of known = (
    _,
    ap
        (λ (r : Result Messages.Error (List (Message P))).
          lift {E = E} message_error r >>= λ messages. ok (record db { messages = messages }))
        (append-known (ids db) _ db.messages one_of known),
  )

  log_reply-known :
      (fresh : Fresh) (m : InboundMessage) (id : String) (result : TurnResult V P) (db : Db V P W)
      → contains id (ids db) ≡ true
      → (messages : List (Message P)) × (log_reply {E = E} fresh m id result db
          ≡ ok (record db { messages = messages }))
  unfolding log_reply contains
  log_reply-known fresh m id result db known =
      if-elim
        (λ (r : Result (Error E) (Db V P W)).
          (messages : List (Message P)) × (r ≡ ok (record db { messages = messages })))
        (str_eq result.reply "") (λ empty. (db.messages, refl))
        (λ filled.
          log-known fresh.reply id bot (some result.reply) result.provenance result.timings m
            fresh.now db refl known)

  pub record_turn-known :
      (fresh : Fresh) (m : InboundMessage) (result : TurnResult V P) (db : Db V P W)
      → (messages : List (Message P)) × (record_turn {E = E} fresh m result db
          ≡ ok (record db {
            messages = messages;
            contacts = (resolve fresh.contact m.sender_ref db.contacts).0;
            conversations = (saved_rows fresh m result db).0;
          }))
  unfolding record_turn contains save
  record_turn-known fresh m result db =
      let rows = saved_rows fresh m result db in
      let after : Db V P W = record db {
        contacts = (resolve fresh.contact m.sender_ref db.contacts).0;
        conversations = rows.0;
      } in
      let known : contains rows.1 (ids after) ≡ true =
        upsert-contains m.channel m.sender_ref _ db.conversations in
      let inbound =
        log-known fresh.inbound rows.1 customer m.text none none m fresh.now after refl known in
      let reply =
        log_reply-known fresh m rows.1 result (record after { messages = inbound.0 }) known in
      (reply.0, rw (inbound.1, reply.1) refl)

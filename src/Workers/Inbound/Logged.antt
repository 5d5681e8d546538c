-- ===== src/Workers/Inbound/Logged.antt =====
-- The rows of messages that one message leaves (src/moc/workers/inbound.py).
use moreofchat.Prelude.{
  ℕ, ◌≡◌, refl, sym, ap, ◌∙◌, String, str_eq, true, false, Option, none, some, List, [], ◌∷◌, ◌++◌,
  map, if-elim, arith, append_assoc, subst, length, keep, ◌≤◌,
}
use moreofchat.Result.{Result, ok, err, ◌>>=◌, >>=-eq-ok, ok-injective}
use moreofchat.Dict.{Dict}
use moreofchat.Agent.Messages.{Message, customer, bot, append, or_null, resolve}
use moreofchat.Agent.Messages as Messages
use moreofchat.Agent.Conversations.{Conversation, find, is_thread, scalar_one_or_none, id_of}
use moreofchat.Agent.Conversations.Save.{save-load}
use moreofchat.Agent.State.Json.{Json}
use moreofchat.Agent.Handoff.{Handoff, live_for_conversation}
use moreofchat.Workers.Inbound.Recorded.{saved_rows, record_turn-known}
use moreofchat.Workers.Inbound.{InboundMessage, TurnResult, Db, Error, Fresh, lift, message_error}
use moreofchat.Workers.Inbound.Session.{tables, log, suspend, log_reply, record_turn}

-- The customer's words in a thread, and the bot's.
abbrev pub IsFrom : {P : Type 0} → InboundMessage → String → Message P → Type 0
IsFrom m thread c =
    (c.conversation_id ≡ thread)
    × (c.author ≡ customer)
    × (c.body ≡ m.text)
    × (c.channel ≡ m.channel)

abbrev pub IsReply : {P : Type 0} → InboundMessage → String → String → Message P → Type 0
IsReply m thread reply b =
    (b.conversation_id ≡ thread)
    × (b.author ≡ bot)
    × (b.body ≡ some reply)
    × (b.channel ≡ m.channel)

-- The rows of messages after a turn of this thread that has this reply, or none where the bot is
-- suspended.
pub data IsLogged {P : Type 0} (m : InboundMessage) (thread : String) (held : List (Message P))
    : List (Message P) → Option String → Type 0 where
  suspended : (c : Message P) → IsFrom m thread c → IsLogged m thread held (held ++ (c ∷ [])) none
  silent :
      (c : Message P) (reply : String)
      → IsFrom m thread c
      → str_eq reply "" ≡ true
      → IsLogged m thread held (held ++ (c ∷ [])) (some reply)
  spoken :
      (c b : Message P) (reply : String)
      → IsFrom m thread c
      → IsReply m thread reply b
      → str_eq reply "" ≡ false
      → IsLogged m thread held (held ++ (c ∷ (b ∷ []))) (some reply)

-- The rows of the tenant after a turn. Where it has no reply, the sender's conversation had a live
-- handoff; where it has one, the thread is the conversation that the sender is now found by.
pub data IsKept {V P W : Type 0} (m : InboundMessage) (before after : Db V P W)
    : Option String → Type 0 where
  while_suspended :
      (thread : String) (h : Handoff (Dict (Json V)))
      → find m.channel m.sender_ref before.conversations ≡ ok (some thread)
      → live_for_conversation thread (tables before) ≡ ok (some h)
      → IsLogged m thread before.messages after.messages none
      → IsKept m before after none
  in_thread :
      (thread reply : String)
      → find m.channel m.sender_ref after.conversations ≡ ok (some thread)
      → IsLogged m thread before.messages after.messages (some reply)
      → IsKept m before after (some reply)

append-ok :
    {P : Type 0} (conversations : List String) (m : Message P) (messages after : List (Message P))
    → append conversations m messages ≡ ok after
    → after
      ≡ messages
        ++ (record m { provenance = or_null m.provenance; timings = or_null m.timings } ∷ [])
unfolding append
append-ok conversations m messages after appended = ground (arith, appended)

-- One read of the thread means that there is at most one row for it.
find-IsSingle :
    {V : Type 0} (kept : List (Conversation V)) (id : Option String)
    → (scalar_one_or_none kept >>= λ row. ok (id_of row)) ≡ ok id
    → length kept ≤ 1
unfolding scalar_one_or_none
find-IsSingle [] id found = omega arith
find-IsSingle (c ∷ []) id found = omega arith
find-IsSingle (c ∷ (d ∷ kept)) id found = cc

module _ {E V P W : Type 0} where
  log-after :
      (r : Result Messages.Error (List (Message P))) (db after : Db V P W)
      → (lift {E = E} message_error r >>= λ messages. ok (record db { messages = messages }))
        ≡ ok after
      → r ≡ ok after.messages
  log-after (ok messages) db after logged =
      ap (λ (d : Db V P W). ok d.messages) (ok-injective logged)
  log-after (err e) db after logged = cc

  log-ok :
      (id conversation_id author : String) (body : Option String)
      (provenance timings : Option (Dict P)) (m : InboundMessage) (now : ℕ) (db after : Db V P W)
      → log {E = E} id conversation_id author body provenance timings m now db ≡ ok after
      → (c : Message P) × (c.conversation_id ≡ conversation_id)
        × (c.author ≡ author)
        × (c.body ≡ body)
        × (c.channel ≡ m.channel)
        × (after.messages ≡ db.messages ++ (c ∷ []))
  log-ok id conversation_id author body provenance timings m now db after logged = (
    _,
    refl,
    refl,
    refl,
    refl,
    append-ok (map (λ c. c.id) db.conversations) _ db.messages after.messages
        (log-after _ db after logged),
  )

  log_reply-ok :
      (fresh : Fresh) (m : InboundMessage) (conversation_id : String) (result : TurnResult V P)
      (db after : Db V P W) (held : List (Message P)) (c : Message P)
      → IsFrom m conversation_id c
      → db.messages ≡ held ++ (c ∷ [])
      → log_reply {E = E} fresh m conversation_id result db ≡ ok after
      → IsLogged m conversation_id held after.messages (some result.reply)
  unfolding log_reply
  log_reply-ok fresh m conversation_id result db after held c from inbound =
      if-elim
        (λ (r : Result (Error E) (Db V P W)).
          r ≡ ok after → IsLogged m conversation_id held after.messages (some result.reply))
        (str_eq result.reply "")
        (λ empty same.
          subst (λ messages. IsLogged m conversation_id held messages (some result.reply))
            (sym inbound ∙ ap (λ (d : Db V P W). d.messages) (ok-injective same))
            (silent c result.reply from empty))
        (λ filled logged.
          let b =
            log-ok fresh.reply conversation_id bot (some result.reply) result.provenance
              result.timings m fresh.now db after logged in
          subst (λ messages. IsLogged m conversation_id held messages (some result.reply))
            (sym (
              b.5
              ∙ ap (λ messages. messages ++ (b.0 ∷ [])) inbound
              ∙ append_assoc held (c ∷ []) (b.0 ∷ [])))
            (spoken c b.0 result.reply from (b.1, b.2, b.3, b.4) filled))

  pub record_turn-ok :
      (fresh : Fresh) (m : InboundMessage) (result : TurnResult V P) (db after : Db V P W)
      (existing : Option String)
      → find m.channel m.sender_ref db.conversations ≡ ok existing
      → record_turn {E = E} fresh m result db ≡ ok after
      → IsKept m db after (some result.reply)
  unfolding record_turn find
  record_turn-ok fresh m result db after existing found recorded =
      let both = >>=-eq-ok _ _ recorded in
      let c = log-ok _ _ _ _ _ _ m _ _ _ both.1 in
      let saved = record_turn-known {E = E} fresh m result db in
      let rows : (saved_rows fresh m result db).0 ≡ after.conversations =
        ap (λ (d : Db V P W). d.conversations) (ok-injective (sym saved.1 ∙ recorded)) in
      in_thread (saved_rows fresh m result db).1 result.reply
        (ap (find m.channel m.sender_ref) (sym rows)
          ∙ (save-load fresh.conversation m.channel m.sender_ref (some m.channel_account_id)
              (some m.received_at) result.state result.state
              (some (resolve fresh.contact m.sender_ref db.contacts).1) db.conversations
              (find-IsSingle (keep (is_thread m.channel m.sender_ref) db.conversations) existing
                found)).1)
        (log_reply-ok fresh m _ result both.0 after db.messages c.0 (c.1, c.2, c.3, c.4) c.5 both.2)

  pub suspend-ok :
      (fresh : Fresh) (m : InboundMessage) (id : String) (db after : Db V P W)
      → suspend {E = E} fresh m id db ≡ ok after
      → IsLogged m id db.messages after.messages none
  unfolding suspend
  suspend-ok fresh m id db after done =
      let both = >>=-eq-ok _ _ done in
      let c = log-ok _ _ _ _ _ _ m _ _ _ both.1 in
      subst (λ messages. IsLogged m id db.messages messages none)
        (sym c.5 ∙ ap (λ (d : Db V P W). d.messages) (ok-injective both.2))
        (suspended c.0 (c.1, c.2, c.3, c.4))

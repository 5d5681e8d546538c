-- ===== src/Workers/Inbound/Suspended.antt =====
-- A conversation that a human has (src/moc/workers/inbound.py).
use moreofchat.Prelude.{
  eq_refl, subst, ℕ, ◌≡◌, refl, String, Bool, true, Option, none, some, List, [], ◌∷◌, ◌++◌, map,
  keep, arith,
}
use moreofchat.Result.{ok, ◌>>=◌}
use moreofchat.Dict.{contains}
use moreofchat.Agent.Conversations.{Conversation, is_thread, find, id_of, touch, scalar_one_or_none}
use moreofchat.Agent.Messages.{Message, customer, append, or_null}
use moreofchat.Workers.Inbound.{InboundMessage, Db, Fresh}
use moreofchat.Workers.Inbound.Session.{ids, suspend}

module _ {V : Type 0} where
  -- The first row kept is a row.
  kept-contains :
      (p : Conversation V → Bool) (rows : List (Conversation V)) (c : Conversation V)
      (rest : List (Conversation V))
      → keep p rows ≡ c ∷ rest
      → contains c.id (map (λ r. r.id) rows) ≡ true
  unfolding contains
  kept-contains p [] c rest kept = cc
  kept-contains p (r ∷ rows) c rest kept =
      ground (arith, kept, eq_refl c.id, kept-contains p rows c rest)

  one-id :
      (kept : List (Conversation V)) (id : String)
      → (scalar_one_or_none kept >>= λ row. ok (id_of row)) ≡ ok (some id)
      → (c : Conversation V) × (rest : List (Conversation V)) × (kept ≡ c ∷ rest) × (c.id ≡ id)
  unfolding scalar_one_or_none id_of
  one-id [] id found = cc
  one-id (c ∷ []) id found = (c, [], refl, cc)
  one-id (c ∷ (d ∷ rest)) id found = cc

  pub find-contains :
      (channel sender_ref id : String) (rows : List (Conversation V))
      → find channel sender_ref rows ≡ ok (some id)
      → contains id (map (λ r. r.id) rows) ≡ true
  unfolding find
  find-contains channel sender_ref id rows found =
      let one = one-id (keep (is_thread channel sender_ref) rows) id found in
      subst (λ i. contains i (map (λ r. r.id) rows) ≡ true) one.3
        (kept-contains (is_thread channel sender_ref) rows one.0 one.1 one.2)

  pub touch-state :
      (id : String) (at : Option ℕ) (rows : List (Conversation V))
      → map (λ c. c.state) (touch id at rows) ≡ map (λ c. c.state) rows
  unfolding touch
  touch-state id at [] = refl
  touch-state id at (c ∷ rows) = ground (arith, touch-state id at rows)

module _ {P : Type 0} where
  -- What the customer wrote, as the thread keeps it.
  abbrev pub inbound_row : Fresh → InboundMessage → String → Message P
  inbound_row fresh m id = record {
    id = fresh.inbound;
    conversation_id = id;
    channel = m.channel;
    author = customer;
    body = m.text;
    created_at = fresh.now;
    provenance = none;
    timings = none;
  }

module _ {E V P W : Type 0} where
  pub suspend-known :
      (fresh : Fresh) (m : InboundMessage) (id : String) (db : Db V P W)
      → contains id (ids db) ≡ true
      → suspend {E = E} fresh m id db
        ≡ ok (record db {
          messages = db.messages ++ (inbound_row fresh m id ∷ []);
          conversations = touch id (some m.received_at) db.conversations;
        })
  unfolding suspend append or_null contains
  suspend-known fresh m id db known = rw known refl
